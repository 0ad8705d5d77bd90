-- ===== src/KernelList/Insert.antt =====
-- `list_init` makes the empty list and `list_insert` appends.
use generic_asynchronous_io.Prelude.{ℕ, ◌≡◌, ◌≢◌, List, [], ◌∷◌, ◌++◌, arith, sym, ap, ◌∙◌}
use generic_asynchronous_io.KernelList.{Heap, null, list_init, list_insert}
use generic_asynchronous_io.KernelList.Chain.{
  Absent, Distinct, Links, IsList, before, Absent-append, Distinct-snoc,
}

-- What `list_insert` does to the memory.
module _ (h : Heap) (l e : ℕ) (apart : e ≢ l) (new : e ≢ (h l).prev) where
  abbrev inserted : Heap
  inserted = list_insert h l e

  insert_next : (x : ℕ) → x ≢ (h l).prev → x ≢ e → (inserted x).next ≡ (h x).next
  unfolding list_insert
  insert_next x a b = ground arith

  insert_prev : (x : ℕ) → x ≢ l → x ≢ e → (inserted x).prev ≡ (h x).prev
  unfolding list_insert
  insert_prev x a b = ground arith

  insert_list : (x : ℕ) → x ≢ e → (inserted x).list ≡ (h x).list
  unfolding list_insert
  insert_list x b = ground arith

  insert_joins :
      ((inserted (h l).prev).next ≡ e)
      × ((inserted e).prev ≡ (h l).prev)
      × ((inserted e).list ≡ l)
      × ((inserted e).next ≡ l)
      × ((inserted l).prev ≡ e)
  unfolding list_insert
  insert_joins = ground arith

  insert-Links :
      (a : ℕ) (xs : List ℕ)
      → Links h l a xs l
      → a ≢ e
      → Absent e xs
      → Absent l xs
      → Distinct (a ∷ xs)
      → Links inserted l a (xs ++ e ∷ []) l
  insert-Links a [] k ne ab al d = (
    ap (λ t. (inserted t).next) (sym k.1) ∙ insert_joins.0,
    insert_joins.1 ∙ k.1,
    insert_joins.2,
    (insert_joins.3, insert_joins.4),
  )
  insert-Links a (x ∷ xs) k ne ab al d = (
    insert_next a (before h l x l xs a k.3 d.0.0 d.0.1) ne ∙ k.0,
    insert_prev x (λ q. al.0 (sym q)) (λ q. ab.0 (sym q)) ∙ k.1,
    insert_list x (λ q. ab.0 (sym q)) ∙ k.2,
    insert-Links x xs k.3 (λ q. ab.0 (sym q)) ab.1 al.1 d.1,
  )

-- `list_insert` appends an element that is in no list to the list.
pub list_insert-IsList :
    (h : Heap) (l e : ℕ) (xs : List ℕ)
    → IsList h l xs
    → e ≢ null
    → Absent e (l ∷ xs)
    → IsList (list_insert h l e) l (xs ++ e ∷ [])
list_insert-IsList h l e xs v some_node out = record {
  real = (
    Absent-append null (l ∷ xs) (e ∷ []) v.real.0 ((λ q. some_node (sym q)), tt),
    Distinct-snoc e (l ∷ xs) v.real.1 out,
  );
  own = insert_list h l e out.0 fresh l (λ q. out.0 (sym q)) ∙ v.own;
  links =
      insert-Links h l e out.0 fresh l xs v.links (λ q. out.0 (sym q)) out.1 v.real.1.0 v.real.1;
}
  where
    fresh : e ≢ (h l).prev
    fresh = before h l l l xs e v.links out.0 out.1

-- `list_init` makes an empty list.
pub list_init-IsList : (h : Heap) (l : ℕ) → l ≢ null → IsList (list_init h l) l []
unfolding list_init
list_init-IsList h l some_node = record {
  real = (((λ q. some_node (sym q)), tt), (tt, tt));
  own = ground arith;
  links = ground arith;
}
