-- ===== src/KernelList/Remove.antt =====
-- `list_remove` takes an element out wherever it stands.
use generic_asynchronous_io.Prelude.{ℕ, ◌≡◌, ◌≢◌, List, [], ◌∷◌, ◌++◌, arith, sym, ap, ◌∙◌, subst}
use generic_asynchronous_io.KernelList.{Heap, null, list_remove}
use generic_asynchronous_io.KernelList.Chain.{
  Absent, Distinct, Links, IsList, Absent-append, Absent-parts, Distinct-parts,
}

-- The neighbours of an element in the middle.
left_of :
    (h : Heap) (l a b e y : ℕ) (xs ys : List ℕ)
    → Links h l a (xs ++ e ∷ ys) b
    → y ≢ a
    → Absent y xs
    → y ≢ (h e).prev
left_of h l a b e y [] ys k na ab = λ q. na (q ∙ k.1)
left_of h l a b e y (x ∷ xs) ys k na ab = left_of h l x b e y xs ys k.3 ab.0 ab.1

right_of :
    (h : Heap) (l a b e y : ℕ) (xs ys : List ℕ)
    → Links h l a (xs ++ e ∷ ys) b
    → y ≢ b
    → Absent y ys
    → y ≢ (h e).next
right_of h l a b e y [] [] k nb ab = λ q. nb (q ∙ k.3.0)
right_of h l a b e y [] (z ∷ ys) k nb ab = λ q. ab.0 (q ∙ k.3.0)
right_of h l a b e y (x ∷ xs) ys k nb ab = right_of h l x b e y xs ys k.3 nb ab

in_list : (h : Heap) (l a b e : ℕ) (xs ys : List ℕ) → Links h l a (xs ++ e ∷ ys) b → (h e).list ≡ l
in_list h l a b e [] ys k = k.2
in_list h l a b e (x ∷ xs) ys k = in_list h l x b e xs ys k.3

remove_cleared :
    (h : Heap) (l e : ℕ)
    → e ≢ null
    → (h e).list ≡ l
    → l ≢ null
    → e ≢ l
    → list_remove h e e ≡ record { list = null; next = null; prev = null }
unfolding list_remove
remove_cleared h l e real listed some_list not_head = ground arith

-- What `list_remove` does to the memory.
module _ (h : Heap) (l e : ℕ) (real : e ≢ null) (listed : (h e).list ≡ l) (some_list : l ≢ null)
    (not_head : e ≢ l) (np : e ≢ (h e).prev) (nn : e ≢ (h e).next) where
  abbrev removed : Heap
  removed = list_remove h e

  remove_next : (x : ℕ) → x ≢ (h e).prev → x ≢ e → (removed x).next ≡ (h x).next
  unfolding list_remove
  remove_next x a b = ground arith

  remove_prev : (x : ℕ) → x ≢ (h e).next → x ≢ e → (removed x).prev ≡ (h x).prev
  unfolding list_remove
  remove_prev x a b = ground arith

  remove_list : (x : ℕ) → x ≢ e → (removed x).list ≡ (h x).list
  unfolding list_remove
  remove_list x b = ground arith

  remove_joins : ((removed (h e).prev).next ≡ (h e).next) × ((removed (h e).next).prev ≡ (h e).prev)
  unfolding list_remove
  remove_joins = ground arith

  -- Behind the element.
  remove_behind :
      (b : ℕ) (zs : List ℕ)
      → Links h l b zs l
      → b ≢ (h e).prev
      → Absent (h e).prev zs
      → b ≢ e
      → Absent e zs
      → Absent (h e).next zs
      → l ≢ (h e).next
      → Links removed l b zs l
  remove_behind b [] k p1 p2 e1 e2 n1 n2 =
      (remove_next b p1 e1 ∙ k.0, remove_prev l n2 (λ q. not_head (sym q)) ∙ k.1)
  remove_behind b (z ∷ zs) k p1 p2 e1 e2 n1 n2 = (
    remove_next b p1 e1 ∙ k.0,
    remove_prev z (λ q. n1.0 (sym q)) (λ q. e2.0 (sym q)) ∙ k.1,
    remove_list z (λ q. e2.0 (sym q)) ∙ k.2,
    remove_behind z zs k.3 (λ q. p2.0 (sym q)) p2.1 (λ q. e2.0 (sym q)) e2.1 n1.1 n2,
  )

  remove-Links :
      (a : ℕ) (xs ys : List ℕ)
      → Links h l a (xs ++ e ∷ ys) l
      → Absent a (xs ++ e ∷ ys)
      → Absent l (xs ++ e ∷ ys)
      → Distinct (xs ++ e ∷ ys)
      → Links removed l a (xs ++ ys) l
  remove-Links a [] [] k aa al d = (
    ap (λ t. (removed t).next) (sym k.1) ∙ remove_joins.0 ∙ k.3.0,
    ap (λ t. (removed t).prev) (sym k.3.0) ∙ remove_joins.1 ∙ k.1,
  )
  remove-Links a [] (y ∷ ys) k aa al d = (
    ap (λ t. (removed t).next) (sym k.1) ∙ remove_joins.0 ∙ k.3.0,
    ap (λ t. (removed t).prev) (sym k.3.0) ∙ remove_joins.1 ∙ k.1,
    remove_list y (λ q. d.0.0 (sym q)) ∙ k.3.2,
    remove_behind y ys k.3.3 (λ q. aa.1.0 (sym (q ∙ k.1)))
        (subst (λ t. Absent t ys) (sym k.1) aa.1.1) (λ q. d.0.0 (sym q)) d.0.1
        (subst (λ t. Absent t ys) (sym k.3.0) d.1.0) (λ q. al.1.0 (q ∙ k.3.0)),
  )
  remove-Links a (x ∷ xs) ys k aa al d =
      let parts = Absent-parts a e xs ys aa.1 in
      let parts_x = Absent-parts x e xs ys d.0 in
      (
        remove_next a (left_of h l x l e a xs ys k.3 aa.0 parts.0) parts.1 ∙ k.0,
        remove_prev x (right_of h l x l e x xs ys k.3 (λ q. al.0 (sym q)) parts_x.2) parts_x.1
            ∙ k.1,
        remove_list x parts_x.1 ∙ k.2,
        remove-Links x xs ys k.3 d.0 al.1 d.1,
      )

-- `list_remove` takes an element out of the list that it is in, wherever it stands, and clears
-- its links.
pub list_remove-IsList :
    (h : Heap) (l e : ℕ) (xs ys : List ℕ)
    → IsList h l (xs ++ e ∷ ys)
    → IsList (list_remove h e) l (xs ++ ys)
      × (list_remove h e e ≡ record { list = null; next = null; prev = null })
list_remove-IsList h l e xs ys v = (
  record {
    real = (
      ((λ q. some_list (sym q)), Absent-append null xs ys nulls.0 nulls.2),
      (Absent-append l xs ys heads.0 heads.2, parts.2),
    );
    own = remove_list h l e real listed some_list not_head np nn l heads.1 ∙ v.own;
    links =
        remove-Links h l e real listed some_list not_head np nn l xs ys v.links v.real.1.0
          v.real.1.0 v.real.1.1;
  },
  cleared,
)
  where
    nulls : Absent null xs × (null ≢ e) × Absent null ys
    nulls = Absent-parts null e xs ys v.real.0.1

    heads : Absent l xs × (l ≢ e) × Absent l ys
    heads = Absent-parts l e xs ys v.real.1.0

    parts : Absent e xs × Absent e ys × Distinct (xs ++ ys)
    parts = Distinct-parts e xs ys v.real.1.1

    some_list : l ≢ null
    some_list q = v.real.0.0 (sym q)

    real : e ≢ null
    real q = nulls.1 (sym q)

    not_head : e ≢ l
    not_head q = heads.1 (sym q)

    listed : (h e).list ≡ l
    listed = in_list h l l l e xs ys v.links

    np : e ≢ (h e).prev
    np = left_of h l l l e e xs ys v.links not_head parts.0

    nn : e ≢ (h e).next
    nn = right_of h l l l e e xs ys v.links not_head parts.1

    cleared : list_remove h e e ≡ record { list = null; next = null; prev = null }
    cleared = remove_cleared h l e real listed some_list not_head
