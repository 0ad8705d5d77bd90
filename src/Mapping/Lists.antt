-- ===== src/Mapping/Lists.antt =====
-- A descriptor that is in no list yet does not disturb the list.
use generic_asynchronous_io.Prelude.{
  ℕ, ◌≡◌, ◌≢◌, ap, ◌∙◌, List, [], ◌∷◌, ◌==◌, ◌||◌, true, if_true, update, update_ne, arith,
}
use generic_asynchronous_io.KernelList.{Heap, ListNode, null, list_node_init, list_remove}
use generic_asynchronous_io.KernelList.Chain.{Absent, Links, IsList}

module _ (h : Heap) (l at : ℕ) (node : ListNode) where
  abbrev h' : Heap
  h' = update h at node

  kept : (x : ℕ) → at ≢ x → h' x ≡ h x
  kept x ne = update_ne h at x node ne

  Links-update :
      (a b : ℕ) (xs : List ℕ)
      → at ≢ a
      → at ≢ b
      → Absent at xs
      → Links h l a xs b
      → Links h' l a xs b
  Links-update a b [] na nb ab k =
      (ap (λ n. n.next) (kept a na) ∙ k.0, ap (λ n. n.prev) (kept b nb) ∙ k.1)
  Links-update a b (x ∷ xs) na nb ab k = (
    ap (λ n. n.next) (kept a na) ∙ k.0,
    ap (λ n. n.prev) (kept x ab.0) ∙ k.1,
    ap (λ n. n.list) (kept x ab.0) ∙ k.2,
    Links-update x b xs ab.0 nb ab.1 k.3,
  )

  pub update-IsList : (xs : List ℕ) → Absent at (l ∷ xs) → IsList h l xs → IsList h' l xs
  update-IsList xs out v = record {
    real = v.real;
    own = ap (λ n. n.list) (kept l out.0) ∙ v.own;
    links = Links-update l l xs out.0 out.0 out.1 v.links;
  }

pub list_node_init-IsList :
    (h : Heap) (l at : ℕ) (xs : List ℕ)
    → Absent at (l ∷ xs)
    → IsList h l xs
    → IsList (list_node_init h at) l xs
unfolding list_node_init
list_node_init-IsList h l at xs out v = update-IsList h l at _ xs out v

-- An element that is in no list is not taken out of one.
pub list_remove_unlisted : (h : Heap) (at : ℕ) → (h at).list ≡ null → list_remove h at ≡ h
unfolding list_remove
list_remove_unlisted h at e = if_true _ _ (in_none (h at).list e)
  where
    in_none : (l : ℕ) → l ≡ null → ((at == null) || ((l == null) || (at == l))) ≡ true
    in_none l q = ground (arith, q)
