-- ===== src/KernelList/Find.antt =====
-- The searches through a list of controllers end and find the first that matches.
use generic_asynchronous_io.Prelude.{
  ℕ, zero, suc, ◌<◌, ◌≡◌, ◌≢◌, List, [], ◌∷◌, ◌==◌, if◌then◌else◌, Bool, length, none, some, arith,
  ap, ◌∙◌,
}
use generic_asynchronous_io.KernelList.{
  Heap, list_next, Search, missing, found, find_from, ctrl_find_by_pci_dev, ctrl_find_by_inode,
}
use generic_asynchronous_io.KernelList.Chain.{Absent, Links, IsList}

-- The first element that matches.
abbrev pub first_match : (ℕ → Bool) → List ℕ → Search
first_match matches [] = missing
first_match matches (x ∷ xs) = if matches x then found x else first_match matches xs

next_end : (h : Heap) (a l : ℕ) → (h a).list ≡ l → (h a).next ≡ l → list_next h a ≡ none
unfolding list_next
next_end h a l e n = ground arith

next_on : (h : Heap) (a l x : ℕ) → (h a).list ≡ l → (h a).next ≡ x → l ≢ x → list_next h a ≡ some x
unfolding list_next
next_on h a l x e n ne = ground arith

pub find_from_lem :
    (h : Heap) (l a : ℕ) (xs : List ℕ) (matches : ℕ → Bool) (fuel : ℕ)
    → Links h l a xs l
    → (h a).list ≡ l
    → Absent l xs
    → length xs < fuel
    → find_from h matches (list_next h a) fuel ≡ first_match matches xs
unfolding find_from
find_from_lem h l a xs matches zero k e ab enough = absurd (omega (arith, enough))
find_from_lem h l a [] matches (suc fuel) k e ab enough =
    ap (λ t. find_from h matches t (suc fuel)) (next_end h a l e k.0)
find_from_lem h l a (x ∷ xs) matches (suc fuel) k e ab enough =
    ap (λ t. find_from h matches t (suc fuel)) (next_on h a l x e k.0 ab.0)
    ∙ ap (λ t. if matches x then found x else t)
        (find_from_lem h l x xs matches fuel k.3 k.2 ab.1 (omega (arith, enough)))

-- With more tests than the list has elements, `ctrl_find_by_pci_dev` ends with the first
-- controller of the list that has the device, or with NULL where none has it, and
-- `ctrl_find_by_inode` does so for the character device.
pub ctrl_find_lem :
    (h : Heap) (l : ℕ) (xs : List ℕ) (pdev_of cdev_at : ℕ → ℕ) (pdev i_cdev fuel : ℕ)
    → IsList h l xs
    → length xs < fuel
    → (ctrl_find_by_pci_dev h pdev_of l pdev fuel ≡ first_match (λ c. pdev_of c == pdev) xs)
      × (ctrl_find_by_inode h cdev_at l i_cdev fuel ≡ first_match (λ c. cdev_at c == i_cdev) xs)
unfolding ctrl_find_by_pci_dev ctrl_find_by_inode
ctrl_find_lem h l xs pdev_of cdev_at pdev i_cdev fuel v enough = (
  find_from_lem h l l xs (λ c. pdev_of c == pdev) fuel v.links v.own v.real.1.0 enough,
  find_from_lem h l l xs (λ c. cdev_at c == i_cdev) fuel v.links v.own v.real.1.0 enough,
)
