-- ===== src/Mapping/Lookup.antt =====
-- `map_find` finds the first mapping of the task that starts at the page of an address.
use generic_asynchronous_io.Prelude.{
  ℕ, ◌<◌, ◌≡◌, ◌⊎◌, inl, inr, refl, sym, ap, ◌∙◌, Bool, true, false, if_true, if_false, subst,
  Bool-cases, List, [], ◌∷◌, ◌++◌, length,
}
use generic_asynchronous_io.KernelList.{Search, missing, found}
use generic_asynchronous_io.KernelList.Chain.{IsList}
use generic_asynchronous_io.KernelList.Find.{first_match, find_from_lem}
use generic_asynchronous_io.Mapping.{World, is_mapping, map_find}

abbrev pub NoneMatches : (ℕ → Bool) → List ℕ → Type 0
NoneMatches matches [] = Unit {0}
NoneMatches matches (x ∷ xs) = (matches x ≡ false) × NoneMatches matches xs

-- The first that matches, with those before it and behind it; or none does.
abbrev pub FirstMatch : (ℕ → Bool) → List ℕ → Search → Type 0
FirstMatch matches xs r =
    ((r ≡ missing) × NoneMatches matches xs)
    ⊎ ((before : List ℕ) × (at : ℕ) × (behind : List ℕ) × (r ≡ found at)
        × (xs ≡ before ++ at ∷ behind)
        × NoneMatches matches before
        × (matches at ≡ true))

first_match-FirstMatch :
    (matches : ℕ → Bool) (xs : List ℕ) → FirstMatch matches xs (first_match matches xs)
first_match-FirstMatch matches [] = inl (refl, tt)
first_match-FirstMatch matches (x ∷ xs) = elim (Bool-cases (matches x)) [
  | inl yes_x ↦ inr ([], x, xs, if_true (found x) (first_match matches xs) yes_x, refl, tt, yes_x)
  | inr no_x ↦
      let on = if_false (found x) (first_match matches xs) no_x in
      elim (first_match-FirstMatch matches xs) [
        | inl (e, others) ↦ inl (on ∙ e, (no_x, others))
        | inr (before, at, behind, e, split, others, is) ↦
            inr (x ∷ before, at, behind, on ∙ e, ap (λ t. x ∷ t) split, (no_x, others), is)
      ]
]

-- On a list of mappings, with more tests than it has elements, `map_find` ends. It returns NULL
-- where no mapping belongs to the task and starts at the 4 KiB page or the 64 KiB page of the
-- address, and else the first that does.
pub map_find_lem :
    (w : World) (list current vaddr fuel : ℕ) (xs : List ℕ)
    → IsList w.heap list xs
    → length xs < fuel
    → FirstMatch
        (λ at. is_mapping current vaddr (w.maps at))
        xs
        (map_find w list current vaddr fuel)
unfolding map_find
map_find_lem w list current vaddr fuel xs v enough =
    let matches = λ (at : ℕ). is_mapping current vaddr (w.maps at) in
    subst (FirstMatch matches xs)
      (sym (find_from_lem w.heap list list xs matches fuel v.links v.own v.real.1.0 enough))
      (first_match-FirstMatch matches xs)
