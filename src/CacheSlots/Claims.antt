-- ===== src/CacheSlots/Claims.antt =====
-- Who relies on a slot of the cache.
use generic_asynchronous_io.Prelude.{ℕ, ◌/◌, ◌^◌, ◌≡◌, ◌≢◌, true, false}
use generic_asynchronous_io.PageState
use generic_asynchronous_io.PageState.{Page, st, v_nb, Evict, busy, dirty}
use generic_asynchronous_io.CacheSlots.{
  Cache, Find, drawing, testing, locking, peeking, ousting, assigning, unlocking, found, Pc, on,
  finding, free,
}

abbrev pub IsValid : ℕ → Type 0
IsValid state = state / 2 ^ 31 ≡ 1

-- A thread that has the slot of its page.
abbrev pub AtSlot : PageState.Pc → ℕ → Type 0
AtSlot (PageState.loaded _ _ t) s = t ≡ s
AtSlot (PageState.flipping _ t) s = t ≡ s
AtSlot (PageState.holding _ t) s = t ≡ s
AtSlot PageState.outside s = ⊥
AtSlot (PageState.looking _ _ _) s = ⊥
AtSlot (PageState.reloading _ _) s = ⊥
AtSlot (PageState.claiming _ _) s = ⊥
AtSlot (PageState.loading _ _) s = ⊥
AtSlot (PageState.dirtying _) s = ⊥
AtSlot (PageState.hit _) s = ⊥
AtSlot PageState.evicting s = ⊥
AtSlot PageState.writing s = ⊥
AtSlot PageState.undoing s = ⊥

-- One that has stored it and not made the page valid yet.
abbrev pub Stored : PageState.Pc → ℕ → Type 0
Stored (PageState.loaded _ _ t) s = t ≡ s
Stored (PageState.flipping _ t) s = t ≡ s
Stored (PageState.holding _ _) s = ⊥
Stored PageState.outside s = ⊥
Stored (PageState.looking _ _ _) s = ⊥
Stored (PageState.reloading _ _) s = ⊥
Stored (PageState.claiming _ _) s = ⊥
Stored (PageState.loading _ _) s = ⊥
Stored (PageState.dirtying _) s = ⊥
Stored (PageState.hit _) s = ⊥
Stored PageState.evicting s = ⊥
Stored PageState.writing s = ⊥
Stored PageState.undoing s = ⊥

-- One that has seen its page valid, and will load `offset`.
abbrev pub Hitting : PageState.Pc → Type 0
Hitting (PageState.looking _ _ r) = st r ≡ v_nb
Hitting (PageState.dirtying _) = Unit {0}
Hitting (PageState.hit _) = Unit {0}
Hitting PageState.outside = ⊥
Hitting (PageState.reloading _ _) = ⊥
Hitting (PageState.claiming _ _) = ⊥
Hitting (PageState.loading _ _) = ⊥
Hitting (PageState.loaded _ _ _) = ⊥
Hitting (PageState.flipping _ _) = ⊥
Hitting (PageState.holding _ _) = ⊥
Hitting PageState.evicting = ⊥
Hitting PageState.writing = ⊥
Hitting PageState.undoing = ⊥

abbrev FoundIn : Find → ℕ → Type 0
FoundIn (unlocking t true) s = t ≡ s
FoundIn (unlocking t false) s = ⊥
FoundIn (found t) s = t ≡ s
FoundIn drawing s = ⊥
FoundIn (testing _) s = ⊥
FoundIn (locking _ _) s = ⊥
FoundIn (peeking _) s = ⊥
FoundIn (ousting _ _ _) s = ⊥
FoundIn (assigning _) s = ⊥

-- The thread has slot `s` for page `p`.
abbrev pub Uses : ℕ → ℕ → Pc → Type 0
Uses p s (on q x) = (q ≡ p) × AtSlot x s
Uses p s (finding q _ _ f) = (q ≡ p) × FoundIn f s

abbrev pub Hits : ℕ → Pc → Type 0
Hits p (on q x) = (q ≡ p) × Hitting x
Hits p (finding _ _ _ _) = ⊥

abbrev pub Stores : ℕ → ℕ → Pc → Type 0
Stores p s (on q x) = (q ≡ p) × Stored x s
Stores p s (finding _ _ _ _) = ⊥

abbrev Holds : Find → ℕ → Type 0
Holds (peeking t) s = t ≡ s
Holds (ousting t _ _) s = t ≡ s
Holds (assigning t) s = t ≡ s
Holds (unlocking t _) s = t ≡ s
Holds (found _) s = ⊥
Holds drawing s = ⊥
Holds (testing _) s = ⊥
Holds (locking _ _) s = ⊥

-- The thread holds `page_take_lock` of slot `s`.
abbrev pub Locks : ℕ → Pc → Type 0
Locks s (on _ _) = ⊥
Locks s (finding _ _ _ f) = Holds f s

-- And is about to store another page there.
abbrev pub Takes : ℕ → Pc → Type 0
Takes s (finding _ _ _ (assigning t)) = t ≡ s
Takes s _ = ⊥

abbrev pub Ousts : ℕ → ℕ → Pc → Type 0
Ousts s p (finding _ _ _ (ousting t v _)) = (t ≡ s) × (v ≡ p)
Ousts s p _ = ⊥

-- Page `p` relies on slot `s`: it is valid there, or a thread will take it from there, or has it.
pub data Claim (m : Cache) (pc : ℕ → Pc) (s p : ℕ) : Type 0 where
  by_page : IsValid (m.pages p).state → (m.pages p).offset ≡ s → Claim m pc s p
  by_hit : (j : ℕ) → Hits p (pc j) → (m.pages p).offset ≡ s → Claim m pc s p
  by_user : (j : ℕ) → Uses p s (pc j) → Claim m pc s p

pub record Assigned (m : Cache) (s p : ℕ) : Type 0 where
  pub translation : m.page_translation s ≡ p
  pub in_use : m.page_take_lock s ≢ free

pub AtSlot-of_Stored : (x : PageState.Pc) (s : ℕ) → Stored x s → AtSlot x s
AtSlot-of_Stored (PageState.loaded _ _ _) s h = h
AtSlot-of_Stored (PageState.flipping _ _) s h = h
AtSlot-of_Stored PageState.outside s h = absurd h
AtSlot-of_Stored x s h = absurd h
