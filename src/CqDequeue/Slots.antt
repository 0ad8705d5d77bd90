-- ===== src/CqDequeue/Slots.antt =====
-- What one step does to the entries of the threads and to the locks of their slots.
use generic_asynchronous_io.Prelude.{
  ℕ, ◌^◌, ◌%◌, ◌≤◌, ◌<◌, ◌≡◌, ◌≢◌, ◌⊎◌, inl, inr, refl, arith, ap, sym, subst, ◌∙◌, true, false,
  not, Bool-cases, ℕ_discrete, update, update_self, update_ne, bit_or, bit_or-one,
}
use generic_asynchronous_io.CqDequeue.{
  Shared, Pc, slot, Move, enter, wait, seen, wait_again, grab, mark, unlock,
}
use generic_asynchronous_io.CqDequeue.Defs.{Entry, before, in_slot, Inv}
use generic_asynchronous_io.CqDequeue.Moves.{slot_is}

module _ (log : ℕ) (le : log ≤ 32) {m : Shared} {pc : ℕ → Pc} (inv : Inv log m pc)
    (small : m.posted < 2 ^ 31) where
  -- The entry is the one that the thread had, or a new one.
  pub Move-Entry :
      {p p' : Pc} {m' : Shared}
      → Move log m p m' p'
      → (a : ℕ) → Entry a p'
      → Entry a p ⊎ (m.found a ≡ false)
  Move-Entry (enter b h _ _ _ free) a e = inr (subst (λ t. m.found t ≡ false) e free)
  Move-Entry unlock a e = absurd e
  Move-Entry mv a e = inl e

  pub Move-own :
      {p p' : Pc} {m' : Shared}
      → Move log m p m' p'
      → ((a : ℕ) → Entry a p → (m.found a ≡ true) × (m.marked a ≡ not (before p)))
      → (a : ℕ) → Entry a p'
      → (m'.found a ≡ true) × (m'.marked a ≡ not (before p'))
  Move-own (enter b h _ _ _ free) own a e =
      (ap (update m.found b true) (sym e) ∙ update_self m.found b true, unmarked)
    where
      unmarked : m.marked a ≡ false
      unmarked = elim (Bool-cases (m.marked a)) [
        | inl is ↦
            let clash : true ≡ false =
              sym (inv.marked_found a is) ∙ subst (λ t. m.found t ≡ false) e free in
            absurd (cc clash)
        | inr not_yet ↦ not_yet
      ]
  Move-own (mark {a = b}) own a e =
      ((own a e).0, ap (update m.marked b true) (sym e) ∙ update_self m.marked b true)
  Move-own unlock own a e = absurd e
  Move-own mv own a e = own a e

  pub record SlotLocks (p : Pc) (m' : Shared) (p' : Pc) : Type 0 where
    pub of_slot :
        (a : ℕ)
        → Entry a p'
        → in_slot p' ≡ true
        → (Entry a p × (in_slot p ≡ true)) ⊎ (m.pos_locks (a % 2 ^ log) ≡ 0)
    pub now : (a : ℕ) → Entry a p' → in_slot p' ≡ true → m'.pos_locks (a % 2 ^ log) ≢ 0
    pub kept :
        (s : ℕ)
        → m.pos_locks s ≢ 0
        → ((a : ℕ) → Entry a p → in_slot p ≡ true → a % 2 ^ log ≢ s)
        → m'.pos_locks s ≢ 0

  -- `fetch_or(1)` leaves 0 nowhere.
  or_set : (t s : ℕ) → m.pos_locks s ≢ 0 → update m.pos_locks t (bit_or (m.pos_locks t) 1) s ≢ 0
  or_set t s ne e = elim (ℕ_discrete t s) [
    | yes same ↦ omega (
      arith,
      e,
      bit_or-one (m.pos_locks t),
      ap (update m.pos_locks t (bit_or (m.pos_locks t) 1)) same,
      update_self m.pos_locks t (bit_or (m.pos_locks t) 1),
    )
    | no other ↦ ne (sym (update_ne m.pos_locks t s _ other) ∙ e)
  ]

  or_here : (t s : ℕ) → t ≡ s → update m.pos_locks t (bit_or (m.pos_locks t) 1) s ≢ 0
  or_here t s same e = omega (
    arith,
    e,
    bit_or-one (m.pos_locks t),
    ap (update m.pos_locks t (bit_or (m.pos_locks t) 1)) same,
    update_self m.pos_locks t (bit_or (m.pos_locks t) 1),
  )

  pub Move-SlotLocks :
      {p p' : Pc} {m' : Shared}
      → Move log m p m' p'
      → ((a : ℕ) → Entry a p → in_slot p ≡ true → m.pos_locks (a % 2 ^ log) ≢ 0)
      → SlotLocks p m' p'
  Move-SlotLocks (enter b h _ _ _ _) held = record {
    of_slot = λ a e i. cc i;
    now = λ a e i. cc i;
    kept = λ s ne _. ne;
  }
  Move-SlotLocks (wait _) held = record {
    of_slot = λ a e i. cc i;
    now = λ a e i. cc i;
    kept = λ s ne _. ne;
  }
  Move-SlotLocks (seen _) held = record {
    of_slot = λ a e i. cc i;
    now = λ a e i. cc i;
    kept = λ s ne _. ne;
  }
  Move-SlotLocks (wait_again {a = b} _) held = record {
    of_slot = λ a e i. cc i;
    now = λ a e i. cc i;
    kept = λ s ne _. or_set (slot log b) s ne;
  }
  Move-SlotLocks (grab {a = b} free) held = record {
    of_slot = λ a e _.
        inr (
          ap m.pos_locks (ap (λ t. t % 2 ^ log) (sym e) ∙ sym (slot_is log le inv small b)) ∙ free);
    now = λ a e _.
        or_here (slot log b) (a % 2 ^ log) (slot_is log le inv small b ∙ ap (λ t. t % 2 ^ log) e);
    kept = λ s ne _. or_set (slot log b) s ne;
  }
  Move-SlotLocks (unlock {a = b}) held = record {
    of_slot = λ a e i. cc i;
    now = λ a e i. cc i;
    kept = λ s ne apart e. ne (
        sym (
          update_ne m.pos_locks (slot log b) s 0
            (λ same. apart b refl refl (sym (slot_is log le inv small b) ∙ same)))
        ∙ e);
  }
  Move-SlotLocks {p} {p'} mv held = record {
    of_slot = λ a e i. inl (e, refl);
    now = λ a e i. held a e refl;
    kept = λ s ne _. ne;
  }
