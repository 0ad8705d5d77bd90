-- ===== src/CqDequeue/Moves.antt =====
-- What one step of a thread does to the fields that the threads share.
use generic_asynchronous_io.Prelude.{
  ℕ, ◌+◌, ◌^◌, ◌%◌, ◌≤◌, ◌<◌, ◌≡◌, ◌≢◌, refl, arith, ap, sym, subst, ◌∙◌, true, false, not,
  ℕ_discrete, dec_lt, update, update_self, update_ne, bit_or-one,
}
use generic_asynchronous_io.Completion.Phase.{eq_of_mod-eq}
use generic_asynchronous_io.Poll.Phases.{place_lem}
use generic_asynchronous_io.CqHead.{locked, unlocked}
use generic_asynchronous_io.CqDequeue.{
  Shared, Pc, slot, Move, enter, mark, lost, won, take, stop, ring, store, release,
}
use generic_asynchronous_io.CqDequeue.Defs.{Entry, before, Nums, Inv}

module _ (log : ℕ) (le : log ≤ 32) {m : Shared} {pc : ℕ → Pc} (inv : Inv log m pc)
    (small : m.posted < 2 ^ 31) where
  pub slot_is : (a : ℕ) → slot log a ≡ a % 2 ^ log
  slot_is a = place_lem log a le

  -- The mark at the slot of `front` is that of the entry `front`.
  front_marked :
      m.head_mark (slot log m.front) ≡ locked → (m.front < m.posted) × (m.marked m.front ≡ true)
  front_marked e =
      let (a, at, least, less, is) = inv.of_mark (slot log m.front) e in
      let same : a ≡ m.front =
        eq_of_mod-eq (2 ^ log) a m.front (at ∙ slot_is m.front)
          (omega (arith, less, inv.room, inv.rung-le))
          (omega (arith, least, inv.room, inv.rung-le, inv.front-le, less)) in
      (omega (arith, same, less), subst (λ t. m.marked t ≡ true) same is)

  -- The exchange is at the slot of `front`.
  at_front : (cur c : ℕ) → m.front ≡ cur + c → slot log (cur + c) ≡ slot log m.front
  at_front cur c e = ap (slot log) (sym e)

  pub record Order (m' : Shared) : Type 0 where
    pub head-le : m'.head ≤ m'.rung
    pub rung-le : m'.rung ≤ m'.front
    pub front-le : m'.front ≤ m'.posted
    pub room : m'.posted < m'.rung + 2 ^ log
    pub doorbell : m'.db ≡ m'.rung % 2 ^ log
    pub lock_bit : m'.head_lock ≤ 1

  pub Move-Order : {p p' : Pc} {m' : Shared} → Move log m p m' p' → Nums m p → Order m'
  Move-Order (take {a} {h} {cur} {c} e) n =
      let (less, _) = front_marked (ap m.head_mark (sym (at_front cur c n.3)) ∙ e) in
      record {
        head-le = inv.head-le;
        rung-le = omega (arith, inv.rung-le);
        front-le = omega (arith, less);
        room = inv.room;
        doorbell = inv.doorbell;
        lock_bit = inv.lock_bit;
      }
  Move-Order (ring {a} {h} {cur} {c} _) n = record {
    head-le = omega (arith, inv.head-le, inv.rung-le);
    rung-le = omega arith;
    front-le = inv.front-le;
    room = omega (arith, inv.room, inv.rung-le);
    doorbell = slot_is (cur + c) ∙ ap (λ t. t % 2 ^ log) (sym n.3);
    lock_bit = inv.lock_bit;
  }
  Move-Order (store {a} {h} {cur} {c}) n = record {
    head-le = omega (arith, n.3, n.4, inv.front-le, small);
    rung-le = inv.rung-le;
    front-le = inv.front-le;
    room = inv.room;
    doorbell = inv.doorbell;
    lock_bit = inv.lock_bit;
  }
  Move-Order (lost _) n = record {
    head-le = inv.head-le;
    rung-le = inv.rung-le;
    front-le = inv.front-le;
    room = inv.room;
    doorbell = inv.doorbell;
    lock_bit = omega (arith, bit_or-one m.head_lock, inv.lock_bit);
  }
  Move-Order (won _) n = record {
    head-le = inv.head-le;
    rung-le = inv.rung-le;
    front-le = inv.front-le;
    room = inv.room;
    doorbell = inv.doorbell;
    lock_bit = omega (arith, bit_or-one m.head_lock, inv.lock_bit);
  }
  Move-Order release n = record {
    head-le = inv.head-le;
    rung-le = inv.rung-le;
    front-le = inv.front-le;
    room = inv.room;
    doorbell = inv.doorbell;
    lock_bit = omega arith;
  }
  Move-Order mv n = record {
    head-le = inv.head-le;
    rung-le = inv.rung-le;
    front-le = inv.front-le;
    room = inv.room;
    doorbell = inv.doorbell;
    lock_bit = inv.lock_bit;
  }

  pub record Marks (m' : Shared) : Type 0 where
    pub of_mark :
        (s : ℕ)
        → m'.head_mark s ≡ locked
        → (a : ℕ) × (a % 2 ^ log ≡ s) × (m'.front ≤ a) × (a < m'.posted) × (m'.marked a ≡ true)
    pub has_mark : (a : ℕ) → m'.marked a ≡ true → m'.front ≤ a → m'.head_mark (a % 2 ^ log) ≡ locked
    pub passed_marked : (a : ℕ) → a < m'.front → m'.marked a ≡ true
    pub marked_found : (a : ℕ) → m'.marked a ≡ true → m'.found a ≡ true
    pub found_posted : (a : ℕ) → m'.found a ≡ true → a < m'.posted

  pub Move-Marks :
      {p p' : Pc} {m' : Shared}
      → Move log m p m' p'
      → Nums m p
      → ((a : ℕ) → Entry a p → (m.found a ≡ true) × (m.marked a ≡ not (before p)))
      → Marks m'
  Move-Marks (enter b h _ _ less _) n own = record {
    of_mark = inv.of_mark;
    has_mark = inv.has_mark;
    passed_marked = inv.passed_marked;
    marked_found = λ a e. elim (ℕ_discrete b a) [
      | yes same ↦ ap (update m.found b true) (sym same) ∙ update_self m.found b true
      | no ne ↦ update_ne m.found b a true ne ∙ inv.marked_found a e
    ];
    found_posted = λ a e. elim (ℕ_discrete b a) [
      | yes same ↦ omega (arith, same, less)
      | no ne ↦ inv.found_posted a (sym (update_ne m.found b a true ne) ∙ e)
    ];
  }
  Move-Marks (mark {a = b}) n own = record {
    of_mark = λ s e. elim (ℕ_discrete (slot log b) s) [
      | yes same ↦ (
        b,
        sym (slot_is b) ∙ same,
        not_passed,
        inv.found_posted b (own b refl).0,
        update_self m.marked b true,
      )
      | no ne ↦
          let (a, at, least, less, is) =
            inv.of_mark s (sym (update_ne m.head_mark (slot log b) s locked ne) ∙ e) in
          (a, at, least, less, still a is)
    ];
    has_mark = λ a e least. elim (ℕ_discrete (slot log b) (a % 2 ^ log)) [
      | yes same ↦
          ap (update m.head_mark (slot log b) locked) (sym same)
          ∙ update_self m.head_mark (slot log b) locked
      | no ne ↦
          update_ne m.head_mark (slot log b) (a % 2 ^ log) locked ne
          ∙ inv.has_mark a
              (sym (update_ne m.marked b a true (λ e'. ne (slot_is b ∙ ap (λ t. t % 2 ^ log) e')))
                ∙ e)
              least
    ];
    passed_marked = λ a less. still a (inv.passed_marked a less);
    marked_found = λ a e. elim (ℕ_discrete b a) [
      | yes same ↦ subst (λ t. m.found t ≡ true) same (own b refl).0
      | no ne ↦ inv.marked_found a (sym (update_ne m.marked b a true ne) ∙ e)
    ];
    found_posted = inv.found_posted;
  }
    where
      still : (a : ℕ) → m.marked a ≡ true → update m.marked b true a ≡ true
      still a e = elim (ℕ_discrete b a) [
        | yes same ↦ ap (update m.marked b true) (sym same) ∙ update_self m.marked b true
        | no ne ↦ update_ne m.marked b a true ne ∙ e
      ]

      not_passed : m.front ≤ b
      not_passed = elim (dec_lt b m.front) [
        | yes less ↦
            let clash : true ≡ false = sym (inv.passed_marked b less) ∙ (own b refl).1 in
            absurd (cc clash)
        | no least ↦ omega (arith, least)
      ]
  Move-Marks (take {a} {h} {cur} {c} e) n own = record {
    of_mark = λ s k. elim (ℕ_discrete (slot log (cur + c)) s) [
      | yes same ↦ absurd (
          omega (
            arith,
            k,
            ap (update m.head_mark (slot log (cur + c)) unlocked) same,
            update_self m.head_mark (slot log (cur + c)) unlocked,
          ))
      | no ne ↦
          let (b, at, least, less, is) =
            inv.of_mark s (sym (update_ne m.head_mark (slot log (cur + c)) s unlocked ne) ∙ k) in
          let apart : b ≢ m.front =
            λ eq. ne (at_front cur c n.3 ∙ slot_is m.front ∙ ap (λ t. t % 2 ^ log) (sym eq) ∙ at) in
          (b, at, omega (arith, least, apart), less, is)
    ];
    has_mark = λ b is least.
        let other : slot log (cur + c) ≢ b % 2 ^ log = λ eq. omega (
          arith,
          least,
          eq_of_mod-eq (2 ^ log) m.front b (sym (slot_is m.front) ∙ sym (at_front cur c n.3) ∙ eq)
              (omega (arith, least))
              (omega (arith, inv.found_posted b (inv.marked_found b is), inv.room, inv.rung-le)),
        ) in
        update_ne m.head_mark (slot log (cur + c)) (b % 2 ^ log) unlocked other
        ∙ inv.has_mark b is (omega (arith, least));
    passed_marked = λ b less. elim (ℕ_discrete m.front b) [
      | yes eq ↦
          subst (λ t. m.marked t ≡ true) eq
            (front_marked (ap m.head_mark (sym (at_front cur c n.3)) ∙ e)).1
      | no ne ↦ inv.passed_marked b (omega (arith, less, ne))
    ];
    marked_found = inv.marked_found;
    found_posted = inv.found_posted;
  }
  Move-Marks (stop {a} {h} {cur} {c} open_mark) n own = record {
    of_mark = λ s k. elim (ℕ_discrete (slot log (cur + c)) s) [
      | yes same ↦ absurd (
          omega (
            arith,
            k,
            ap (update m.head_mark (slot log (cur + c)) unlocked) same,
            update_self m.head_mark (slot log (cur + c)) unlocked,
          ))
      | no ne ↦ inv.of_mark s (sym (update_ne m.head_mark (slot log (cur + c)) s unlocked ne) ∙ k)
    ];
    has_mark = λ b is least.
        update_ne m.head_mark (slot log (cur + c)) (b % 2 ^ log) unlocked
          (λ eq. open_mark (ap m.head_mark eq ∙ inv.has_mark b is least))
        ∙ inv.has_mark b is least;
    passed_marked = inv.passed_marked;
    marked_found = inv.marked_found;
    found_posted = inv.found_posted;
  }
  Move-Marks mv n own = record {
    of_mark = inv.of_mark;
    has_mark = inv.has_mark;
    passed_marked = inv.passed_marked;
    marked_found = inv.marked_found;
    found_posted = inv.found_posted;
  }
