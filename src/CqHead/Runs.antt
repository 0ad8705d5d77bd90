-- ===== src/CqHead/Runs.antt =====
-- `move_head_cq` counts the marked entries from the head on and clears their marks.
use native.Mathlib.Nat.{add-mul-mod_self_left, one-le-pow}
use generic_asynchronous_io.Prelude.{
  ℕ, zero, suc, ◌+◌, ◌*◌, ◌%◌, ◌^◌, ◌≤◌, ◌<◌, ◌≡◌, ◌≢◌, sym, ap, ◌∙◌, subst, arith, true, false,
  ◌==◌, if_true, if_false, Bool-cases, inl, inr, Option, some, update, update_self, update_ne,
  ℕ_discrete,
}
use generic_asynchronous_io.Completion.Phase.{eq_of_mod-eq}
use generic_asynchronous_io.Poll.Phases.{place_lem}
use generic_asynchronous_io.CqHead.{CqMarks, locked, unlocked, mark_at, marks_from, move_head_cq}

module _ (log : ℕ) (wide : log ≤ 32) (h : ℕ) where
  at_lem : (i : ℕ) → mark_at log h i ≡ (h + i) % 2 ^ log
  unfolding mark_at
  at_lem i = place_lem log (h + i) wide

  -- Different entries within one round.
  apart : (i j : ℕ) → i < j → j < i + 2 ^ log → mark_at log h i ≢ mark_at log h j
  apart i j lt near e = omega (
    arith,
    lt,
    eq_of_mod-eq (2 ^ log) (h + i) (h + j) (sym (at_lem i) ∙ e ∙ at_lem j) (omega (arith, lt))
        (omega (arith, near)),
  )

  -- The entry after a whole round is the first one again.
  around : mark_at log h (0 + 2 ^ log) ≡ mark_at log h 0
  around =
      at_lem (0 + 2 ^ log)
      ∙ ap (λ t. t % 2 ^ log) {x = h + (0 + 2 ^ log)} {y = h + 2 ^ log * 1} (omega arith)
      ∙ add-mul-mod_self_left h (2 ^ log) 1
      ∙ ap (λ t. t % 2 ^ log) {x = h} {y = h + 0} (omega arith)
      ∙ sym (at_lem 0)

  -- The marks from the entry `i` on that are counted, up to the entry `c`, and the marks after.
  pub record Counted (q q' : ℕ → ℕ) (i c : ℕ) : Type 0 where
    pub least : i ≤ c
    pub most : c ≤ 2 ^ log
    pub were_locked : (j : ℕ) → i ≤ j → j < c → q (mark_at log h j) ≡ locked
    pub not_next : c < 2 ^ log → q (mark_at log h c) ≢ locked
    pub cleared : (j : ℕ) → i ≤ j → j < c → q' (mark_at log h j) ≡ unlocked
    pub kept : (x : ℕ) → ((j : ℕ) → i ≤ j → j ≤ c → mark_at log h j ≢ x) → q' x ≡ q x
    pub still : (x : ℕ) → q x ≡ unlocked → q' x ≡ unlocked

  abbrev queue : (ℕ → ℕ) → CqMarks
  queue m = record { log = log; head_mark = m }

  is_locked : (a : ℕ) → (a == locked) ≡ true → a ≡ locked
  is_locked a e = ground (arith, e)

  not_locked : (a : ℕ) → (a == locked) ≡ false → a ≢ locked
  not_locked a e = λ q. ground (arith, e, q)

  -- One mark more in front of those that are counted.
  further :
      (m m' : ℕ → ℕ) (i c : ℕ)
      → i < 2 ^ log
      → m (mark_at log h i) ≡ locked
      → Counted (update m (mark_at log h i) unlocked) m' (suc i) c
      → Counted m m' i c
  further m m' i c lt is r = record {
    least = omega (arith, r.least);
    most = r.most;
    were_locked = λ j from to. elim (ℕ_discrete i j) [
      | yes e ↦ subst (λ k. m (mark_at log h k) ≡ locked) e is
      | no ne ↦
          sym (
            update_ne m (mark_at log h i) (mark_at log h j) unlocked
              (apart i j (omega (arith, from, ne)) (omega (arith, to, r.most))))
          ∙ r.were_locked j (omega (arith, from, ne)) to
    ];
    not_next = λ inside e. r.not_next inside (
        update_ne m (mark_at log h i) (mark_at log h c) unlocked
          (apart i c (omega (arith, r.least)) (omega (arith, inside)))
        ∙ e);
    cleared = λ j from to. elim (ℕ_discrete i j) [
      | yes e ↦
          subst (λ k. m' (mark_at log h k) ≡ unlocked) e
            (r.still (mark_at log h i) (update_self m (mark_at log h i) unlocked))
      | no ne ↦ r.cleared j (omega (arith, from, ne)) to
    ];
    kept = λ x away.
        r.kept x (λ j from to. away j (omega (arith, from)) to)
        ∙ update_ne m (mark_at log h i) x unlocked (away i (omega arith) (omega (arith, r.least)));
    still = λ x e. r.still x (elim (ℕ_discrete (mark_at log h i) x) [
      | yes here ↦
          ap (update m (mark_at log h i) unlocked) (sym here)
          ∙ update_self m (mark_at log h i) unlocked
      | no there ↦ update_ne m (mark_at log h i) x unlocked there ∙ e
    ]);
  }

  abbrev MarksResult : (ℕ → ℕ) → ℕ → Option ℕ × CqMarks → Type 0
  MarksResult m i r = (c : ℕ) × (m' : ℕ → ℕ) × (r ≡ (some c, queue m')) × Counted m m' i c

  marks_lem :
      (m : ℕ → ℕ) (i fuel : ℕ)
      → i ≤ 2 ^ log
      → 2 ^ log < i + fuel
      → ((j : ℕ) → j < i → m (mark_at log h j) ≡ unlocked)
      → MarksResult m i (marks_from (queue m) h i fuel)
  unfolding marks_from
  marks_lem m i zero le enough before = absurd (omega (arith, le, enough))
  marks_lem m i (suc fuel) le enough before =
      let loc = mark_at log h i in
      let m1 = update m loc unlocked in
      let on = marks_from (queue m1) h (suc i) fuel in
      let off : Option ℕ × CqMarks = (some i, queue m1) in
      elim (Bool-cases (m loc == locked)) [
        | inr other ↦ (
          i,
          m1,
          if_false on off other,
          record {
            least = omega arith;
            most = le;
            were_locked = λ j from to. absurd (omega (arith, from, to));
            not_next = λ _. not_locked (m loc) other;
            cleared = λ j from to. absurd (omega (arith, from, to));
            kept = λ x away. update_ne m loc x unlocked (away i (omega arith) (omega arith));
            still = λ x e. elim (ℕ_discrete loc x) [
              | yes here ↦ ap m1 (sym here) ∙ update_self m loc unlocked
              | no there ↦ update_ne m loc x unlocked there ∙ e
            ];
          },
        )
        | inl one ↦ elim (ℕ_discrete i (2 ^ log)) [
          | yes whole ↦ absurd (
              omega (
                arith,
                is_locked (m loc) one,
                ap m (ap (mark_at log h) {x = i} {y = 0 + 2 ^ log} (omega (arith, whole)) ∙ around),
                before 0 (omega (arith, whole, one-le-pow log 2)),
              ))
          | no less ↦
              let (c, m', e, r) =
                marks_lem m1 (suc i) fuel (omega (arith, le, less)) (omega (arith, enough)) (λ j lt.
                  elim (ℕ_discrete i j) [
                    | yes here ↦
                        ap (λ k. m1 (mark_at log h k)) (sym here) ∙ update_self m loc unlocked
                    | no there ↦
                        update_ne m loc (mark_at log h j) unlocked (λ q.
                          apart j i (omega (arith, lt, there)) (omega (arith, le, less)) (sym q))
                        ∙ before j (omega (arith, lt, there))
                  ]) in
              (
                c,
                m',
                if_true on off one ∙ e,
                further m m' i c (omega (arith, le, less)) (is_locked (m loc) one) r,
              )
        ]
      ]

-- In a queue of `2 ^ log` entries, with more exchanges than entries, `move_head_cq` ends. It
-- returns the number of marked entries from the head on up to the first that is not marked, and
-- the size of the queue where all are; the marks of just these entries are cleared, and all other
-- marks but the one that stopped it are as they were.
pub move_head_cq_lem :
    (q : CqMarks) (cur_head fuel : ℕ)
    → (wide : q.log ≤ 32) → 2 ^ q.log < fuel
    → (c : ℕ) × (m' : ℕ → ℕ) × (move_head_cq q cur_head fuel
        ≡ (some c, record q { head_mark = m' }))
      × Counted q.log wide cur_head q.head_mark m' 0 c
unfolding move_head_cq
move_head_cq_lem q cur_head fuel wide enough =
    marks_lem q.log wide cur_head q.head_mark 0 fuel (omega arith) (omega (arith, enough))
      (λ j lt. absurd (omega (arith, lt)))
