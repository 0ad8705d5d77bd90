-- ===== src/ParallelQueue/Invariant/Facts.antt =====
-- Consequences of the invariant at one state.
use native.Mathlib.Nat.{one-le-pow, mod-lt, add-mod_right}
use generic_asynchronous_io.Prelude.{
  ℕ, ◌+◌, ◌*◌, ◌/◌, ◌%◌, ◌^◌, ◌≤◌, ◌<◌, ◌≡◌, ◌≢◌, inl, inr, false, some, refl, arith, ◌∙◌, sym, ap,
  u32, bit_or, bit_or_bit, dec_lt,
}
use generic_asynchronous_io.ParallelQueue.{Shared, Pc, slot, get_id}
use generic_asynchronous_io.ParallelQueue.Rounds.{
  slot-eq, rounds, rounds_at, rounds_mono, rounds_before,
}
use generic_asynchronous_io.ParallelQueue.Invariant.Defs.{
  ticket, has_marked, Ghost, Early, Scan, passed, Inv,
}
use generic_asynchronous_io.ParallelQueue.Invariant.Frame.{same_ticket, marked-Late}

pub or_locked : (x : ℕ) → bit_or x 1 ≡ x / 2 * 2 + 1
or_locked x = omega (arith, bit_or_bit 0 x)

pub get_id_lem : (t log : ℕ) → get_id t log ≡ t / 2 ^ log * 2
unfolding get_id
get_id_lem t log = refl

pub size_pos : (log : ℕ) → 0 < 2 ^ log
size_pos log = one-le-pow log 2 (omega arith)

pub below_size : (log t : ℕ) → t % 2 ^ log < 2 ^ log
below_size log t = mod-lt t (size_pos log)

module _ (log : ℕ) {g : Ghost} {m : Shared} {pc : ℕ → Pc} (inv : Inv (2 ^ log) g m pc) where
  open inv use {
    few, ticks, marks, marker, only_issued, in_turn, unique, range, given_fetched, fetched_rung,
    rung_scanned, fits, local,
  }

  pub scanned_issued : g.scanned ≤ m.issued
  scanned_issued = elim (dec_lt m.issued g.scanned) [
    | yes more ↦ absurd (
        omega (
          arith,
          rounds_before (2 ^ log) (size_pos log) m.issued g.scanned more,
          rounds_at (2 ^ log) (size_pos log) m.issued,
          marks (m.issued % (2 ^ log)) (below_size log m.issued),
          only_issued (m.issued % (2 ^ log)) (below_size log m.issued),
        ))
    | no less ↦ omega arith
  ]

  pub at_scanned :
      {t cur c : ℕ} → Scan (2 ^ log) g m t cur c → slot log (u32 (cur + c)) ≡ g.scanned % (2 ^ log)
  at_scanned {t} {cur} {c} s =
      slot-eq log (u32 (cur + c))
      ∙ ap (λ t. t % (2 ^ log)) (omega (arith, s.counted, scanned_issued, few))

  -- Another thread at the same slot, which shares the slot's turn, has the same ticket.
  pub same_thread :
      (i j t s : ℕ)
      → ticket (pc i) ≡ some t
      → ticket (pc j) ≡ some s
      → t % (2 ^ log) ≡ s % (2 ^ log)
      → t / (2 ^ log) ≡ s / (2 ^ log)
      → i ≡ j
  same_thread i j t s e f a b = unique i j t e (f ∙ ap some (sym (same_ticket (2 ^ log) t s a b)))

  pub has_room :
      {t cur c : ℕ}
      → Scan (2 ^ log) g m t cur c
      → slot log (u32 (cur + c + 1)) ≢ slot log m.head
      → g.scanned + 1 < m.head + (2 ^ log)
  has_room {t} {cur} {c} s ne = elim (dec_lt (g.scanned + 1) (m.head + (2 ^ log))) [
    | yes room ↦ room
    | no full ↦ absurd (
        ne (
          slot-eq log (u32 (cur + c + 1))
          ∙ ap (λ t. t % (2 ^ log)) {y = m.head + (2 ^ log)}
              (omega (arith, s.counted, scanned_issued, few, fits))
          ∙ add-mod_right m.head (2 ^ log)
          ∙ sym (slot-eq log m.head)))
  ]

  -- The slot's ticket counter shows the thread's id only when it is the thread's turn.
  pub turn_comes :
      (i t : ℕ)
      → ticket (pc i) ≡ some t
      → has_marked (pc i) ≡ false
      → m.tickets (slot log t) ≡ get_id t log
      → Early (2 ^ log) g m t
  turn_comes i t e un shown = elim (marker (t % (2 ^ log)) (below_size log t)) [
    | inl same ↦ record {
      turn = omega (arith, counts, behind, kept, above, same);
      unmarked = omega (arith, counts, behind, kept, above, same);
      back = omega (arith, counts, behind, kept, above, same);
    }
    | inr (j, s, f, h, at, ahead) ↦
        let late = marked-Late (pc j) s (local j) h f in
        let turn : g.ended (t % (2 ^ log)) ≡ s / (2 ^ log) = rw (sym at) late.turn in
        let is_j : i ≡ j =
          same_thread i j t s e f (sym at)
            (omega (arith, counts, behind, kept, above, ahead, turn)) in
        absurd (cc (ap (λ k. has_marked (pc k)) is_j))
  ]
    where
      counts :
          g.ended (t % (2 ^ log)) + rounds (2 ^ log) (t % (2 ^ log)) (passed m) ≡ t / (2 ^ log) * 2
      counts =
          sym (ticks (t % (2 ^ log)) (below_size log t))
          ∙ ap m.tickets (sym (slot-eq log t))
          ∙ shown
          ∙ get_id_lem t log

      behind : g.ended (t % (2 ^ log)) ≤ t / (2 ^ log)
      behind = (range i t e).1

      above :
          rounds (2 ^ log) (t % (2 ^ log)) (passed m) ≤ rounds (2 ^ log) (t % (2 ^ log)) g.scanned
      above =
          rounds_mono (2 ^ log) (size_pos log) (t % (2 ^ log)) (passed m) g.scanned
            (omega (arith, given_fetched, fetched_rung, rung_scanned))

      kept : rounds (2 ^ log) (t % (2 ^ log)) g.scanned ≤ g.marked (t % (2 ^ log))
      kept = omega (arith, marks (t % (2 ^ log)) (below_size log t))

  -- The slot of a thread that has not marked it is not locked.
  pub Early-unlocked : (t : ℕ) → Early (2 ^ log) g m t → m.tail_mark (t % (2 ^ log)) ≡ 0
  Early-unlocked t early = omega (
    arith,
    early.unmarked,
    early.back,
    marks (t % (2 ^ log)) (below_size log t),
    rounds_mono (2 ^ log) (size_pos log) (t % (2 ^ log)) (passed m) g.scanned
        (omega (arith, given_fetched, fetched_rung, rung_scanned)),
  )

  pub mark_bit : (p : ℕ) → p < (2 ^ log) → m.tail_mark p ≤ 1
  mark_bit p lt = omega (
    arith,
    marks p lt,
    in_turn p lt,
    rounds_mono (2 ^ log) (size_pos log) p (passed m) g.scanned
        (omega (arith, given_fetched, fetched_rung, rung_scanned)),
  )
