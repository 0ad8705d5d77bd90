-- ===== src/ParallelQueue/Invariant/Moves.antt =====
-- A move keeps what the invariant says of the counters and of each slot.
use generic_asynchronous_io.Prelude.{
  ℕ, ◌+◌, ◌/◌, ◌%◌, ◌^◌, ◌≤◌, ◌<◌, ◌≡◌, some, refl, arith, sym, ap, u32, ℕ_discrete, update,
}
use generic_asynchronous_io.ParallelQueue.{
  Shared, Pc, slot, Move, enter, copy, mark, take, stop, ring, leave,
}
use generic_asynchronous_io.ParallelQueue.Rounds.{
  slot-eq, rounds, rounds_at, rounds_step, rounds_other, rounds_mono, rounds_before, rounds-le,
}
use generic_asynchronous_io.ParallelQueue.Invariant.Defs.{ticket, Ghost, Local, passed, Inv}
use generic_asynchronous_io.ParallelQueue.Invariant.Frame.{same_ticket}
use generic_asynchronous_io.ParallelQueue.Invariant.Facts.{
  size_pos, below_size, scanned_issued, at_scanned, Early-unlocked, mark_bit,
}

-- What the move does to the counters.
abbrev pub counting : {log : ℕ} {m m' : Shared} {p p' : Pc} → Move log m p m' p' → Ghost → Ghost
counting {log} (mark {t}) g = record g { marked = update g.marked (t % 2 ^ log) (t / 2 ^ log + 1) }
counting {log} (leave {t}) g = record g {
  ended = update g.ended (t % 2 ^ log) (g.ended (t % 2 ^ log) + 1);
}
counting (take _) g = record g { scanned = g.scanned + 1 }
counting ring g = record g { rung = g.scanned }
counting _ g = g

module _ (log : ℕ) {g : Ghost} {m : Shared} {pc : ℕ → Pc} (inv : Inv (2 ^ log) g m pc) where
  open inv use {
    few, counted, ticks, marks, marker, only_issued, in_turn, unique, range, content, given_fetched,
    fetched_rung, tail_rung, rung_scanned, fits, doorbell, lock_bit, holds_lock, one_holder, quiet,
  }

  pub Move-counted :
      {p p' : Pc} {m' : Shared} → Move log m p m' p' → m'.issued < 2 ^ 31 → m'.in_ticket ≡ m'.issued
  Move-counted (enter _) small = omega (arith, counted)
  Move-counted mv small = counted

  pub Move-passed : {p p' : Pc} {m' : Shared} → Move log m p m' p' → passed m' ≡ passed m
  Move-passed (enter _) = refl
  Move-passed mv = refl

  pub Move-ticks :
      {p p' : Pc} {m' : Shared} (mv : Move log m p m' p')
      → Local (2 ^ log) g m p
      → ((t : ℕ) → ticket p ≡ some t → t < m.issued)
      → (k : ℕ) → k < 2 ^ log
      → m'.tickets k ≡ (counting mv g).ended k + rounds (2 ^ log) k (passed m')
  Move-ticks (leave {t}) l r k lt = ground (
    arith,
    ticks k lt,
    slot-eq log t,
    l.turn,
    few,
    r t refl,
    rounds-le (2 ^ log) (size_pos log) k (passed m),
    given_fetched,
    fetched_rung,
    rung_scanned,
    scanned_issued log inv,
  )
  Move-ticks mv l r k lt = ticks k lt

  pub Move-marks :
      {p p' : Pc} {m' : Shared} (mv : Move log m p m' p')
      → Local (2 ^ log) g m p
      → (k : ℕ) → k < 2 ^ log
      → m'.tail_mark k + rounds (2 ^ log) k (counting mv g).scanned ≡ (counting mv g).marked k
  Move-marks (mark {t}) l k lt =
      ground (arith, marks k lt, slot-eq log t, Early-unlocked log inv t l.0, l.0.unmarked)
  Move-marks (take taken) l k lt = elim (ℕ_discrete (g.scanned % 2 ^ log) k) [
    | yes here ↦ ground (
      arith,
      marks k lt,
      here,
      taken,
      at_scanned log inv l.0,
      ap (λ t. rounds (2 ^ log) t (g.scanned + 1)) here,
      ap (λ t. rounds (2 ^ log) t g.scanned) here,
      rounds_step (2 ^ log) (size_pos log) g.scanned,
      rounds_at (2 ^ log) (size_pos log) g.scanned,
    )
    | no elsewhere ↦ ground (
      arith,
      marks k lt,
      at_scanned log inv l.0,
      rounds_other (2 ^ log) (size_pos log) k g.scanned elsewhere,
    )
  ]
  Move-marks (stop {t} {cur} {c} unmarked) l k lt = elim (ℕ_discrete (slot log (u32 (cur + c))) k) [
    | yes here ↦
        ground (arith, marks k lt, mark_bit log inv k lt, here, ap m.tail_mark here, unmarked)
    | no elsewhere ↦ ground (arith, marks k lt)
  ]
  Move-marks mv l k lt = marks k lt

  pub Move-in_turn :
      {p p' : Pc} {m' : Shared} (mv : Move log m p m' p')
      → Local (2 ^ log) g m p
      → (k : ℕ) → k < 2 ^ log
      → (counting mv g).marked k ≤ rounds (2 ^ log) k (passed m') + 1
  Move-in_turn (mark {t}) l k lt = ground (arith, in_turn k lt, l.0.back)
  Move-in_turn mv l k lt = in_turn k lt

  pub Move-only_issued :
      {p p' : Pc} {m' : Shared} (mv : Move log m p m' p')
      → ((t : ℕ) → ticket p ≡ some t → t < m.issued)
      → (k : ℕ) → k < 2 ^ log
      → (counting mv g).marked k ≤ rounds (2 ^ log) k m'.issued
  Move-only_issued (mark {t}) r k lt =
      ground (arith, only_issued k lt, rounds_before (2 ^ log) (size_pos log) t m.issued (r t refl))
  Move-only_issued (enter _) r k lt = omega (
    arith,
    only_issued k lt,
    rounds_mono (2 ^ log) (size_pos log) k m.issued (m.issued + 1) (omega arith),
  )
  Move-only_issued mv r k lt = only_issued k lt

  pub Move-content :
      {p p' : Pc} {m' : Shared} (mv : Move log m p m' p')
      → Local (2 ^ log) g m p
      → (a : ℕ) → m'.fetched ≤ a
      → a / 2 ^ log + 1 ≡ (counting mv g).marked (a % 2 ^ log)
      → m'.entries (a % 2 ^ log) ≡ m'.posted a
  Move-content (enter _) l a le e = ground (
    arith,
    content a le e,
    only_issued (a % 2 ^ log) (below_size log a),
    rounds_at (2 ^ log) (size_pos log) a,
  )
  Move-content (copy {t}) l a le e = elim (ℕ_discrete (t % 2 ^ log) (a % 2 ^ log)) [
    | yes same ↦ absurd (
        omega (
          arith,
          l.0.unmarked,
          l.0.back,
          ap g.marked same,
          ap (λ k. rounds (2 ^ log) k (passed m)) same,
          rounds_mono (2 ^ log) (size_pos log) (a % 2 ^ log) (passed m) a
              (omega (arith, given_fetched)),
          rounds_at (2 ^ log) (size_pos log) a,
        ))
    | no other ↦ ground (arith, slot-eq log t, content a le e)
  ]
  Move-content (mark {t}) l a le e = elim (ℕ_discrete (t % 2 ^ log) (a % 2 ^ log)) [
    | yes same ↦
        let is_t : t ≡ a = same_ticket (2 ^ log) t a same (ground (arith, e)) in rw (sym is_t) l.1
    | no other ↦ ground (arith, content a le)
  ]
  Move-content mv l a le e = content a le e
