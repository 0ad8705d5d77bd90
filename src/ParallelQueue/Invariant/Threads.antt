-- ===== src/ParallelQueue/Invariant/Threads.antt =====
-- A move of thread `i` keeps what the invariant says of tickets and of `tail_lock`.
use generic_asynchronous_io.Prelude.{
  ℕ, ◌+◌, ◌/◌, ◌%◌, ◌^◌, ◌≤◌, ◌<◌, ◌≡◌, ◌≢◌, ◌⊎◌, inl, inr, true, some, arith, ◌∙◌, sym, ap,
  ℕ_discrete, update, update_ne,
}
use generic_asynchronous_io.ParallelQueue.{
  Shared, Pc, outside, Move, enter, mark, lost, won, take, ring, store, release, leave,
}
use generic_asynchronous_io.ParallelQueue.Rounds.{rounds, rounds_at}
use generic_asynchronous_io.ParallelQueue.Invariant.Defs.{
  ticket, has_marked, has_lock, Ghost, Local, Marker, passed, Inv,
}
use generic_asynchronous_io.ParallelQueue.Invariant.Frame.{some_inj}
use generic_asynchronous_io.ParallelQueue.Invariant.Facts.{
  size_pos, below_size, scanned_issued, at_scanned, same_thread, or_locked,
}
use generic_asynchronous_io.ParallelQueue.Invariant.Moves.{counting}

module _ (log : ℕ) {g : Ghost} {m : Shared} {pc : ℕ → Pc} (inv : Inv (2 ^ log) g m pc) where
  open inv use {
    few, counted, ticks, marks, marker, only_issued, in_turn, unique, range, content, given_fetched,
    fetched_rung, tail_rung, rung_scanned, fits, doorbell, lock_bit, holds_lock, one_holder, quiet,
  }

  pub Move-Marker :
      (i : ℕ) {p p' : Pc} {m' : Shared} (mv : Move log m p m' p')
      → pc i ≡ p
      → Local (2 ^ log) g m p
      → (k : ℕ) → k < 2 ^ log
      → ((counting mv g).marked k ≡ (counting mv g).ended k)
        ⊎ Marker (2 ^ log) (counting mv g) (update pc i p') k
  Move-Marker i (mark {t}) here l k lt = elim (ℕ_discrete (t % 2 ^ log) k) [
    | yes same ↦ inr (i, t, ground arith, ground arith, same, ground (arith, l.0.turn))
    | no other ↦ elim (marker k lt) [
      | inl level ↦ inl (ground (arith, level))
      | inr (j, s, e, h, at, ahead) ↦
          inr (j, s, ground (arith, here), ground (arith, here), at, ground (arith, ahead))
    ]
  ]
  Move-Marker i (leave {t}) here l k lt = elim (ℕ_discrete (t % 2 ^ log) k) [
    | yes same ↦ inl (ground (arith, l.turn, l.published))
    | no other ↦ elim (marker k lt) [
      | inl level ↦ inl (ground (arith, level))
      | inr (j, s, e, h, at, ahead) ↦
          let stays : i ≢ j = λ is_j. other (
            ap (λ r. r % 2 ^ log)
              (some_inj t s (sym (ap ticket here) ∙ ap (λ r. ticket (pc r)) is_j ∙ e))
            ∙ at) in
          inr (
            j,
            s,
            ap ticket (update_ne pc i j outside stays) ∙ e,
            ap has_marked (update_ne pc i j outside stays) ∙ h,
            at,
            ground (arith, ahead),
          )
    ]
  ]
  Move-Marker i mv here l k lt = elim (marker k lt) [
    | inl level ↦ inl level
    | inr (j, s, e, h, at, ahead) ↦
        inr (j, s, ground (arith, here), ground (arith, here), at, ahead)
  ]

  -- A thread keeps its ticket, or has just drawn the next one.
  pub Move-ticket :
      (i : ℕ) {p p' : Pc} {m' : Shared}
      → Move log m p m' p'
      → pc i ≡ p
      → (j t : ℕ) → ticket (update pc i p' j) ≡ some t
      → (ticket (pc j) ≡ some t) ⊎ ((j ≡ i) × (t ≡ m.issued) × (m'.issued ≡ m.issued + 1))
  Move-ticket i (enter _) here j t e = ground (arith, counted)
  Move-ticket i mv here j t e = ground (arith, here)

  pub Move-unique :
      (i : ℕ) {p p' : Pc} {m' : Shared}
      → Move log m p m' p'
      → pc i ≡ p
      → (a b t : ℕ) → ticket (update pc i p' a) ≡ some t
      → ticket (update pc i p' b) ≡ some t
      → a ≡ b
  Move-unique i mv here a b t ea eb = elim (Move-ticket i mv here a t ea) [
    | inl old ↦ elim (Move-ticket i mv here b t eb) [
      | inl old' ↦ unique a b t old old'
      | inr new ↦ absurd (omega (arith, (range a t old).0, new.1))
    ]
    | inr new ↦ elim (Move-ticket i mv here b t eb) [
      | inl old ↦ absurd (omega (arith, (range b t old).0, new.1))
      | inr new' ↦ new.0 ∙ sym new'.0
    ]
  ]

  pub ended-le : (k : ℕ) → k < 2 ^ log → g.ended k ≤ rounds (2 ^ log) k m.issued
  ended-le k lt = elim (marker k lt) [
    | inl level ↦ omega (arith, level, only_issued k lt)
    | inr (j, s, e, h, at, ahead) ↦ omega (arith, ahead, only_issued k lt)
  ]

  pub Move-range :
      (i : ℕ) {p p' : Pc} {m' : Shared} (mv : Move log m p m' p')
      → pc i ≡ p
      → Local (2 ^ log) g m p
      → (j t : ℕ) → ticket (update pc i p' j) ≡ some t
      → (t < m'.issued) × ((counting mv g).ended (t % 2 ^ log) ≤ t / 2 ^ log)
  Move-range i (enter c) here l j t e = elim (Move-ticket i (enter c) here j t e) [
    | inl old ↦ (omega (arith, (range j t old).0), (range j t old).1)
    | inr new ↦ (
      omega (arith, new.1),
      omega (
        arith,
        ended-le (t % 2 ^ log) (below_size log t),
        rounds_at (2 ^ log) (size_pos log) t,
        ap (rounds (2 ^ log) (t % 2 ^ log)) new.1,
      ),
    )
  ]
  Move-range i (leave {t = s}) here l j t e = elim (Move-ticket i (leave {t = s}) here j t e) [
    | inl old ↦ elim (ℕ_discrete (s % 2 ^ log) (t % 2 ^ log)) [
      | no other ↦ ground (arith, range j t old)
      | yes same ↦ elim (ℕ_discrete (s / 2 ^ log) (t / 2 ^ log)) [
        | no later ↦ ground (arith, range j t old, l.turn, same, ap g.ended same)
        | yes turn ↦
            let is_j : i ≡ j = same_thread log inv i j s t (ap ticket here) old same turn in
            absurd (ground (arith, is_j, e))
      ]
    ]
    | inr new ↦ absurd (ground (arith, new.0, e))
  ]
  Move-range i mv here l j t e = elim (Move-ticket i mv here j t e) [
    | inl old ↦ range j t old
    | inr new ↦ absurd (omega (arith, new.2))
  ]

  pub Move-holds_lock :
      (i : ℕ) {p p' : Pc} {m' : Shared}
      → Move log m p m' p'
      → pc i ≡ p
      → (j : ℕ) → has_lock (update pc i p' j) ≡ true
      → m'.tail_lock ≡ 1
  Move-holds_lock i (lost _) here j h = omega (arith, or_locked m.tail_lock, lock_bit)
  Move-holds_lock i (won _) here j h = omega (arith, or_locked m.tail_lock, lock_bit)
  Move-holds_lock i release here j h = ground (arith, here, one_holder i j)
  Move-holds_lock i mv here j h = ground (arith, here, holds_lock j, holds_lock i)

  pub Move-one_holder :
      (i : ℕ) {p p' : Pc} {m' : Shared}
      → Move log m p m' p'
      → pc i ≡ p
      → (a b : ℕ) → has_lock (update pc i p' a) ≡ true
      → has_lock (update pc i p' b) ≡ true
      → a ≡ b
  Move-one_holder i (won free) here a b ha hb =
      ground (arith, free, here, holds_lock a, holds_lock b)
  Move-one_holder i mv here a b ha hb = ground (arith, here, one_holder a b)

  pub Move-lock_bit : {p p' : Pc} {m' : Shared} → Move log m p m' p' → m'.tail_lock ≤ 1
  Move-lock_bit (lost _) = omega (arith, or_locked m.tail_lock, lock_bit)
  Move-lock_bit (won _) = omega (arith, or_locked m.tail_lock, lock_bit)
  Move-lock_bit release = omega arith
  Move-lock_bit mv = lock_bit

  pub Move-quiet :
      (i : ℕ) {p p' : Pc} {m' : Shared} (mv : Move log m p m' p')
      → pc i ≡ p
      → Local (2 ^ log) g m p
      → m'.tail_lock ≡ 0
      → (counting mv g).scanned ≡ m'.tail
  Move-quiet i (lost _) here l z = omega (arith, or_locked m.tail_lock, z)
  Move-quiet i (won _) here l z = omega (arith, or_locked m.tail_lock, z)
  Move-quiet i release here l z = l.1
  Move-quiet i (take _) here l z = absurd (omega (arith, z, holds_lock i (ap has_lock here)))
  Move-quiet i store here l z = absurd (omega (arith, z, holds_lock i (ap has_lock here)))
  Move-quiet i mv here l z = quiet z

  pub Move-fits :
      {p p' : Pc} {m' : Shared} (mv : Move log m p m' p')
      → Local (2 ^ log) g m p
      → (counting mv g).scanned < m'.head + 2 ^ log
  Move-fits (take _) l = l.1
  Move-fits mv l = fits

  pub Move-doorbell :
      {p p' : Pc} {m' : Shared} (mv : Move log m p m' p')
      → Local (2 ^ log) g m p
      → m'.db ≡ (counting mv g).rung % 2 ^ log
  Move-doorbell ring l = at_scanned log inv l
  Move-doorbell mv l = doorbell

  pub Move-tails :
      {p p' : Pc} {m' : Shared} (mv : Move log m p m' p')
      → Local (2 ^ log) g m p
      → (m'.fetched ≤ (counting mv g).rung)
        × (m'.tail ≤ (counting mv g).rung)
        × ((counting mv g).rung ≤ (counting mv g).scanned)
        × (passed m' ≤ m'.fetched)
  Move-tails (take _) l = (fetched_rung, tail_rung, omega (arith, rung_scanned), given_fetched)
  Move-tails ring l = (
    omega (arith, fetched_rung, rung_scanned),
    omega (arith, tail_rung, rung_scanned),
    omega arith,
    given_fetched,
  )
  Move-tails (store {t} {cur} {c}) l = (
    fetched_rung,
    omega (arith, l.0.counted, l.1, scanned_issued log inv, few),
    rung_scanned,
    given_fetched,
  )
  Move-tails mv l = (fetched_rung, tail_rung, rung_scanned, given_fetched)
