-- ===== src/ParallelQueue/Invariant/Locals.antt =====
-- A move of thread `i` keeps what the invariant says of each thread.
use generic_asynchronous_io.Prelude.{
  ℕ, ◌+◌, ◌/◌, ◌%◌, ◌^◌, ◌≤◌, ◌≡◌, ◌≢◌, true, some, refl, arith, ◌∙◌, sym, ap, ℕ_discrete, update,
  update_ne, update_self, subst,
}
use generic_asynchronous_io.ParallelQueue.{
  Shared, Pc, slot, get_id, outside, waiting, waiting_again, copying, marking, testing, peeking,
  grabbing, holding, scanning, taking, moved, ringing, storing, releasing, finishing, Move, enter,
  wait, seen, wait_again, pass, copy, mark, again, gone, busy, free, lost, won, load, room, full,
  take, stop, nothing, some_moved, ring, store, release, leave,
}
use generic_asynchronous_io.ParallelQueue.Rounds.{slot-eq}
use generic_asynchronous_io.ParallelQueue.Invariant.Defs.{
  ticket, has_marked, has_lock, Ghost, Early, Late, Local, passed, Inv,
}
use generic_asynchronous_io.ParallelQueue.Invariant.Frame.{Frame-Local}
use generic_asynchronous_io.ParallelQueue.Invariant.Facts.{
  scanned_issued, same_thread, has_room, turn_comes,
}
use generic_asynchronous_io.ParallelQueue.Invariant.Moves.{counting}

module _ (log : ℕ) {g : Ghost} {m : Shared} {pc : ℕ → Pc} (inv : Inv (2 ^ log) g m pc) where
  open inv use {few, counted, range, holds_lock, one_holder, quiet, unique}

  onto :
      (g' : Ghost) (m' : Shared) (t : ℕ)
      → g'.ended (t % 2 ^ log) ≡ g.ended (t % 2 ^ log)
      → g'.marked (t % 2 ^ log) ≡ g.marked (t % 2 ^ log)
      → passed m' ≡ passed m
      → Early (2 ^ log) g m t
      → Early (2 ^ log) g' m' t
  onto g' m' t e k b early = record {
    turn = e ∙ early.turn;
    unmarked = k ∙ early.unmarked;
    back =
        ap (generic_asynchronous_io.ParallelQueue.Rounds.rounds (2 ^ log) (t % 2 ^ log)) b
        ∙ early.back;
  }

  -- What the move establishes for its own thread.
  pub Move-own :
      (i : ℕ) {p p' : Pc} {m' : Shared} (mv : Move log m p m' p')
      → pc i ≡ p
      → Local (2 ^ log) g m p
      → Local (2 ^ log) (counting mv g) m' p'
  Move-own i (enter cmd) here l =
      ap (update m.posted m.issued cmd) counted ∙ update_self m.posted m.issued cmd
  Move-own i (wait _) here l = l
  Move-own i (seen _) here l = l
  Move-own i (wait_again _) here l = l
  Move-own i (pass {t} shown) here l =
      (turn_comes log inv i t (ap ticket here) (ap has_marked here) shown, l)
  Move-own i (copy {t} {cmd}) here l = (
    onto _ _ t refl refl refl l.0,
    ap (update m.entries (slot log t) cmd) (sym (slot-eq log t))
        ∙ update_self m.entries (slot log t) cmd
        ∙ sym l.1,
  )
  Move-own i (mark {t}) here l = record {
    turn = l.0.turn;
    published = update_self g.marked (t % 2 ^ log) (t / 2 ^ log + 1);
  }
  Move-own i (again _) here l = l
  Move-own i (gone _) here l = l
  Move-own i (busy _) here l = l
  Move-own i (free _) here l = l
  Move-own i (lost _) here l = record { turn = l.turn; published = l.published }
  Move-own i (won unlocked_now) here l = (
    record { turn = l.turn; published = l.published },
    quiet (omega (arith, unlocked_now, inv.lock_bit)),
  )
  Move-own i load here l = record { at = l.0; loaded = refl; counted = omega (arith, l.1) }
  Move-own i (room differs) here l = (l, has_room log inv l differs)
  Move-own i (full _) here l = l
  Move-own i (take _) here l = record {
    at = record { turn = l.0.at.turn; published = l.0.at.published };
    loaded = l.0.loaded;
    counted = omega (arith, l.0.counted);
  }
  Move-own i (stop _) here l = record {
    at = record { turn = l.0.at.turn; published = l.0.at.published };
    loaded = l.0.loaded;
    counted = l.0.counted;
  }
  Move-own i (nothing none_moved) here l = (
    record { turn = l.at.turn; published = l.at.published },
    omega (arith, l.counted, l.loaded, none_moved),
  )
  Move-own i (some_moved _) here l = record {
    at = record { turn = l.at.turn; published = l.at.published };
    loaded = l.loaded;
    counted = l.counted;
  }
  Move-own i ring here l = (
    record {
      at = record { turn = l.at.turn; published = l.at.published };
      loaded = l.loaded;
      counted = l.counted;
    },
    refl,
  )
  Move-own i store here l = (
    record { turn = l.0.at.turn; published = l.0.at.published },
    omega (arith, l.0.counted, scanned_issued log inv, few),
  )
  Move-own i release here l = record { turn = l.0.turn; published = l.0.published }
  Move-own i leave here l = tt

  Move-same_post :
      (i j : ℕ) {p p' : Pc} {m' : Shared} (mv : Move log m p m' p')
      → (t : ℕ) → ticket (pc j) ≡ some t
      → m'.posted t ≡ m.posted t
  Move-same_post i j (enter cmd) t e =
      update_ne m.posted m.issued t cmd (λ is_t. omega (arith, is_t, (range j t e).0))
  Move-same_post i j mv t e = refl

  Move-Early :
      (i j : ℕ) {p p' : Pc} {m' : Shared} (mv : Move log m p m' p')
      → pc i ≡ p
      → i ≢ j
      → Local (2 ^ log) g m p
      → (t : ℕ) → ticket (pc j) ≡ some t
      → Early (2 ^ log) g m t
      → Early (2 ^ log) (counting mv g) m' t
  Move-Early i j (mark {t = s}) here apart l t e early =
      onto _ _ t refl
        (update_ne g.marked (s % 2 ^ log) (t % 2 ^ log) (s / 2 ^ log + 1) (λ same. apart (
          same_thread log inv i j s t (ap ticket here) e same
            (sym l.0.turn ∙ ap g.ended same ∙ early.turn))))
        refl early
  Move-Early i j (leave {t = s}) here apart l t e early =
      onto _ _ t
        (update_ne g.ended (s % 2 ^ log) (t % 2 ^ log) (g.ended (s % 2 ^ log) + 1) (λ same. apart (
          same_thread log inv i j s t (ap ticket here) e same
            (sym l.turn ∙ ap g.ended same ∙ early.turn))))
        refl refl early
  Move-Early i j (enter _) here apart l t e early = onto _ _ t refl refl refl early
  Move-Early i j mv here apart l t e early = onto _ _ t refl refl refl early

  Move-Late :
      (i j : ℕ) {p p' : Pc} {m' : Shared} (mv : Move log m p m' p')
      → pc i ≡ p
      → i ≢ j
      → Local (2 ^ log) g m p
      → (t : ℕ) → ticket (pc j) ≡ some t
      → Late (2 ^ log) g m t
      → Late (2 ^ log) (counting mv g) m' t
  Move-Late i j (mark {t = s}) here apart l t e late = record {
    turn = late.turn;
    published =
        update_ne g.marked (s % 2 ^ log) (t % 2 ^ log) (s / 2 ^ log + 1) (λ same. apart (
          same_thread log inv i j s t (ap ticket here) e same
            (sym l.0.turn ∙ ap g.ended same ∙ late.turn)))
        ∙ late.published;
  }
  Move-Late i j (leave {t = s}) here apart l t e late = record {
    turn =
        update_ne g.ended (s % 2 ^ log) (t % 2 ^ log) (g.ended (s % 2 ^ log) + 1) (λ same. apart (
          same_thread log inv i j s t (ap ticket here) e same
            (sym l.turn ∙ ap g.ended same ∙ late.turn)))
        ∙ late.turn;
    published = late.published;
  }
  Move-Late i j (enter _) here apart l t e late = record {
    turn = late.turn;
    published = late.published;
  }
  Move-Late i j mv here apart l t e late = record { turn = late.turn; published = late.published }

  Move-same_entry :
      (i j : ℕ) {p p' : Pc} {m' : Shared} (mv : Move log m p m' p')
      → pc i ≡ p
      → i ≢ j
      → Local (2 ^ log) g m p
      → (t : ℕ) → ticket (pc j) ≡ some t
      → Early (2 ^ log) g m t
      → m'.entries (t % 2 ^ log) ≡ m.entries (t % 2 ^ log)
  Move-same_entry i j (copy {t = s} {cmd}) here apart l t e early =
      update_ne m.entries (slot log s) (t % 2 ^ log) cmd (λ at.
        let same : s % 2 ^ log ≡ t % 2 ^ log = sym (slot-eq log s) ∙ at in
        apart (
          same_thread log inv i j s t (ap ticket here) e same
            (sym l.0.turn ∙ ap g.ended same ∙ early.turn)))
  Move-same_entry i j mv here apart l t e early = refl

  Move-under_lock :
      (i j : ℕ) {p p' : Pc} {m' : Shared} (mv : Move log m p m' p')
      → pc i ≡ p
      → i ≢ j
      → has_lock (pc j) ≡ true
      → (m'.tail ≡ m.tail)
        × ((counting mv g).scanned ≡ g.scanned)
        × ((counting mv g).rung ≡ g.rung)
        × (m.head ≤ m'.head)
  Move-under_lock i j (take _) here apart h = absurd (apart (one_holder i j (ap has_lock here) h))
  Move-under_lock i j ring here apart h = absurd (apart (one_holder i j (ap has_lock here) h))
  Move-under_lock i j store here apart h = absurd (apart (one_holder i j (ap has_lock here) h))
  Move-under_lock i j mv here apart h = (refl, refl, refl, omega arith)

  pub Move-Local :
      (i : ℕ) {p p' : Pc} {m' : Shared} (mv : Move log m p m' p')
      → pc i ≡ p
      → (j : ℕ) → Local (2 ^ log) (counting mv g) m' (update pc i p' j)
  Move-Local i {p} {p'} {m'} mv here j = elim (ℕ_discrete i j) [
    | yes same ↦
        subst (Local (2 ^ log) (counting mv g) m')
          (sym (ap (update pc i p') (sym same) ∙ update_self pc i p')) (Move-own i mv here own)
    | no apart ↦ subst (Local (2 ^ log) (counting mv g) m') (sym (update_ne pc i j p' apart)) (
        Frame-Local (pc j)
          (record {
            same_post = Move-same_post i j mv;
            early = Move-Early i j mv here apart own;
            late = Move-Late i j mv here apart own;
            same_entry = Move-same_entry i j mv here apart own;
            under_lock = Move-under_lock i j mv here apart;
          })
          (inv.local j))
  ]
    where
      own : Local (2 ^ log) g m p
      own = subst (Local (2 ^ log) g m) here (inv.local i)
