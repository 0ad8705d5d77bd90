-- ===== src/ParallelQueue/Invariant/Reachable.antt =====
-- Every state that the queue can reach satisfies the invariant.
use native.Mathlib.Nat.{zero-mod}
use generic_asynchronous_io.Prelude.{
  ℕ, ◌+◌, ◌%◌, ◌^◌, ◌≤◌, ◌<◌, ◌≡◌, inl, some, refl, arith, sym, ap, ◌∙◌, update, subst,
}
use generic_asynchronous_io.Command.{NvmCmd}
use generic_asynchronous_io.ParallelQueue.{
  Shared, Pc, outside, Mover, resting, passing, adding, Move, enter, Device, report, System, thread,
  device, Reach, start, later, cleared,
}
use generic_asynchronous_io.ParallelQueue.Rounds.{rounds}
use generic_asynchronous_io.ParallelQueue.Invariant.Defs.{
  Ghost, Local, MoverAt, passed, ticket, Inv,
}
use generic_asynchronous_io.ParallelQueue.Invariant.Facts.{size_pos}
use generic_asynchronous_io.ParallelQueue.Invariant.Moves.{
  counting, Move-counted, Move-ticks, Move-marks, Move-in_turn, Move-only_issued, Move-content,
}
use generic_asynchronous_io.ParallelQueue.Invariant.Threads.{
  Move-Marker, Move-unique, Move-range, Move-holds_lock, Move-one_holder, Move-lock_bit, Move-quiet,
  Move-fits, Move-doorbell, Move-tails,
}
use generic_asynchronous_io.ParallelQueue.Invariant.Locals.{Move-Local}
use generic_asynchronous_io.ParallelQueue.Invariant.Devices.{heading, Device-Inv}

Move-issued : {log : ℕ} {m m' : Shared} {p p' : Pc} → Move log m p m' p' → m.issued ≤ m'.issued
Move-issued (enter _) = omega arith
Move-issued mv = omega arith

Device-issued : {log : ℕ} {m m' : Shared} → Device log m m' → m.issued ≤ m'.issued
Device-issued (report goal _ _ _) = omega arith
Device-issued d = omega arith

module _ (log : ℕ) {g : Ghost} {m : Shared} {pc : ℕ → Pc} (inv : Inv (2 ^ log) g m pc) where
  mover_on :
      (k : Mover) (g' : Ghost) (m' : Shared)
      → m'.head ≡ m.head
      → m'.fetched ≡ m.fetched
      → g'.goal ≡ g.goal
      → MoverAt (2 ^ log) g m k
      → MoverAt (2 ^ log) g' m' k
  mover_on resting g' m' h f e w = tt
  mover_on (passing at c new) g' m' h f e w = (
    w.0 ∙ ap (λ t. (t + c) % 2 ^ log) (sym h),
    w.1 ∙ ap (λ t. t % 2 ^ log) (sym e),
    omega (arith, w.2),
    omega (arith, w.3),
  )
  mover_on (adding c) g' m' h f e w = tt

  Move-mover :
      {p p' : Pc} {m' : Shared} (mv : Move log m p m' p')
      → MoverAt (2 ^ log) (counting mv g) m' m'.mover
  Move-mover {m' = m'} (enter cmd) =
      mover_on m.mover (counting {log = log} {m = m} {m' = m'} (enter cmd) g) m' refl refl refl
        inv.mover
  Move-mover {m' = m'} mv = mover_on m.mover (counting mv g) m' refl refl refl inv.mover

  Move-Inv :
      (i : ℕ) {p p' : Pc} {m' : Shared} (mv : Move log m p m' p')
      → pc i ≡ p
      → m'.issued < 2 ^ 31
      → Inv (2 ^ log) (counting mv g) m' (update pc i p')
  Move-Inv i {p} {m' = m'} mv here small = record {
    few = small;
    counted = Move-counted log inv mv small;
    ticks = Move-ticks log inv mv own bound;
    marks = Move-marks log inv mv own;
    marker = Move-Marker log inv i mv here own;
    in_turn = Move-in_turn log inv mv own;
    only_issued = Move-only_issued log inv mv bound;
    unique = Move-unique log inv i mv here;
    range = Move-range log inv i mv here own;
    content = Move-content log inv mv own;
    given_fetched = tails.3;
    fetched_rung = tails.0;
    tail_rung = tails.1;
    rung_scanned = tails.2;
    fits = Move-fits log inv mv own;
    doorbell = Move-doorbell log inv mv own;
    lock_bit = Move-lock_bit log inv mv;
    holds_lock = Move-holds_lock log inv i mv here;
    one_holder = Move-one_holder log inv i mv here;
    quiet = Move-quiet log inv i mv here own;
    local = Move-Local log inv i mv here;
    mover = Move-mover mv;
  }
    where
      own : Local (2 ^ log) g m p
      own = subst (Local (2 ^ log) g m) here (inv.local i)

      bound : (t : ℕ) → ticket p ≡ some t → t < m.issued
      bound t e = (inv.range i t (ap ticket here ∙ e)).0

      tails :
          (m'.fetched ≤ (counting mv g).rung)
          × (m'.tail ≤ (counting mv g).rung)
          × ((counting mv g).rung ≤ (counting mv g).scanned)
          × (passed m' ≤ m'.fetched)
      tails = Move-tails log inv mv own

-- The counters of a cleared queue.
abbrev no_ghost : Ghost
no_ghost = record { ended = λ _. 0; marked = λ _. 0; scanned = 0; rung = 0; goal = 0 }

initial-Inv : (log : ℕ) (blank : NvmCmd) → Inv (2 ^ log) no_ghost (cleared blank) (λ _. outside)
unfolding rounds
initial-Inv log blank = record {
  few = omega arith;
  counted = refl;
  ticks = λ p lt. refl;
  marks = λ p lt. refl;
  marker = λ p lt. inl refl;
  in_turn = λ p lt. omega arith;
  only_issued = λ p lt. omega arith;
  unique = λ i j t e. absurd cc;
  range = λ i t e. absurd cc;
  content = λ a le e. absurd (omega arith);
  given_fetched = omega arith;
  fetched_rung = omega arith;
  tail_rung = omega arith;
  rung_scanned = omega arith;
  fits = omega (arith, size_pos log);
  doorbell = sym (zero-mod (2 ^ log));
  lock_bit = omega arith;
  holds_lock = λ i h. absurd cc;
  one_holder = λ i j h. absurd cc;
  quiet = λ _. refl;
  local = λ i. tt;
  mover = tt;
}

pub Reach-Inv :
    {log : ℕ} {blank : NvmCmd} {s : System}
    → Reach log blank s
    → s.mem.issued < 2 ^ 31
    → (g : Ghost) × Inv (2 ^ log) g s.mem s.pc
Reach-Inv {log} {blank} start small = (no_ghost, initial-Inv log blank)
Reach-Inv {log} (later r (thread i mv)) small =
    let (g, inv) = Reach-Inv r (omega (arith, Move-issued mv, small)) in
    (counting mv g, Move-Inv log inv i mv refl small)
Reach-Inv {log} (later r (device d)) small =
    let (g, inv) = Reach-Inv r (omega (arith, Device-issued d, small)) in
    (heading d g, Device-Inv log inv d)
