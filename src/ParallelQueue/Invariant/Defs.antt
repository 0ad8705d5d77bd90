-- ===== src/ParallelQueue/Invariant/Defs.antt =====
-- What is true of the queue between any two steps.
use generic_asynchronous_io.Prelude.{
  ℕ, ◌+◌, ◌/◌, ◌%◌, ◌^◌, ◌≤◌, ◌<◌, ◌≡◌, ◌⊎◌, Bool, true, false, Option, none, some,
}
use generic_asynchronous_io.ParallelQueue.{
  Shared, Mover, resting, passing, adding, Pc, outside, waiting, waiting_again, copying, marking,
  testing, peeking, grabbing, holding, scanning, taking, moved, ringing, storing, releasing,
  finishing,
}
use generic_asynchronous_io.ParallelQueue.Rounds.{rounds}

abbrev pub ticket : Pc → Option ℕ
ticket outside = none
ticket (waiting t _) = some t
ticket (waiting_again t _) = some t
ticket (copying t _) = some t
ticket (marking t) = some t
ticket (testing t) = some t
ticket (peeking t) = some t
ticket (grabbing t) = some t
ticket (holding t) = some t
ticket (scanning t _ _) = some t
ticket (taking t _ _) = some t
ticket (moved t _ _) = some t
ticket (ringing t _ _) = some t
ticket (storing t _ _) = some t
ticket (releasing t) = some t
ticket (finishing t) = some t

-- Between the end of the wait for a slot and the last `fetch_add` on its ticket.
abbrev pub owns_slot : Pc → Bool
owns_slot outside = false
owns_slot (waiting _ _) = false
owns_slot (waiting_again _ _) = false
owns_slot _ = true

-- Behind the store to `tail_mark`.
abbrev pub has_marked : Pc → Bool
has_marked outside = false
has_marked (waiting _ _) = false
has_marked (waiting_again _ _) = false
has_marked (copying _ _) = false
has_marked (marking _) = false
has_marked _ = true

-- Under `tail_lock`.
abbrev pub has_lock : Pc → Bool
has_lock (holding _) = true
has_lock (scanning _ _ _) = true
has_lock (taking _ _ _) = true
has_lock (moved _ _ _) = true
has_lock (ringing _ _ _) = true
has_lock (storing _ _ _) = true
has_lock (releasing _) = true
has_lock _ = false

-- Counters that no variable of the program holds. For each slot: how many times an enqueue has
-- ended there (`ended`) and how many commands have been marked there (`marked`). `scanned` is the
-- tail with what `move_tail` has counted, `rung` the last tail that the doorbell was given, both
-- without wrapping, and `goal` the command that `move_head_cq` is going to.
pub record Ghost : Type 0 where
  pub ended : ℕ → ℕ
  pub marked : ℕ → ℕ
  pub scanned : ℕ
  pub rung : ℕ
  pub goal : ℕ

abbrev pub given_back : Mover → ℕ
given_back resting = 0
given_back (passing _ c _) = c
given_back (adding c) = c

-- Up to here `move_head_cq` has given slots back.
abbrev pub passed : Shared → ℕ
passed m = m.head + given_back m.mover

module _ (q : ℕ) (g : Ghost) (m : Shared) where
  -- A thread that owns the slot and has not marked it.
  pub record Early (t : ℕ) : Type 0 where
    pub turn : g.ended (t % q) ≡ t / q
    pub unmarked : g.marked (t % q) ≡ t / q
    pub back : rounds q (t % q) (passed m) ≡ t / q

  pub record Late (t : ℕ) : Type 0 where
    pub turn : g.ended (t % q) ≡ t / q
    pub published : g.marked (t % q) ≡ t / q + 1

  pub record Scan (t cur c : ℕ) : Type 0 where
    pub at : Late t
    pub loaded : cur ≡ m.tail
    pub counted : g.scanned ≡ cur + c

  abbrev pub Local : Pc → Type 0
  Local outside = Unit {0}
  Local (waiting t cmd) = m.posted t ≡ cmd
  Local (waiting_again t cmd) = m.posted t ≡ cmd
  Local (copying t cmd) = Early t × (m.posted t ≡ cmd)
  Local (marking t) = Early t × (m.entries (t % q) ≡ m.posted t)
  Local (holding t) = Late t × (g.scanned ≡ m.tail)
  Local (scanning t cur c) = Scan t cur c
  Local (taking t cur c) = Scan t cur c × (g.scanned + 1 < m.head + q)
  Local (moved t cur c) = Scan t cur c
  Local (ringing t cur c) = Scan t cur c
  Local (storing t cur c) = Scan t cur c × (g.rung ≡ g.scanned)
  Local (releasing t) = Late t × (g.scanned ≡ m.tail)
  Local (testing t) = Late t
  Local (peeking t) = Late t
  Local (grabbing t) = Late t
  Local (finishing t) = Late t

  abbrev pub MoverAt : Mover → Type 0
  MoverAt resting = Unit {0}
  MoverAt (passing at c new) =
      (at ≡ (m.head + c) % q) × (new ≡ g.goal % q) × (m.head + c ≤ g.goal) × (g.goal ≤ m.fetched)
  MoverAt (adding c) = Unit {0}

-- The thread that has marked slot `p` and not ended there.
abbrev pub Marker : ℕ → Ghost → (ℕ → Pc) → ℕ → Type 0
Marker q g pc p =
    (i : ℕ) × (t : ℕ) × (ticket (pc i) ≡ some t)
    × (has_marked (pc i) ≡ true)
    × (t % q ≡ p)
    × (g.marked p ≡ g.ended p + 1)

pub record Inv (q : ℕ) (g : Ghost) (m : Shared) (pc : ℕ → Pc) : Type 0 where
  pub few : m.issued < 2 ^ 31
  pub counted : m.in_ticket ≡ m.issued
  pub ticks : (p : ℕ) → p < q → m.tickets p ≡ g.ended p + rounds q p (passed m)
  pub marks : (p : ℕ) → p < q → m.tail_mark p + rounds q p g.scanned ≡ g.marked p
  pub marker : (p : ℕ) → p < q → (g.marked p ≡ g.ended p) ⊎ Marker q g pc p
  pub in_turn : (p : ℕ) → p < q → g.marked p ≤ rounds q p (passed m) + 1
  pub only_issued : (p : ℕ) → p < q → g.marked p ≤ rounds q p m.issued
  pub unique : (i j t : ℕ) → ticket (pc i) ≡ some t → ticket (pc j) ≡ some t → i ≡ j
  pub range : (i t : ℕ) → ticket (pc i) ≡ some t → (t < m.issued) × (g.ended (t % q) ≤ t / q)
  pub content :
      (a : ℕ) → m.fetched ≤ a → a / q + 1 ≡ g.marked (a % q) → m.entries (a % q) ≡ m.posted a
  pub given_fetched : passed m ≤ m.fetched
  pub fetched_rung : m.fetched ≤ g.rung
  pub tail_rung : m.tail ≤ g.rung
  pub rung_scanned : g.rung ≤ g.scanned
  pub fits : g.scanned < m.head + q
  pub doorbell : m.db ≡ g.rung % q
  pub lock_bit : m.tail_lock ≤ 1
  pub holds_lock : (i : ℕ) → has_lock (pc i) ≡ true → m.tail_lock ≡ 1
  pub one_holder : (i j : ℕ) → has_lock (pc i) ≡ true → has_lock (pc j) ≡ true → i ≡ j
  pub quiet : m.tail_lock ≡ 0 → g.scanned ≡ m.tail
  pub local : (i : ℕ) → Local q g m (pc i)
  pub mover : MoverAt q g m m.mover
