-- ===== src/CqDequeue/Defs.antt =====
-- What holds of the queue and of each thread between any two steps.
use generic_asynchronous_io.Prelude.{ℕ, ◌+◌, ◌^◌, ◌%◌, ◌≤◌, ◌<◌, ◌≡◌, ◌≢◌, Bool, true, false, not}
use generic_asynchronous_io.CqHead.{locked}
use generic_asynchronous_io.CqDequeue.{
  Shared, Pc, outside, waiting, grabbing, marking, testing, locking, loading, scanning, moved,
  storing, releasing, finishing, unlocking,
}

-- The entry of a thread.
abbrev pub Entry : ℕ → Pc → Type 0
Entry a outside = ⊥
Entry a (waiting b _) = b ≡ a
Entry a (grabbing b _) = b ≡ a
Entry a (marking b _) = b ≡ a
Entry a (testing b _) = b ≡ a
Entry a (locking b _) = b ≡ a
Entry a (loading b _) = b ≡ a
Entry a (scanning b _ _ _) = b ≡ a
Entry a (moved b _ _ _) = b ≡ a
Entry a (storing b _ _ _) = b ≡ a
Entry a (releasing b _) = b ≡ a
Entry a (finishing b _) = b ≡ a
Entry a (unlocking b _) = b ≡ a

-- It has not marked it yet.
abbrev pub before : Pc → Bool
before (waiting _ _) = true
before (grabbing _ _) = true
before (marking _ _) = true
before _ = false

-- It holds the lock of the slot of its entry.
abbrev pub in_slot : Pc → Bool
in_slot outside = false
in_slot (waiting _ _) = false
in_slot (grabbing _ _) = false
in_slot _ = true

-- It holds `head_lock`.
abbrev pub has_head : Pc → Bool
has_head (loading _ _) = true
has_head (scanning _ _ _ _) = true
has_head (moved _ _ _ _) = true
has_head (storing _ _ _ _) = true
has_head (releasing _ _) = true
has_head _ = false

-- Where the head, the doorbell and the exchanges stand for it.
abbrev pub Nums : Shared → Pc → Type 0
Nums m outside = Unit {0}
Nums m (waiting a h) = (h ≤ a) × (h ≤ m.head)
Nums m (grabbing a h) = (h ≤ a) × (h ≤ m.head)
Nums m (marking a h) = (h ≤ a) × (h ≤ m.head)
Nums m (testing a h) = (h ≤ a) × (h ≤ m.head)
Nums m (locking a h) = (h ≤ a) × (h ≤ m.head)
Nums m (loading a h) = (h ≤ a) × (h ≤ m.head) × (m.front ≡ m.head) × (m.rung ≡ m.head)
Nums m (scanning a h cur c) =
    (h ≤ a) × (h ≤ m.head) × (cur ≡ m.head) × (m.front ≡ cur + c) × (m.rung ≡ m.head)
Nums m (moved a h cur c) =
    (h ≤ a) × (h ≤ m.head) × (cur ≡ m.head) × (m.front ≡ cur + c) × (m.rung ≡ m.head)
Nums m (storing a h cur c) =
    (h ≤ a) × (h ≤ m.head) × (cur ≡ m.head) × (m.front ≡ cur + c) × (m.rung ≡ m.front)
Nums m (releasing a h) = (h ≤ a) × (h ≤ m.head) × (m.front ≡ m.head) × (m.rung ≡ m.head)
Nums m (finishing a h) = (h ≤ a) × (h ≤ m.head) × (a < m.front)
Nums m (unlocking a h) = a < m.head

pub record Inv (log : ℕ) (m : Shared) (pc : ℕ → Pc) : Type 0 where
  pub head-le : m.head ≤ m.rung
  pub rung-le : m.rung ≤ m.front
  pub front-le : m.front ≤ m.posted
  pub room : m.posted < m.rung + 2 ^ log
  pub doorbell : m.db ≡ m.rung % 2 ^ log
  -- A mark stands for an entry that the exchanges have not come to.
  pub of_mark :
      (s : ℕ)
      → m.head_mark s ≡ locked
      → (a : ℕ) × (a % 2 ^ log ≡ s) × (m.front ≤ a) × (a < m.posted) × (m.marked a ≡ true)
  pub has_mark : (a : ℕ) → m.marked a ≡ true → m.front ≤ a → m.head_mark (a % 2 ^ log) ≡ locked
  pub passed_marked : (a : ℕ) → a < m.front → m.marked a ≡ true
  pub marked_found : (a : ℕ) → m.marked a ≡ true → m.found a ≡ true
  pub found_posted : (a : ℕ) → m.found a ≡ true → a < m.posted
  pub nums : (i : ℕ) → Nums m (pc i)
  pub is_found : (i a : ℕ) → Entry a (pc i) → m.found a ≡ true
  pub is_marked : (i a : ℕ) → Entry a (pc i) → m.marked a ≡ not (before (pc i))
  pub distinct : (i j a : ℕ) → Entry a (pc i) → Entry a (pc j) → i ≡ j
  pub lock_bit : m.head_lock ≤ 1
  pub lock_set : (i : ℕ) → has_head (pc i) ≡ true → m.head_lock ≡ locked
  pub one_head : (i j : ℕ) → has_head (pc i) ≡ true → has_head (pc j) ≡ true → i ≡ j
  pub at_rest : m.head_lock ≢ locked → (m.front ≡ m.head) × (m.rung ≡ m.head)
  pub slot_set : (i a : ℕ) → Entry a (pc i) → in_slot (pc i) ≡ true → m.pos_locks (a % 2 ^ log) ≢ 0
  pub one_slot :
      (i j a b : ℕ)
      → Entry a (pc i)
      → Entry b (pc j)
      → in_slot (pc i) ≡ true
      → in_slot (pc j) ≡ true
      → a % 2 ^ log ≡ b % 2 ^ log
      → i ≡ j
