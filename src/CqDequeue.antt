-- ===== src/CqDequeue.antt =====
-- bam/include/nvm_parallel_queue.h, `cq_dequeue`: GPU threads that take completion entries off one
-- completion queue without a common lock. Every shared access is one step; what `move_head_cq`
-- gives back to the submission queue is in ParallelQueue.
pub mod Defs
pub mod Moves
pub mod Threads
pub mod Slots
pub mod Invariant
pub mod Reachable
pub mod Safety
use generic_asynchronous_io.Prelude.{
  ℕ, ◌+◌, ◌-◌, ◌^◌, ◌%◌, ◌≤◌, ◌<◌, ◌≡◌, ◌≢◌, Bool, true, false, bit_or, u32, update,
}
use generic_asynchronous_io.Poll.{place}
use generic_asynchronous_io.CqHead.{head_passed, locked, unlocked}

-- The fields of the completion queue's `nvm_queue_t` that threads share, with the doorbell
-- register; then what has happened: how many entries the controller has posted and how many slots
-- the doorbell has given back, which entries a thread has found and has marked, and from which one
-- on the exchanges of `move_head_cq` have to go on.
pub record Shared : Type 0 where
  pub head : ℕ
  pub tail : ℕ
  pub head_lock : ℕ
  pub head_mark : ℕ → ℕ
  pub pos_locks : ℕ → ℕ
  pub db : ℕ
  pub posted : ℕ
  pub rung : ℕ
  pub found : ℕ → Bool
  pub marked : ℕ → Bool
  pub front : ℕ

-- Where a thread stands; `loc` is the number of its entry and `old_head` the head that the poll
-- saw, `loc_` and `cur_head_` in the source.
pub data Pc : Type 0 where
  outside : Pc
  waiting : (loc old_head : ℕ) → Pc  -- the loads of `pos_locks[pos]`
  grabbing : (loc old_head : ℕ) → Pc  -- the `fetch_or` on it
  marking : (loc old_head : ℕ) → Pc
  testing : (loc old_head : ℕ) → Pc  -- the condition of `while (cont)`
  locking : (loc old_head : ℕ) → Pc  -- the `fetch_or` on `head_lock`
  loading : (loc old_head : ℕ) → Pc  -- the load of `head`
  scanning : (loc old_head cur_head count : ℕ) → Pc  -- the exchange in `move_head_cq`
  moved : (loc old_head cur_head count : ℕ) → Pc  -- `if (head_move_count)`
  storing : (loc old_head cur_head count : ℕ) → Pc  -- the store of `head`
  releasing : (loc old_head : ℕ) → Pc  -- the store to `head_lock`
  finishing : (loc old_head : ℕ) → Pc  -- the last loop
  unlocking : (loc old_head : ℕ) → Pc  -- the store to `pos_locks[pos]`

-- `pos`, and the slot of the exchange
abbrev pub slot : ℕ → ℕ → ℕ
slot log loc = place log (u32 loc)

module _ (log : ℕ) where
  pub data Move (m : Shared) : Pc → Shared → Pc → Type 0 where
    -- A thread has found the completion of its own command, which no other looks for; then
    -- `cq->tail.fetch_add`.
    enter :
        (loc old_head : ℕ)
        → old_head ≤ m.head
        → old_head ≤ loc
        → loc < m.posted
        → m.found loc ≡ false
        → Move m outside
            (record m { tail = u32 (m.tail + 1); found = update m.found loc true })
            (waiting loc old_head)
    wait : {a h : ℕ} → m.pos_locks (slot log a) ≢ 0 → Move m (waiting a h) m (waiting a h)
    seen : {a h : ℕ} → m.pos_locks (slot log a) ≡ 0 → Move m (waiting a h) m (grabbing a h)
    wait_again :
        {a h : ℕ}
        → m.pos_locks (slot log a) ≢ 0
        → Move m
            (grabbing a h)
            (record m {
              pos_locks = update m.pos_locks (slot log a) (bit_or (m.pos_locks (slot log a)) 1);
            })
            (grabbing a h)
    grab :
        {a h : ℕ}
        → m.pos_locks (slot log a) ≡ 0
        → Move m
            (grabbing a h)
            (record m {
              pos_locks = update m.pos_locks (slot log a) (bit_or (m.pos_locks (slot log a)) 1);
            })
            (marking a h)
    mark :
        {a h : ℕ}
        → Move m
            (marking a h)
            (record m {
              head_mark = update m.head_mark (slot log a) locked;
              marked = update m.marked a true;
            })
            (testing a h)
    again : {a h : ℕ} → m.head_mark (slot log a) ≡ locked → Move m (testing a h) m (locking a h)
    gone : {a h : ℕ} → m.head_mark (slot log a) ≢ locked → Move m (testing a h) m (finishing a h)
    lost :
        {a h : ℕ}
        → m.head_lock ≡ locked
        → Move m (locking a h) (record m { head_lock = bit_or m.head_lock locked }) (testing a h)
    won :
        {a h : ℕ}
        → m.head_lock ≢ locked
        → Move m (locking a h) (record m { head_lock = bit_or m.head_lock locked }) (loading a h)
    load : {a h : ℕ} → Move m (loading a h) m (scanning a h m.head 0)
    take :
        {a h cur c : ℕ}
        → m.head_mark (slot log (cur + c)) ≡ locked
        → Move m
            (scanning a h cur c)
            (record m {
              head_mark = update m.head_mark (slot log (cur + c)) unlocked;
              front = m.front + 1;
            })
            (scanning a h cur (c + 1))
    stop :
        {a h cur c : ℕ}
        → m.head_mark (slot log (cur + c)) ≢ locked
        → Move m
            (scanning a h cur c)
            (record m { head_mark = update m.head_mark (slot log (cur + c)) unlocked })
            (moved a h cur c)
    nothing : {a h cur c : ℕ} → c ≡ 0 → Move m (moved a h cur c) m (releasing a h)
    -- The doorbell.
    ring :
        {a h cur c : ℕ}
        → c ≢ 0
        → Move m
            (moved a h cur c)
            (record m { db = slot log (cur + c); rung = m.front })
            (storing a h cur c)
    store :
        {a h cur c : ℕ}
        → Move m (storing a h cur c) (record m { head = u32 (cur + c) }) (releasing a h)
    release : {a h : ℕ} → Move m (releasing a h) (record m { head_lock = unlocked }) (testing a h)
    spin : {a h : ℕ} → head_passed a h m.head ≡ false → Move m (finishing a h) m (finishing a h)
    passed : {a h : ℕ} → head_passed a h m.head ≡ true → Move m (finishing a h) m (unlocking a h)
    unlock :
        {a h : ℕ}
        → Move m
            (unlocking a h)
            (record m { pos_locks = update m.pos_locks (slot log a) 0 })
            outside

-- The threads are numbered; any number of them may be inside.
pub record System : Type 0 where
  pub mem : Shared
  pub pc : ℕ → Pc

pub data Step (log : ℕ) (s : System) : System → Type 0 where
  thread :
      (i : ℕ) {m : Shared} {p : Pc}
      → Move log s.mem (s.pc i) m p
      → Step log s (record { mem = m; pc = update s.pc i p })
  -- The controller posts an entry while the queue, as far as the doorbell tells, has room.
  post :
      (s.mem.posted + 1) % 2 ^ log ≢ s.mem.db
      → Step log s (record s { mem = record s.mem { posted = s.mem.posted + 1 } })

-- A queue as `nvm_queue_clear` and `init_gpu_specific_struct` leave it.
abbrev pub initial : System
initial = record {
  mem = record {
    head = 0;
    tail = 0;
    head_lock = unlocked;
    head_mark = λ _. unlocked;
    pos_locks = λ _. 0;
    db = 0;
    posted = 0;
    rung = 0;
    found = λ _. false;
    marked = λ _. false;
    front = 0;
  };
  pc = λ _. outside;
}

pub data Reach (log : ℕ) : System → Type 0 where
  start : Reach log initial
  later : {s t : System} → Reach log s → Step log s t → Reach log t
