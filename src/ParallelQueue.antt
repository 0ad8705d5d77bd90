-- ===== src/ParallelQueue.antt =====
-- bam/include/nvm_parallel_queue.h, `sq_enqueue`: GPU threads that put commands into one submission
-- queue without a common lock, and the advance of the queue's head in `move_head_cq`. Every shared
-- access is one step; a thread is where it stands in the code, with its live locals.
pub mod Rounds
pub mod Invariant
pub mod Safety
use generic_asynchronous_io.Prelude.{
  ℕ, ◌+◌, ◌-◌, ◌*◌, ◌/◌, ◌^◌, ◌%◌, ◌≤◌, ◌<◌, ◌≡◌, ◌≢◌, bit_and, bit_or, u32, ◌>>>◌, update,
}
use generic_asynchronous_io.Command.{NvmCmd}

abbrev pub locked : ℕ
locked = 1

abbrev pub unlocked : ℕ
unlocked = 0

-- `x & qs_minus_1` in a queue of `2 ^ log` slots
unfoldable pub slot : ℕ → ℕ → ℕ
slot log x = bit_and x (2 ^ log - 1)

-- `get_id`
unfoldable pub get_id : ℕ → ℕ → ℕ
get_id x y = (x >>> y) * 2

-- The part of `move_head_cq` that gives slots back: at rest, or at slot `at` with `count` slots
-- given back, on the way to slot `new_sq_head`, which the controller has reported; then before
-- `sq->head.fetch_add`.
pub data Mover : Type 0 where
  resting : Mover
  passing : (at count new_sq_head : ℕ) → Mover
  adding : (count : ℕ) → Mover

-- The fields of the submission queue's `nvm_queue_t` that `sq_enqueue` and `move_head_cq` share,
-- with the doorbell register. `issued` counts the tickets without wrapping, `posted` is the
-- command that came with each, and `fetched` is how many commands the controller has read.
pub record Shared : Type 0 where
  pub in_ticket : ℕ
  pub head : ℕ
  pub tail : ℕ
  pub tail_lock : ℕ
  pub head_lock : ℕ
  pub tickets : ℕ → ℕ
  pub tail_mark : ℕ → ℕ
  pub entries : ℕ → NvmCmd
  pub db : ℕ
  pub mover : Mover
  pub issued : ℕ
  pub posted : ℕ → NvmCmd
  pub fetched : ℕ

-- Where a thread stands in `sq_enqueue`, and in `move_tail` from `scanning` to `moved`; `t` is its
-- ticket.
pub data Pc : Type 0 where
  outside : Pc
  waiting : (t : ℕ) (cmd : NvmCmd) → Pc  -- the relaxed loop on `tickets[pos]`
  waiting_again : (t : ℕ) (cmd : NvmCmd) → Pc  -- the acquire loop
  copying : (t : ℕ) (cmd : NvmCmd) → Pc
  marking : (t : ℕ) → Pc
  testing : (t : ℕ) → Pc  -- the condition of `while (cont)`
  peeking : (t : ℕ) → Pc  -- the load of `tail_lock`
  grabbing : (t : ℕ) → Pc  -- the `fetch_or` on `tail_lock`
  holding : (t : ℕ) → Pc  -- the load of `tail`
  scanning : (t cur_tail count : ℕ) → Pc  -- the test against `head`
  taking : (t cur_tail count : ℕ) → Pc  -- the exchange on `tail_mark`
  moved : (t cur_tail count : ℕ) → Pc  -- the `fetch_add` on `head_lock`
  ringing : (t cur_tail count : ℕ) → Pc
  storing : (t cur_tail count : ℕ) → Pc
  releasing : (t : ℕ) → Pc
  finishing : (t : ℕ) → Pc  -- the last `fetch_add` on `tickets[pos]`

module _ (log : ℕ) where
  -- One step of one thread.
  pub data Move (m : Shared) : Pc → Shared → Pc → Type 0 where
    enter :
        (cmd : NvmCmd)
        → Move m outside
            (record m {
              in_ticket = u32 (m.in_ticket + 1);
              issued = m.issued + 1;
              posted = update m.posted m.issued cmd;
            })
            (waiting m.in_ticket cmd)
    wait :
        {t : ℕ} {cmd : NvmCmd}
        → m.tickets (slot log t) ≢ get_id t log
        → Move m (waiting t cmd) m (waiting t cmd)
    seen :
        {t : ℕ} {cmd : NvmCmd}
        → m.tickets (slot log t) ≡ get_id t log
        → Move m (waiting t cmd) m (waiting_again t cmd)
    wait_again :
        {t : ℕ} {cmd : NvmCmd}
        → m.tickets (slot log t) ≢ get_id t log
        → Move m (waiting_again t cmd) m (waiting_again t cmd)
    pass :
        {t : ℕ} {cmd : NvmCmd}
        → m.tickets (slot log t) ≡ get_id t log
        → Move m (waiting_again t cmd) m (copying t cmd)
    copy :
        {t : ℕ} {cmd : NvmCmd}
        → Move m
            (copying t cmd)
            (record m { entries = update m.entries (slot log t) cmd })
            (marking t)
    mark :
        {t : ℕ}
        → Move m
            (marking t)
            (record m { tail_mark = update m.tail_mark (slot log t) locked })
            (testing t)
    again : {t : ℕ} → m.tail_mark (slot log t) ≡ locked → Move m (testing t) m (peeking t)
    gone : {t : ℕ} → m.tail_mark (slot log t) ≢ locked → Move m (testing t) m (finishing t)
    busy : {t : ℕ} → m.tail_lock ≡ locked → Move m (peeking t) m (testing t)
    free : {t : ℕ} → m.tail_lock ≢ locked → Move m (peeking t) m (grabbing t)
    lost :
        {t : ℕ}
        → m.tail_lock ≡ locked
        → Move m (grabbing t) (record m { tail_lock = bit_or m.tail_lock locked }) (testing t)
    won :
        {t : ℕ}
        → m.tail_lock ≢ locked
        → Move m (grabbing t) (record m { tail_lock = bit_or m.tail_lock locked }) (holding t)
    load : {t : ℕ} → Move m (holding t) m (scanning t m.tail 0)
    room :
        {t cur c : ℕ}
        → slot log (u32 (cur + c + 1)) ≢ slot log m.head
        → Move m (scanning t cur c) m (taking t cur c)
    full :
        {t cur c : ℕ}
        → slot log (u32 (cur + c + 1)) ≡ slot log m.head
        → Move m (scanning t cur c) m (moved t cur c)
    take :
        {t cur c : ℕ}
        → m.tail_mark (slot log (u32 (cur + c))) ≡ locked
        → Move m
            (taking t cur c)
            (record m { tail_mark = update m.tail_mark (slot log (u32 (cur + c))) unlocked })
            (scanning t cur (c + 1))
    stop :
        {t cur c : ℕ}
        → m.tail_mark (slot log (u32 (cur + c))) ≢ locked
        → Move m
            (taking t cur c)
            (record m { tail_mark = update m.tail_mark (slot log (u32 (cur + c))) unlocked })
            (moved t cur c)
    nothing :
        {t cur c : ℕ}
        → c ≡ 0
        → Move m (moved t cur c) (record m { head_lock = u32 (m.head_lock + 1) }) (releasing t)
    some_moved :
        {t cur c : ℕ}
        → c ≢ 0
        → Move m (moved t cur c) (record m { head_lock = u32 (m.head_lock + 1) }) (ringing t cur c)
    ring :
        {t cur c : ℕ}
        → Move m (ringing t cur c) (record m { db = slot log (u32 (cur + c)) }) (storing t cur c)
    store :
        {t cur c : ℕ} → Move m (storing t cur c) (record m { tail = u32 (cur + c) }) (releasing t)
    release : {t : ℕ} → Move m (releasing t) (record m { tail_lock = unlocked }) (testing t)
    leave :
        {t : ℕ}
        → Move m
            (finishing t)
            (record m {
              tickets = update m.tickets (slot log t) (u32 (m.tickets (slot log t) + 1));
            })
            outside

  -- One step of `move_head_cq`, which a thread runs under the lock of the completion queue, or of
  -- the controller.
  pub data Device (m : Shared) : Shared → Type 0 where
    -- The completion entry reports that the controller is at command `g`.
    report :
        (g : ℕ)
        → m.mover ≡ resting
        → m.head ≤ g
        → g ≤ m.fetched
        → Device m (record m { mover = passing (slot log m.head) 0 (slot log g) })
    give_back :
        {at c new : ℕ}
        → m.mover ≡ passing at c new
        → at ≢ new
        → Device m (record m {
          tickets = update m.tickets at (u32 (m.tickets at + 1));
          mover = passing (slot log (at + 1)) (c + 1) new;
        })
    arrived :
        {at c new : ℕ}
        → m.mover ≡ passing at c new
        → at ≡ new
        → Device m (record m { mover = adding c })
    add :
        {c : ℕ}
        → m.mover ≡ adding c
        → Device m (record m { head = u32 (m.head + c); mover = resting })
    -- The controller reads the next command while its own head differs from the doorbell.
    fetch : m.fetched % 2 ^ log ≢ m.db → Device m (record m { fetched = m.fetched + 1 })

-- The threads are numbered; any number of them may be inside.
pub record System : Type 0 where
  pub mem : Shared
  pub pc : ℕ → Pc

pub data Step (log : ℕ) (s : System) : System → Type 0 where
  thread :
      (i : ℕ) {m : Shared} {p : Pc}
      → Move log s.mem (s.pc i) m p
      → Step log s (record { mem = m; pc = update s.pc i p })
  device : {m : Shared} → Device log s.mem m → Step log s (record s { mem = m })

-- A queue as `nvm_queue_clear` and `init_gpu_specific_struct` leave it.
abbrev pub cleared : NvmCmd → Shared
cleared blank = record {
  in_ticket = 0;
  head = 0;
  tail = 0;
  tail_lock = unlocked;
  head_lock = 0;
  tickets = λ _. 0;
  tail_mark = λ _. unlocked;
  entries = λ _. blank;
  db = 0;
  mover = resting;
  issued = 0;
  posted = λ _. blank;
  fetched = 0;
}

abbrev pub initial : NvmCmd → System
initial blank = record { mem = cleared blank; pc = λ _. outside }

pub data Reach (log : ℕ) (blank : NvmCmd) : System → Type 0 where
  start : Reach log blank (initial blank)
  later : {s t : System} → Reach log blank s → Step log s t → Reach log blank t
