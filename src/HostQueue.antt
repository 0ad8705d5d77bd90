-- ===== src/HostQueue.antt =====
-- bam/include/nvm_queue.h: submission and completion queues that one thread drives, as the admin
-- queue pair is.
pub mod Submission
pub mod Completions
pub mod Shared
use generic_asynchronous_io.Prelude.{
  ℕ, ◌+◌, ◌-◌, ◌*◌, ◌%◌, ◌^◌, ltb, leb, ◌==◌, if◌then◌else◌, Bool, true, false, not, ◌&&◌, Option,
  none, some, u16, u32, sub32, bit_and, ◌>>>◌,
}
use generic_asynchronous_io.Command.{read_bits}
use generic_asynchronous_io.Completion.{NvmCpl}

-- The fields of `nvm_queue_t` that these functions use. `db` is the doorbell register: `none` for
-- a null pointer, and otherwise the value that was last written to it.
pub record NvmQueue : Type 0 where
  pub es : ℕ
  pub qs : ℕ
  pub head : ℕ
  pub tail : ℕ
  pub phase : Bool
  pub last : ℕ
  pub db : Option ℕ

abbrev pub is_null : Option ℕ → Bool
is_null none = true
is_null (some _) = false

abbrev pub same_flag : Bool → Bool → Bool
same_flag true b = b
same_flag false b = not b

-- `nvm_sq_enqueue`: the offset of the slot in queue memory, or `none` for NULL.
unfoldable pub sq_enqueue : NvmQueue → Option ℕ × NvmQueue
sq_enqueue sq =
    let cmd = sq.es * sq.tail in
    let tail = u32 (sq.tail + 1) in
    if u16 (sub32 sq.tail sq.head) % sq.qs == sub32 sq.qs 1
    then (none, sq)
    else if tail == sq.qs
    then (some cmd, record sq { tail = 0; phase = not sq.phase })
    else (some cmd, record sq { tail = tail })

-- `nvm_sq_enqueue_n` for thread `i` of `n`; pointers are offsets into queue memory.
unfoldable pub sq_enqueue_n : NvmQueue → Option ℕ → ℕ → ℕ → Option ℕ × NvmQueue
sq_enqueue_n sq previous n i =
    let end = sq.qs * sq.es in
    let cmd : ℕ = elim previous [
      | none ↦ sq.es * i
      | some at ↦ if leb end (at + n * sq.es) then at + n * sq.es - end else at + n * sq.es
    ] in
    let after = if i == 0 then record sq { tail = u32 (sq.tail + n) % sq.qs } else sq in
    if leb sq.qs n then (none, sq) else (some cmd, after)

-- `nvm_cq_poll`: the slot of a ready entry; the status word is the upper half of `dword[3]`.
unfoldable pub cq_poll : NvmQueue → (ℕ → NvmCpl) → Option ℕ
cq_poll cq entries =
    let status = (entries cq.head).dword3 >>> 16 in
    if same_flag (read_bits status 0 0 == 0) (not cq.phase) then some cq.head else none

-- `nvm_cq_dequeue`
unfoldable pub cq_dequeue : NvmQueue → (ℕ → NvmCpl) → Option ℕ × NvmQueue
cq_dequeue cq entries = elim (cq_poll cq entries) [
  | none ↦ (none, cq)
  | some cpl ↦ (
    some cpl,
    if u32 (cq.head + 1) == cq.qs
        then record cq { head = 0; phase = not cq.phase }
        else record cq { head = u32 (cq.head + 1) },
  )
]

-- `nvm_sq_submit`; the flushes of the queue's memory come before the doorbell.
unfoldable pub sq_submit : NvmQueue → NvmQueue
sq_submit sq =
    if not (sq.last == sq.tail) && not (is_null sq.db)
    then record sq { db = some sq.tail; last = sq.tail }
    else sq

-- `nvm_sq_update`
unfoldable pub sq_update : NvmQueue → NvmQueue
sq_update sq =
    let head = u32 (sq.head + 1) in
    if is_null sq.db
    then sq
    else if head == sq.qs
    then record sq { head = 0 }
    else record sq { head = head }

-- `nvm_cq_update`
unfoldable pub cq_update : NvmQueue → NvmQueue
cq_update cq =
    if not (cq.last == cq.head) && not (is_null cq.db)
    then record cq { db = some cq.head; tail = cq.head; last = cq.head }
    else cq
