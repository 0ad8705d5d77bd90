-- ===== src/CqHead.antt =====
-- bam/include/nvm_parallel_queue.h: how `cq_dequeue` moves the head of a completion queue, and
-- the tests by which it and `enqueue_second` of bam/include/page_cache.h see that a head has passed
-- a position.
pub mod Runs
pub mod Passed
use generic_asynchronous_io.Prelude.{
  ℕ, zero, suc, ◌+◌, ◌-◌, ◌*◌, ◌%◌, ◌^◌, Bool, true, false, not, ◌&&◌, ◌||◌, ◌==◌, ltb, leb,
  if◌then◌else◌, update, Option, none, some, u32,
}
use generic_asynchronous_io.Poll.{place}

abbrev pub locked : ℕ
locked = 1

abbrev pub unlocked : ℕ
unlocked = 0

-- The fields of the completion queue that the holder of `head_lock` uses; it has `2 ^ log` entries.
pub record CqMarks : Type 0 where
  pub log : ℕ
  pub head_mark : ℕ → ℕ

-- `(cur_head + count) & qs_minus_1`
unfoldable pub mark_at : (log cur_head count : ℕ) → ℕ
mark_at log cur_head count = place log (u32 (cur_head + count))

-- The loop of `move_head_cq`, for at most `fuel` exchanges: how often it passed, and the marks.
unfoldable pub marks_from : CqMarks → (cur_head count fuel : ℕ) → Option ℕ × CqMarks
unfolding mark_at
marks_from q cur_head count zero = (none, q)
marks_from q cur_head count (suc fuel) =
    let loc = mark_at q.log cur_head count in
    let q1 = record q { head_mark = update q.head_mark loc unlocked } in
    let rest = marks_from q1 cur_head (suc count) fuel in
    if q.head_mark loc == locked then rest else (some count, q1)

-- `move_head_cq`
unfoldable pub move_head_cq : CqMarks → (cur_head fuel : ℕ) → Option ℕ × CqMarks
unfolding marks_from
move_head_cq q cur_head fuel = marks_from q cur_head 0 fuel

-- The last loop of `cq_dequeue`: whether it ends at this head.
unfoldable pub head_passed : (loc cur_head new_head : ℕ) → Bool
head_passed loc cur_head new_head =
    if ltb cur_head new_head
    then leb cur_head loc && ltb loc new_head
    else if ltb new_head cur_head
    then leb cur_head loc || ltb loc new_head
    else false

-- `sec` of `enqueue_second`
unfoldable pub past : (cur_pc_head pc_prev_head pc_pos : ℕ) → Bool
past cur_pc_head pc_prev_head pc_pos =
    (ltb cur_pc_head pc_prev_head && leb pc_prev_head pc_pos)
    || ((leb pc_prev_head pc_pos && ltb pc_pos cur_pc_head)
        || (ltb pc_pos cur_pc_head && ltb cur_pc_head pc_prev_head))
