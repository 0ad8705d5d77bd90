-- ===== src/CqHead/Passed.antt =====
-- Both tests for a head that has passed a position, against one distance on the ring of words.
use generic_asynchronous_io.Prelude.{ℕ, ◌+◌, ◌-◌, ◌%◌, ◌^◌, ◌<◌, ◌≡◌, arith, Bool, ltb}
use generic_asynchronous_io.CqHead.{head_passed, past}

-- A position lies between the old head and the new one, going round after the last word.
abbrev pub between : (width position from to : ℕ) → Bool
between width position from to =
    ltb ((position + width - from) % width) ((to + width - from) % width)

head_passed-between :
    (loc cur_head new_head : ℕ)
    → loc < 2 ^ 32
    → cur_head < 2 ^ 32
    → new_head < 2 ^ 32
    → head_passed loc cur_head new_head ≡ between (2 ^ 32) loc cur_head new_head
unfolding head_passed
head_passed-between loc cur_head new_head h1 h2 h3 = ground arith

past-between :
    (cur_pc_head pc_prev_head pc_pos : ℕ)
    → cur_pc_head < 2 ^ 64
    → pc_prev_head < 2 ^ 64
    → pc_pos < 2 ^ 64
    → past cur_pc_head pc_prev_head pc_pos ≡ between (2 ^ 64) pc_pos pc_prev_head cur_pc_head
unfolding past
past-between cur_pc_head pc_prev_head pc_pos h1 h2 h3 = ground arith

-- For words of 32 bits, the last loop of `cq_dequeue` ends at a new head exactly when the position
-- lies from the old head on and before the new one, where the words may have wrapped round in
-- between; and for words of 64 bits, so does the test of `enqueue_second`.
pub passed_lem :
    (loc cur_head new_head cur_pc_head pc_prev_head pc_pos : ℕ)
    → loc < 2 ^ 32
    → cur_head < 2 ^ 32
    → new_head < 2 ^ 32
    → cur_pc_head < 2 ^ 64
    → pc_prev_head < 2 ^ 64
    → pc_pos < 2 ^ 64
    → (head_passed loc cur_head new_head ≡ between (2 ^ 32) loc cur_head new_head)
      × (past cur_pc_head pc_prev_head pc_pos ≡ between (2 ^ 64) pc_pos pc_prev_head cur_pc_head)
passed_lem loc cur_head new_head cur_pc_head pc_prev_head pc_pos h1 h2 h3 h4 h5 h6 = (
  head_passed-between loc cur_head new_head h1 h2 h3,
  past-between cur_pc_head pc_prev_head pc_pos h4 h5 h6,
)
