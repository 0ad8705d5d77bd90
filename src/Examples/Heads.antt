-- ===== src/Examples/Heads.antt =====
-- A head near the end of its words that moves past three marked entries of four.
use generic_asynchronous_io.Prelude.{ℕ, ◌≤◌, ◌≡◌, arith, some, ltb, if◌then◌else◌}
use generic_asynchronous_io.CqHead.{CqMarks, move_head_cq}
use generic_asynchronous_io.CqHead.Runs.{Counted, move_head_cq_lem}

abbrev four_marks : CqMarks
four_marks = record { log = 2; head_mark = λ i. if ltb i 3 then 1 else 0 }

four_marks-IsWide : four_marks.log ≤ 32
four_marks-IsWide = omega arith

move_head_cq_lem_example :
    (c : ℕ) × (m' : ℕ → ℕ) × (move_head_cq four_marks 0xffff_fffc 5
      ≡ (some c, record four_marks { head_mark = m' }))
    × Counted 2 four_marks-IsWide 0xffff_fffc four_marks.head_mark m' 0 c
move_head_cq_lem_example = move_head_cq_lem four_marks 0xffff_fffc 5 four_marks-IsWide (omega arith)
