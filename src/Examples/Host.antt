-- ===== src/Examples/Host.antt =====
-- A queue pair of eight entries that one thread drives.
use generic_asynchronous_io.Prelude.{
  ℕ, ◌+◌, ◌-◌, ◌%◌, ◌<◌, ◌≡◌, ◌⊎◌, Bool, true, false, none, some, refl, arith,
}
use generic_asynchronous_io.Completion.{NvmCpl, phase, tag, written, IsTagged}
use generic_asynchronous_io.HostQueue.{NvmQueue, sq_enqueue, cq_dequeue}
use generic_asynchronous_io.HostQueue.Submission.{Holds, IsSize, sq_enqueue-Holds}
use generic_asynchronous_io.HostQueue.Completions.{Taken, cq_dequeue_lem}

-- The commands 5 to 10 are in the queue, the last two of them in the second round.
abbrev eight : NvmQueue
eight = record { es = 64; qs = 8; head = 5; tail = 3; phase = false; last = 2; db = some 2 }

eight-IsSize : IsSize eight.qs
eight-IsSize = record { at_least = omega arith; at_most = omega arith; divides = omega arith }

eight-Holds : Holds 5 11 eight
eight-Holds = record {
  ordered = omega arith;
  bounded = omega arith;
  front = refl;
  back = refl;
  round = refl;
}

sq_enqueue_run : sq_enqueue eight ≡ (some 192, record eight { tail = 4 })
unfolding sq_enqueue
sq_enqueue_run = refl

sq_enqueue-Holds_example :
    ((11 - 5 ≡ eight.qs - 1) × (sq_enqueue eight ≡ (none, eight)))
    ⊎ ((11 - 5 < eight.qs - 1)
        × ((sq_enqueue eight).0 ≡ some 192)
        × Holds 5 12 (sq_enqueue eight).1)
sq_enqueue-Holds_example = sq_enqueue-Holds 5 11 eight eight-IsSize eight-Holds

-- A full queue of ten slots, the free one below the head.
abbrev ten : NvmQueue
ten = record { es = 64; qs = 10; head = 4; tail = 3; phase = false; last = 3; db = some 3 }

-- What a controller posts that always reports the command 7.
abbrev status : Bool → ℕ
status true = 65543
status false = 7

abbrev posts : ℕ → NvmCpl
posts a = record { dword2 = a % 8; dword3 = status (tag 8 a) }

status_phase : (b : Bool) → phase (record { dword2 = 0; dword3 = status b }) ≡ b
unfolding phase
status_phase true = refl
status_phase false = refl

posts-IsTagged : IsTagged 8 posts
unfolding phase
posts-IsTagged a = status_phase (tag 8 a)

abbrev taken_ten : NvmQueue
taken_ten = record { es = 16; qs = 8; head = 2; tail = 0; phase = false; last = 0; db = some 0 }

taken_ten-Taken : Taken 10 taken_ten
taken_ten-Taken = record { front = refl; round = refl }

cq_dequeue_lem_example :
    let (found, q') = cq_dequeue taken_ten (written 8 posts 12) in
    ((10 < 12) × (found ≡ some 2) × (written 8 posts 12 2 ≡ posts 10) × Taken 11 q')
    ⊎ ((10 + 0 ≡ 12) × (found ≡ none) × (q' ≡ taken_ten))
cq_dequeue_lem_example =
    cq_dequeue_lem posts 10 12 taken_ten (omega arith) posts-IsTagged taken_ten-Taken (omega arith)
      (omega arith) (omega arith)

-- Five threads share a queue of eight slots.
abbrev at_start : NvmQueue
at_start = record { es = 64; qs = 8; head = 0; tail = 0; phase = true; last = 0; db = some 0 }

abbrev thread_a : ℕ
thread_a = 1

abbrev thread_b : ℕ
thread_b = 4
