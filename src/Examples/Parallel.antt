-- ===== src/Examples/Parallel.antt =====
-- One thread posts a command to a submission queue of four slots, while a second thread has drawn
-- a ticket and written its command.
use generic_asynchronous_io.Prelude.{ℕ, ◌+◌, ◌≤◌, ◌<◌, ◌≡◌, refl, arith, update}
use generic_asynchronous_io.Command.{NvmCmd}
use generic_asynchronous_io.ParallelQueue.{
  Shared, System, Reach, start, later, thread, enter, seen, pass, copy, mark, again, free, won,
  load, room, take, stop, some_moved, ring, store, slot, get_id, initial, Pc, waiting,
  waiting_again, copying, marking, testing, peeking, grabbing, holding, scanning, taking, moved,
  ringing, storing, releasing,
}
use generic_asynchronous_io.ParallelQueue.Safety.{fetch_lem, window_lem, owner_unique}

abbrev blank : NvmCmd
blank = record { dword = λ _. 0 }

abbrev first : NvmCmd
first = record { dword = λ i. i }

abbrev second : NvmCmd
second = record { dword = λ i. i + 1 }

abbrev go : System → Shared → ℕ → Pc → System
go s m i p = record { mem = m; pc = update s.pc i p }

abbrev at_1 : System
at_1 =
    go (initial blank)
      (record (initial blank).mem {
        in_ticket = 1;
        issued = 1;
        posted = update (initial blank).mem.posted 0 first;
      })
      0 (waiting 0 first)

at_1-Reach : Reach 2 blank at_1
at_1-Reach = later start (thread 0 (enter first))

abbrev at_2 : System
at_2 =
    go at_1
      (record at_1.mem { in_ticket = 2; issued = 2; posted = update at_1.mem.posted 1 second }) 1
      (waiting 1 second)

at_2-Reach : Reach 2 blank at_2
at_2-Reach = later at_1-Reach (thread 1 (enter second))

abbrev at_3 : System
at_3 = go at_2 at_2.mem 0 (waiting_again 0 first)

at_3-Reach : Reach 2 blank at_3
unfolding slot get_id
at_3-Reach = later at_2-Reach (thread 0 (seen refl))

abbrev at_4 : System
at_4 = go at_3 at_3.mem 0 (copying 0 first)

at_4-Reach : Reach 2 blank at_4
unfolding slot get_id
at_4-Reach = later at_3-Reach (thread 0 (pass refl))

abbrev at_5 : System
at_5 = go at_4 (record at_4.mem { entries = update at_4.mem.entries 0 first }) 0 (marking 0)

at_5-Reach : Reach 2 blank at_5
unfolding slot
at_5-Reach = later at_4-Reach (thread 0 copy)

abbrev at_6 : System
at_6 = go at_5 (record at_5.mem { tail_mark = update at_5.mem.tail_mark 0 1 }) 0 (testing 0)

at_6-Reach : Reach 2 blank at_6
unfolding slot
at_6-Reach = later at_5-Reach (thread 0 mark)

abbrev at_7 : System
at_7 = go at_6 at_6.mem 1 (waiting_again 1 second)

at_7-Reach : Reach 2 blank at_7
unfolding slot get_id
at_7-Reach = later at_6-Reach (thread 1 (seen refl))

abbrev at_8 : System
at_8 = go at_7 at_7.mem 1 (copying 1 second)

at_8-Reach : Reach 2 blank at_8
unfolding slot get_id
at_8-Reach = later at_7-Reach (thread 1 (pass refl))

abbrev at_9 : System
at_9 = go at_8 (record at_8.mem { entries = update at_8.mem.entries 1 second }) 1 (marking 1)

at_9-Reach : Reach 2 blank at_9
unfolding slot
at_9-Reach = later at_8-Reach (thread 1 copy)

abbrev at_10 : System
at_10 = go at_9 at_9.mem 0 (peeking 0)

at_10-Reach : Reach 2 blank at_10
unfolding slot
at_10-Reach = later at_9-Reach (thread 0 (again refl))

abbrev at_11 : System
at_11 = go at_10 at_10.mem 0 (grabbing 0)

at_11-Reach : Reach 2 blank at_11
at_11-Reach = later at_10-Reach (thread 0 (free (λ e. absurd cc)))

abbrev at_12 : System
at_12 = go at_11 (record at_11.mem { tail_lock = 1 }) 0 (holding 0)

at_12-Reach : Reach 2 blank at_12
at_12-Reach = later at_11-Reach (thread 0 (won (λ e. absurd cc)))

abbrev at_13 : System
at_13 = go at_12 at_12.mem 0 (scanning 0 0 0)

at_13-Reach : Reach 2 blank at_13
at_13-Reach = later at_12-Reach (thread 0 load)

abbrev at_14 : System
at_14 = go at_13 at_13.mem 0 (taking 0 0 0)

at_14-Reach : Reach 2 blank at_14
unfolding slot
at_14-Reach = later at_13-Reach (thread 0 (room (λ e. absurd cc)))

abbrev at_15 : System
at_15 =
    go at_14 (record at_14.mem { tail_mark = update at_14.mem.tail_mark 0 0 }) 0 (scanning 0 0 1)

at_15-Reach : Reach 2 blank at_15
unfolding slot
at_15-Reach = later at_14-Reach (thread 0 (take refl))

abbrev at_16 : System
at_16 = go at_15 at_15.mem 0 (taking 0 0 1)

at_16-Reach : Reach 2 blank at_16
unfolding slot
at_16-Reach = later at_15-Reach (thread 0 (room (λ e. absurd cc)))

abbrev at_17 : System
at_17 = go at_16 (record at_16.mem { tail_mark = update at_16.mem.tail_mark 1 0 }) 0 (moved 0 0 1)

at_17-Reach : Reach 2 blank at_17
unfolding slot
at_17-Reach = later at_16-Reach (thread 0 (stop (λ e. absurd cc)))

abbrev at_18 : System
at_18 = go at_17 (record at_17.mem { head_lock = 1 }) 0 (ringing 0 0 1)

at_18-Reach : Reach 2 blank at_18
at_18-Reach = later at_17-Reach (thread 0 (some_moved (λ e. absurd cc)))

abbrev at_19 : System
at_19 = go at_18 (record at_18.mem { db = 1 }) 0 (storing 0 0 1)

at_19-Reach : Reach 2 blank at_19
unfolding slot
at_19-Reach = later at_18-Reach (thread 0 ring)

abbrev at_20 : System
at_20 = go at_19 (record at_19.mem { tail = 1 }) 0 (releasing 0)

at_20-Reach : Reach 2 blank at_20
at_20-Reach = later at_19-Reach (thread 0 store)

fetch_lem_example : (at_19.mem.entries 0 ≡ first) × (0 < 2)
fetch_lem_example = fetch_lem at_19-Reach (omega arith) (λ e. absurd cc)

window_lem_example :
    (0 ≤ 0) × (0 < 0 + 4) × (1 < 0 + 4) × (1 ≤ 2) × (at_20.mem.tail_lock ≡ 0 → at_20.mem.db ≡ 1)
window_lem_example = window_lem at_20-Reach (omega arith)

abbrev thread_one : ℕ
thread_one = 1

owner_unique_example : thread_one ≡ 1
unfolding slot
owner_unique_example = owner_unique at_9-Reach (omega arith) 1 1 1 1 refl refl refl refl refl

abbrev thread_zero : ℕ
thread_zero = 0
