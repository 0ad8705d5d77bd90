-- ===== src/Examples/Dequeue.antt =====
-- One entry that a thread takes off a completion queue of four, and another that has just been
-- found.
use generic_asynchronous_io.Prelude.{ℕ, ◌+◌, ◌^◌, ◌≤◌, ◌<◌, ◌≡◌, true, refl, arith, update}
use generic_asynchronous_io.Poll.{place}
use generic_asynchronous_io.CqHead.{locked, unlocked, head_passed}
use generic_asynchronous_io.CqDequeue.{
  Shared, Pc, waiting, grabbing, marking, testing, locking, loading, scanning, moved, storing,
  releasing, finishing, unlocking, enter, seen, grab, mark, again, won, load, take, stop, ring,
  store, release, gone, passed, System, thread, post, Reach, start, later, initial,
}
use generic_asynchronous_io.CqDequeue.Safety.{unmarked_kept, leaves_behind, loop_ends}

abbrev go : System → Shared → ℕ → Pc → System
go s m i p = record { mem = m; pc = update s.pc i p }

abbrev turn_1 : System
turn_1 = record initial { mem = (record initial.mem { posted = 1 }) }

turn_1-Reach : Reach 2 turn_1
unfolding place
turn_1-Reach = later start (post (omega arith))

abbrev turn_2 : System
turn_2 = record turn_1 { mem = (record turn_1.mem { posted = 2 }) }

turn_2-Reach : Reach 2 turn_2
unfolding place
turn_2-Reach = later turn_1-Reach (post (omega arith))

abbrev turn_3 : System
turn_3 =
    go turn_2 (record turn_2.mem { tail = 1; found = update turn_2.mem.found 0 true }) 0
      (waiting 0 0)

turn_3-Reach : Reach 2 turn_3
unfolding place
turn_3-Reach =
    later turn_2-Reach (thread 0 (enter 0 0 (omega arith) (omega arith) (omega arith) refl))

abbrev turn_4 : System
turn_4 = go turn_3 turn_3.mem 0 (grabbing 0 0)

turn_4-Reach : Reach 2 turn_4
unfolding place
turn_4-Reach = later turn_3-Reach (thread 0 (seen refl))

abbrev turn_5 : System
turn_5 =
    go turn_4 (record turn_4.mem { pos_locks = update turn_4.mem.pos_locks 0 1 }) 0 (marking 0 0)

turn_5-Reach : Reach 2 turn_5
unfolding place
turn_5-Reach = later turn_4-Reach (thread 0 (grab refl))

abbrev turn_6 : System
turn_6 =
    go turn_5
      (record turn_5.mem {
        head_mark = update turn_5.mem.head_mark 0 locked;
        marked = update turn_5.mem.marked 0 true;
      })
      0 (testing 0 0)

turn_6-Reach : Reach 2 turn_6
unfolding place
turn_6-Reach = later turn_5-Reach (thread 0 mark)

abbrev turn_7 : System
turn_7 =
    go turn_6 (record turn_6.mem { tail = 2; found = update turn_6.mem.found 1 true }) 1
      (waiting 1 0)

turn_7-Reach : Reach 2 turn_7
unfolding place
turn_7-Reach =
    later turn_6-Reach (thread 1 (enter 1 0 (omega arith) (omega arith) (omega arith) refl))

abbrev turn_8 : System
turn_8 = go turn_7 turn_7.mem 0 (locking 0 0)

turn_8-Reach : Reach 2 turn_8
unfolding place
turn_8-Reach = later turn_7-Reach (thread 0 (again refl))

abbrev turn_9 : System
turn_9 = go turn_8 (record turn_8.mem { head_lock = 1 }) 0 (loading 0 0)

turn_9-Reach : Reach 2 turn_9
unfolding place
turn_9-Reach = later turn_8-Reach (thread 0 (won (omega arith)))

abbrev turn_10 : System
turn_10 = go turn_9 turn_9.mem 0 (scanning 0 0 0 0)

turn_10-Reach : Reach 2 turn_10
unfolding place
turn_10-Reach = later turn_9-Reach (thread 0 load)

abbrev turn_11 : System
turn_11 =
    go turn_10
      (record turn_10.mem { head_mark = update turn_10.mem.head_mark 0 unlocked; front = 1 }) 0
      (scanning 0 0 0 1)

turn_11-Reach : Reach 2 turn_11
unfolding place
turn_11-Reach = later turn_10-Reach (thread 0 (take refl))

abbrev turn_12 : System
turn_12 =
    go turn_11 (record turn_11.mem { head_mark = update turn_11.mem.head_mark 1 unlocked }) 0
      (moved 0 0 0 1)

turn_12-Reach : Reach 2 turn_12
unfolding place
turn_12-Reach = later turn_11-Reach (thread 0 (stop (omega arith)))

abbrev turn_13 : System
turn_13 = go turn_12 (record turn_12.mem { db = 1; rung = 1 }) 0 (storing 0 0 0 1)

turn_13-Reach : Reach 2 turn_13
unfolding place
turn_13-Reach = later turn_12-Reach (thread 0 (ring (omega arith)))

abbrev turn_14 : System
turn_14 = go turn_13 (record turn_13.mem { head = 1 }) 0 (releasing 0 0)

turn_14-Reach : Reach 2 turn_14
unfolding place
turn_14-Reach = later turn_13-Reach (thread 0 store)

abbrev turn_15 : System
turn_15 = go turn_14 (record turn_14.mem { head_lock = unlocked }) 0 (testing 0 0)

turn_15-Reach : Reach 2 turn_15
unfolding place
turn_15-Reach = later turn_14-Reach (thread 0 release)

abbrev turn_16 : System
turn_16 = go turn_15 turn_15.mem 0 (finishing 0 0)

turn_16-Reach : Reach 2 turn_16
unfolding place
turn_16-Reach = later turn_15-Reach (thread 0 (gone (omega arith)))

abbrev turn_17 : System
turn_17 = go turn_16 turn_16.mem 0 (unlocking 0 0)

turn_17-Reach : Reach 2 turn_17
unfolding head_passed
turn_17-Reach = later turn_16-Reach (thread 0 (passed refl))

abbrev turn_18 : System
turn_18 = go turn_17 turn_17.mem 1 (grabbing 1 0)

turn_18-Reach : Reach 2 turn_18
unfolding place
turn_18-Reach = later turn_17-Reach (thread 1 (seen refl))

abbrev turn_19 : System
turn_19 =
    go turn_18 (record turn_18.mem { pos_locks = update turn_18.mem.pos_locks 1 1 }) 1 (marking 1 0)

turn_19-Reach : Reach 2 turn_19
unfolding place
turn_19-Reach = later turn_18-Reach (thread 1 (grab refl))

unmarked_kept_example :
    (turn_19.mem.head ≤ 1)
    × (turn_19.mem.rung ≤ 1)
    × (1 < turn_19.mem.posted)
    × (turn_19.mem.posted < 1 + 2 ^ 2)
unmarked_kept_example = unmarked_kept (omega arith) turn_19-Reach (omega arith) 1 1 refl refl

leaves_behind_example : 0 < turn_17.mem.head
leaves_behind_example = leaves_behind (omega arith) turn_17-Reach (omega arith) 0 0 0 refl

loop_ends_example : head_passed 0 0 turn_16.mem.head ≡ true
loop_ends_example = loop_ends (omega arith) turn_16-Reach (omega arith) 0 0 0 refl (omega arith)
