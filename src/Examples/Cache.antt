-- ===== src/Examples/Cache.antt =====
-- Two threads that load two pages into the first two slots of a cache of four.
use generic_asynchronous_io.Prelude.{ℕ, ◌+◌, ◌*◌, ◌^◌, ◌≡◌, ◌≢◌, false, true, refl, arith, update}
use generic_asynchronous_io.PageState
use generic_asynchronous_io.PageState.{Page}
use generic_asynchronous_io.CacheSlots.{
  Cache, free, unlocked, locked, drawing, testing, locking, assigning, unlocking, found, Pc, on,
  finding, with_page, with_lock, System, Reach, start, later, step, turn, access, call, search,
  settle, draw, see, lock_free, assign, unlock_found, initial,
}
use generic_asynchronous_io.CacheSlots.Claims.{Uses, Takes}
use generic_asynchronous_io.Address.{
  get_global_address, previous_range, previous_address, n_ranges_bits, log2, log2_from,
}
use generic_asynchronous_io.Address.RoundTrip.{address_lem, address_collides}
use generic_asynchronous_io.CacheSlots.Safety.{slot_apart, user_slot}

abbrev go : System → Cache → ℕ → Pc → System
go s m i p = record { cache = m; pc = update s.pc i p }

abbrev with_state : Cache → ℕ → ℕ → Cache
with_state m p w = with_page m p (record (m.pages p) { state = w })

abbrev first_1 : System
first_1 = go initial initial.cache 0 (on 3 PageState.outside)

first_1-Reach : Reach 4 2 first_1
first_1-Reach = later start (step 0 (omega arith) turn)

abbrev first_2 : System
first_2 = go first_1 (with_state first_1.cache 3 1) 0 (on 3 (PageState.looking 1 false 0))

first_2-Reach : Reach 4 2 first_2
first_2-Reach =
    later first_1-Reach
      (step 0 (omega arith) (access (PageState.enter 1 false (omega arith) (omega arith)) refl))

abbrev first_3 : System
first_3 =
    go first_2 (with_page first_2.cache 3 (first_2.cache.pages 3)) 0
      (on 3 (PageState.claiming 1 false))

first_3-Reach : Reach 4 2 first_3
unfolding PageState.st
first_3-Reach = later first_2-Reach (step 0 (omega arith) (access (PageState.miss refl) refl))

abbrev first_4 : System
first_4 = go first_3 (with_state first_3.cache 3 0x4000_0001) 0 (on 3 (PageState.loading 1 false))

first_4-Reach : Reach 4 2 first_4
first_4-Reach = later first_3-Reach (step 0 (omega arith) (access (PageState.claim_won refl) refl))

abbrev first_5 : System
first_5 = go first_4 first_4.cache 0 (finding 3 1 false drawing)

first_5-Reach : Reach 4 2 first_5
first_5-Reach = later first_4-Reach (step 0 (omega arith) call)

abbrev first_6 : System
first_6 = go first_5 (record first_5.cache { page_ticket = 1 }) 0 (finding 3 1 false (testing 0))

first_6-Reach : Reach 4 2 first_6
first_6-Reach = later first_5-Reach (step 0 (omega arith) (search draw))

abbrev first_7 : System
first_7 = go first_6 first_6.cache 0 (finding 3 1 false (locking 0 free))

first_7-Reach : Reach 4 2 first_7
first_7-Reach = later first_6-Reach (step 0 (omega arith) (search (see (omega arith))))

abbrev first_8 : System
first_8 = go first_7 (with_lock first_7.cache 0 locked) 0 (finding 3 1 false (assigning 0))

first_8-Reach : Reach 4 2 first_8
first_8-Reach = later first_7-Reach (step 0 (omega arith) (search (lock_free refl refl)))

abbrev first_9 : System
first_9 =
    go first_8
      (record first_8.cache { page_translation = update first_8.cache.page_translation 0 3 }) 0
      (finding 3 1 false (unlocking 0 true))

first_9-Reach : Reach 4 2 first_9
first_9-Reach = later first_8-Reach (step 0 (omega arith) (search assign))

abbrev first_10 : System
first_10 = go first_9 (with_lock first_9.cache 0 unlocked) 0 (finding 3 1 false (found 0))

first_10-Reach : Reach 4 2 first_10
first_10-Reach = later first_9-Reach (step 0 (omega arith) (search unlock_found))

abbrev first_11 : System
first_11 =
    go first_10 (with_page first_10.cache 3 (record (first_10.cache.pages 3) { offset = 0 })) 0
      (on 3 (PageState.loaded 1 false 0))

first_11-Reach : Reach 4 2 first_11
first_11-Reach = later first_10-Reach (step 0 (omega arith) settle)

abbrev first_12 : System
first_12 =
    go first_11 (with_page first_11.cache 3 (first_11.cache.pages 3)) 0
      (on 3 (PageState.flipping 1 0))

first_12-Reach : Reach 4 2 first_12
first_12-Reach = later first_11-Reach (step 0 (omega arith) (access PageState.loaded_read refl))

abbrev first_13 : System
first_13 = go first_12 (with_state first_12.cache 3 0x8000_0001) 0 (on 3 (PageState.holding 1 0))

first_13-Reach : Reach 4 2 first_13
first_13-Reach = later first_12-Reach (step 0 (omega arith) (access PageState.flip refl))

abbrev second_1 : System
second_1 = go first_13 first_13.cache 1 (on 5 PageState.outside)

second_1-Reach : Reach 4 2 second_1
second_1-Reach = later first_13-Reach (step 1 (omega arith) turn)

abbrev second_2 : System
second_2 = go second_1 (with_state second_1.cache 5 1) 1 (on 5 (PageState.looking 1 false 0))

second_2-Reach : Reach 4 2 second_2
second_2-Reach =
    later second_1-Reach
      (step 1 (omega arith) (access (PageState.enter 1 false (omega arith) (omega arith)) refl))

abbrev second_3 : System
second_3 =
    go second_2 (with_page second_2.cache 5 (second_2.cache.pages 5)) 1
      (on 5 (PageState.claiming 1 false))

second_3-Reach : Reach 4 2 second_3
unfolding PageState.st
second_3-Reach = later second_2-Reach (step 1 (omega arith) (access (PageState.miss refl) refl))

abbrev second_4 : System
second_4 =
    go second_3 (with_state second_3.cache 5 0x4000_0001) 1 (on 5 (PageState.loading 1 false))

second_4-Reach : Reach 4 2 second_4
second_4-Reach =
    later second_3-Reach (step 1 (omega arith) (access (PageState.claim_won refl) refl))

abbrev second_5 : System
second_5 = go second_4 second_4.cache 1 (finding 5 1 false drawing)

second_5-Reach : Reach 4 2 second_5
second_5-Reach = later second_4-Reach (step 1 (omega arith) call)

abbrev second_6 : System
second_6 = go second_5 (record second_5.cache { page_ticket = 2 }) 1 (finding 5 1 false (testing 1))

second_6-Reach : Reach 4 2 second_6
second_6-Reach = later second_5-Reach (step 1 (omega arith) (search draw))

abbrev second_7 : System
second_7 = go second_6 second_6.cache 1 (finding 5 1 false (locking 1 free))

second_7-Reach : Reach 4 2 second_7
second_7-Reach = later second_6-Reach (step 1 (omega arith) (search (see (omega arith))))

abbrev second_8 : System
second_8 = go second_7 (with_lock second_7.cache 1 locked) 1 (finding 5 1 false (assigning 1))

second_8-Reach : Reach 4 2 second_8
second_8-Reach = later second_7-Reach (step 1 (omega arith) (search (lock_free refl refl)))

abbrev second_9 : System
second_9 =
    go second_8
      (record second_8.cache { page_translation = update second_8.cache.page_translation 1 5 }) 1
      (finding 5 1 false (unlocking 1 true))

second_9-Reach : Reach 4 2 second_9
second_9-Reach = later second_8-Reach (step 1 (omega arith) (search assign))

abbrev second_10 : System
second_10 = go second_9 (with_lock second_9.cache 1 unlocked) 1 (finding 5 1 false (found 1))

second_10-Reach : Reach 4 2 second_10
second_10-Reach = later second_9-Reach (step 1 (omega arith) (search unlock_found))

abbrev second_11 : System
second_11 =
    go second_10 (with_page second_10.cache 5 (record (second_10.cache.pages 5) { offset = 1 })) 1
      (on 5 (PageState.loaded 1 false 1))

second_11-Reach : Reach 4 2 second_11
second_11-Reach = later second_10-Reach (step 1 (omega arith) settle)

abbrev second_12 : System
second_12 =
    go second_11 (with_page second_11.cache 5 (second_11.cache.pages 5)) 1
      (on 5 (PageState.flipping 1 1))

second_12-Reach : Reach 4 2 second_12
second_12-Reach = later second_11-Reach (step 1 (omega arith) (access PageState.loaded_read refl))

abbrev second_13 : System
second_13 = go second_12 (with_state second_12.cache 5 0x8000_0001) 1 (on 5 (PageState.holding 1 1))

second_13-Reach : Reach 4 2 second_13
second_13-Reach = later second_12-Reach (step 1 (omega arith) (access PageState.flip refl))

slot_apart_example : ¬ Uses 5 0 (second_13.pc 1)
slot_apart_example = slot_apart (omega arith) second_13-Reach 0 1 3 5 0 (omega arith) (refl, refl)

user_slot_example :
    (second_13.cache.page_translation 1 ≡ 5)
    × (second_13.cache.page_take_lock 1 ≢ free)
    × ((j : ℕ) → ¬ Takes 1 (second_13.pc j))
user_slot_example = user_slot (omega arith) second_13-Reach 1 5 1 (refl, refl)

address_lem_example :
    (previous_range (2 ^ 3) (get_global_address (2 ^ 3) 21 5) ≡ 5)
    × (previous_address (2 ^ 3) (get_global_address (2 ^ 3) 21 5) ≡ 21)
unfolding n_ranges_bits log2 log2_from
address_lem_example = address_lem 3 21 5 (omega arith) (omega arith) (omega arith)

address_collides_example : get_global_address 3 (0 * 2) (2 ^ 1) ≡ get_global_address 3 (0 * 2 + 1) 0
address_collides_example =
    address_collides 1 0 3 (omega arith) (omega arith) (omega arith) (omega arith) (omega arith)
