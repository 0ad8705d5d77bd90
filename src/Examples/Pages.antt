-- ===== src/Examples/Pages.antt =====
-- Two threads acquire a page that is not in the cache, and the second claims it when the first
-- has just loaded it; and a page that is evicted.
use generic_asynchronous_io.Prelude.{
  ℕ, ◌/◌, ◌%◌, ◌^◌, ◌<◌, ◌≡◌, false, true, refl, arith, update, sum,
}
use generic_asynchronous_io.PageState.{
  Page, Pc, looking, claiming, loading, loaded, flipping, holding, evicting, writing, System, Reach,
  start, later, step, initial, enter, miss, claim_won, store_offset, loaded_read, flip, eviction,
  evict, evict_won, st,
}
use generic_asynchronous_io.PageState.Owners.{held, owned, harmless}
use generic_asynchronous_io.PageState.Safety.{count_lem, owner_lem, evictor_lem}

abbrev go : System → Page → ℕ → Pc → System
go s m i p = record { page = m; pc = update s.pc i p }

abbrev load_1 : System
load_1 = go initial (record initial.page { state = 1 }) 0 (looking 1 false 0)

load_1-Reach : Reach 2 load_1
load_1-Reach = later start (step 0 (omega arith) (enter 1 false (omega arith) (omega arith)))

abbrev load_2 : System
load_2 = go load_1 (record load_1.page { state = 2 }) 1 (looking 1 false 1)

load_2-Reach : Reach 2 load_2
load_2-Reach = later load_1-Reach (step 1 (omega arith) (enter 1 false (omega arith) (omega arith)))

abbrev load_3 : System
load_3 = go load_2 load_2.page 0 (claiming 1 false)

load_3-Reach : Reach 2 load_3
unfolding st
load_3-Reach = later load_2-Reach (step 0 (omega arith) (miss refl))

abbrev load_4 : System
load_4 = go load_3 load_3.page 1 (claiming 1 false)

load_4-Reach : Reach 2 load_4
unfolding st
load_4-Reach = later load_3-Reach (step 1 (omega arith) (miss refl))

abbrev load_5 : System
load_5 = go load_4 (record load_4.page { state = 1073741826 }) 0 (loading 1 false)

load_5-Reach : Reach 2 load_5
load_5-Reach = later load_4-Reach (step 0 (omega arith) (claim_won refl))

abbrev load_6 : System
load_6 = go load_5 (record load_5.page { offset = 5 }) 0 (loaded 1 false 5)

load_6-Reach : Reach 2 load_6
load_6-Reach = later load_5-Reach (step 0 (omega arith) (store_offset 5))

abbrev load_7 : System
load_7 = go load_6 load_6.page 0 (flipping 1 5)

load_7-Reach : Reach 2 load_7
load_7-Reach = later load_6-Reach (step 0 (omega arith) (loaded_read))

abbrev load_8 : System
load_8 = go load_7 (record load_7.page { state = 2147483650 }) 0 (holding 1 5)

load_8-Reach : Reach 2 load_8
load_8-Reach = later load_7-Reach (step 0 (omega arith) (flip))

abbrev load_9 : System
load_9 = go load_8 (record load_8.page { state = 3221225474 }) 1 (loading 1 false)

load_9-Reach : Reach 2 load_9
load_9-Reach = later load_8-Reach (step 1 (omega arith) (claim_won refl))

abbrev load_10 : System
load_10 = go load_9 (record load_9.page { offset = 6 }) 1 (loaded 1 false 6)

load_10-Reach : Reach 2 load_10
load_10-Reach = later load_9-Reach (step 1 (omega arith) (store_offset 6))

abbrev load_11 : System
load_11 = go load_10 load_10.page 1 (flipping 1 6)

load_11-Reach : Reach 2 load_11
load_11-Reach = later load_10-Reach (step 1 (omega arith) (loaded_read))

abbrev load_12 : System
load_12 = go load_11 (record load_11.page { state = 2 }) 1 (holding 1 6)

load_12-Reach : Reach 2 load_12
load_12-Reach = later load_11-Reach (step 1 (omega arith) (flip))

abbrev evict_1 : System
evict_1 = go initial initial.page 0 (evicting)

evict_1-Reach : Reach 2 evict_1
evict_1-Reach = later start (step 0 (omega arith) (eviction (evict refl refl)))

abbrev evict_2 : System
evict_2 = go evict_1 (record evict_1.page { state = 1073741824 }) 0 (writing)

evict_2-Reach : Reach 2 evict_2
evict_2-Reach = later evict_1-Reach (step 0 (omega arith) (eviction (evict_won refl refl)))

abbrev evict_3 : System
evict_3 = go evict_2 (record evict_2.page { state = 1073741825 }) 1 (looking 1 false 1073741824)

evict_3-Reach : Reach 2 evict_3
evict_3-Reach =
    later evict_2-Reach (step 1 (omega arith) (enter 1 false (omega arith) (omega arith)))

-- Both hold the page, in different places, and it is not valid.
twice_loaded :
    (load_12.page.state / 2 ^ 31 ≡ 0) × (load_12.pc 0 ≡ holding 1 5) × (load_12.pc 1 ≡ holding 1 6)
twice_loaded = (refl, refl, refl)

count_lem_example : load_6.page.state % 2 ^ 29 ≡ sum (λ j. held (load_6.pc j)) 2
count_lem_example = count_lem (omega arith) load_6-Reach

owner_lem_example :
    ((i j : ℕ) → i < 2 → j < 2 → owned (load_6.pc i) ≡ 1 → owned (load_6.pc j) ≡ 1 → i ≡ j)
    × (load_6.page.state / 2 ^ 30 % 2 ≡ sum (λ j. owned (load_6.pc j)) 2)
owner_lem_example = owner_lem (omega arith) load_6-Reach

evictor_lem_example : harmless (evict_3.pc 1) ≡ true
evictor_lem_example = evictor_lem (omega arith) evict_3-Reach 0 1 refl (omega arith)
