-- ===== src/Examples/Async.antt =====
-- Two threads that submit reads of one page.
use generic_asynchronous_io.Prelude.{ℕ, ◌+◌, ◌%◌, ◌^◌, ◌≤◌, ◌≡◌, false, arith, update, sum}
use generic_asynchronous_io.AsyncPage.{
  Page, Pc, counting, looking, System, Reach, start, later, step, initial, submit, enter, count_ref,
}
use generic_asynchronous_io.AsyncPage.Counts.{held, counted, state_only, ref_only, async_count_lem}

abbrev go : System → Page → ℕ → Pc → System
go s m i p = record { page = m; pc = update s.pc i p }

abbrev async_1 : System
async_1 = go initial (record initial.page { state = 3 }) 0 (counting 3 false 0)

async_1-Reach : Reach 2 async_1
async_1-Reach =
    later start (step 0 (omega arith) (submit (enter 3 false (omega arith) (omega arith))))

abbrev async_2 : System
async_2 = go async_1 (record async_1.page { ref_count = 3 }) 0 (looking 3 false 0)

async_2-Reach : Reach 2 async_2
async_2-Reach = later async_1-Reach (step 0 (omega arith) (submit count_ref))

abbrev async_3 : System
async_3 = go async_2 (record async_2.page { state = 5 }) 1 (counting 2 false 3)

async_3-Reach : Reach 2 async_3
async_3-Reach =
    later async_2-Reach (step 1 (omega arith) (submit (enter 2 false (omega arith) (omega arith))))

async_count_lem_example :
    (async_3.page.state % 2 ^ 29 ≡ sum (λ j. held (async_3.pc j)) 2)
    × (async_3.page.ref_count ≡ sum (λ j. counted (async_3.pc j)) 2)
    × (async_3.page.state % 2 ^ 29 ≤ 2 ^ 28)
    × (async_3.page.ref_count ≤ 2 ^ 28)
    × (async_3.page.ref_count + sum (λ j. state_only (async_3.pc j)) 2
        ≡ async_3.page.state % 2 ^ 29 + sum (λ j. ref_only (async_3.pc j)) 2)
async_count_lem_example = async_count_lem (omega arith) async_3-Reach
