-- ===== src/Examples/Ids.antt =====
-- One call that holds id 0 while another is about to draw.
use generic_asynchronous_io.Prelude.{ℕ, ◌^◌, ◌≡◌, ◌⊎◌, refl, arith, some, update}
use generic_asynchronous_io.CommandIds.{
  locked, unlocked, Ids, Pc, drawing, trying, holding, System, Reach, start, later, step, enter,
  draw, won, initial, get_cid, put_cid,
}
use generic_asynchronous_io.CommandIds.Held.{HasId, held_unique, held_marks}
use generic_asynchronous_io.CommandIds.Returns.{Got, get_cid_lem}

abbrev go : System → Ids → ℕ → Pc → System
go s m i p = record { ids = m; pc = update s.pc i p }

abbrev ids_1 : System
ids_1 = go initial initial.ids 0 drawing

abbrev ids_2 : System
ids_2 = go ids_1 (record ids_1.ids { cid_ticket = 1 }) 0 (trying 0)

abbrev ids_3 : System
ids_3 = go ids_2 (record ids_2.ids { cid = update ids_2.ids.cid 0 1 }) 0 (holding 0)

abbrev ids_4 : System
ids_4 = go ids_3 ids_3.ids 1 drawing

ids_4-Reach : Reach ids_4
ids_4-Reach =
    later (later (later (later start (step 0 enter)) (step 0 draw)) (step 0 (won (omega arith))))
      (step 1 enter)

held_unique_example : ¬ HasId 0 (ids_4.pc 1)
held_unique_example = held_unique 0 0 1 ids_4-Reach (omega arith) refl

get_cid_lem_example :
    (id : ℕ) × (m' : Ids) × (get_cid (2 ^ 16) ids_4.ids ≡ some (id, m'))
    × Got ids_4.ids id m'
    × ((k : ℕ) → (put_cid id m').cid k ≡ ids_4.ids.cid k)
get_cid_lem_example = get_cid_lem (2 ^ 16) 5 ids_4-Reach (omega arith) refl (omega arith)

held_marks_example :
    ((ids_4.ids.cid 0 ≡ locked) × (i : ℕ) × HasId 0 (ids_4.pc i))
    ⊎ ((ids_4.ids.cid 0 ≡ unlocked) × ((i : ℕ) → ¬ HasId 0 (ids_4.pc i)))
held_marks_example = held_marks 0 ids_4-Reach
