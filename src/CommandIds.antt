-- ===== src/CommandIds.antt =====
-- bam/include/nvm_parallel_queue.h, `get_cid` and `put_cid`: the command ids of one submission
-- queue, which GPU threads take and give back without a common lock. Every shared access is one
-- step.
pub mod Held
pub mod Returns
use generic_asynchronous_io.Prelude.{
  ℕ, zero, suc, ◌+◌, ◌≡◌, ◌≢◌, Option, none, some, ◌==◌, if◌then◌else◌, bit_and, bit_or, u32,
  update,
}

abbrev pub locked : ℕ
locked = 1

abbrev pub unlocked : ℕ
unlocked = 0

-- The fields of the submission queue's `nvm_queue_t`.
pub record Ids : Type 0 where
  pub cid_ticket : ℕ
  pub cid : ℕ → ℕ

-- `cid_ticket.fetch_add(1)`, and the id that it gives.
abbrev pub drawn : Ids → Ids
drawn m = record m { cid_ticket = u32 (m.cid_ticket + 1) }

abbrev pub next_id : Ids → ℕ
next_id m = bit_and m.cid_ticket 65535

-- `cid[id].val.fetch_or(LOCKED)`
abbrev pub grabbed : ℕ → Ids → Ids
grabbed id m = record m { cid = update m.cid id (bit_or (m.cid id) locked) }

unfoldable pub put_cid : ℕ → Ids → Ids
put_cid id m = record m { cid = update m.cid id unlocked }

-- `get_cid` while no other thread moves, for at most so many rounds of its loop.
unfoldable pub get_cid : ℕ → Ids → Option (ℕ × Ids)
get_cid zero m = none
get_cid (suc fuel) m =
    let m1 = grabbed (next_id m) (drawn m) in
    let rest = get_cid fuel m1 in if m.cid (next_id m) == locked then rest else some (next_id m, m1)

-- Where a call of `get_cid` stands, up to the `put_cid` of the id that it has returned.
pub data Pc : Type 0 where
  outside : Pc
  drawing : Pc  -- the `fetch_add` on `cid_ticket`
  trying : (id : ℕ) → Pc  -- the `fetch_or` on `cid[id]`
  holding : (id : ℕ) → Pc

pub data Move (m : Ids) : Pc → Ids → Pc → Type 0 where
  enter : Move m outside m drawing
  draw : Move m drawing (drawn m) (trying (next_id m))
  lost : {id : ℕ} → m.cid id ≡ locked → Move m (trying id) (grabbed id m) drawing
  won : {id : ℕ} → m.cid id ≢ locked → Move m (trying id) (grabbed id m) (holding id)
  put : {id : ℕ} → Move m (holding id) (put_cid id m) outside

-- The calls are numbered; a thread may make several before it gives an id back.
pub record System : Type 0 where
  pub ids : Ids
  pub pc : ℕ → Pc

pub data Step (s : System) : System → Type 0 where
  step :
      (i : ℕ) {m : Ids} {p : Pc}
      → Move s.ids (s.pc i) m p
      → Step s (record { ids = m; pc = update s.pc i p })

-- As `nvm_queue_clear` and `init_gpu_specific_struct` leave the queue.
abbrev pub initial : System
initial = record { ids = record { cid_ticket = 0; cid = λ _. unlocked }; pc = λ _. outside }

pub data Reach : System → Type 0 where
  start : Reach initial
  later : {s t : System} → Reach s → Step s t → Reach t
