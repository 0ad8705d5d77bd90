-- ===== src/AsyncPage.antt =====
-- bam/include/page_cache.h: the state word, the polling flag and the place of one page of a range
-- under `acquire_page_submit_async`, `acquire_page_wait_async`, `acquire_page_try_wait_async` and
-- `release_page`, while the prefetch and window counters are 0. Every shared access is one step.
pub mod Counts
use generic_asynchronous_io.Prelude.{
  ℕ, ◌+◌, ◌-◌, ◌*◌, ◌%◌, ◌^◌, ◌≤◌, ◌<◌, ◌≡◌, ◌≢◌, Bool, true, false, ◌&&◌, ◌==◌, bit_and, bit_or,
  bit_xor, u32, sub32, update,
}
use generic_asynchronous_io.PageState.{busy, dirty, disable_busy_enable_valid, st, nv_nb, v_nb}
use generic_asynchronous_io.CtxLookup.{nv_b, async_page_trans_pending}

-- The fields of `data_page_t` that change.
pub record Page : Type 0 where
  pub state : ℕ
  pub ref_count : ℕ
  pub polling_flag : ℕ
  pub offset : ℕ

-- Where a thread stands, with its `count`, `write` and `ctx.page_trans`; `own` is true where it has
-- submitted the command itself.
pub data Pc : Type 0 where
  outside : Pc
  -- `acquire_page_submit_async`
  counting : (count : ℕ) (write : Bool) (read_state : ℕ) → Pc  -- the add to `ref_count`
  looking : (count : ℕ) (write : Bool) (read_state : ℕ) → Pc  -- the `switch`
  reloading : (count : ℕ) (write : Bool) → Pc  -- the load at the end of the loop
  claiming : (count : ℕ) (write : Bool) → Pc  -- the `fetch_or` of `BUSY`
  clearing : (count : ℕ) → Pc  -- `polling_flag.store(0)`
  marking : (count : ℕ) → Pc  -- `offset = ASYNC_PAGE_TRANS_PENDING`
  assigning : (count : ℕ) → Pc  -- `find_slot` and the store of `offset`
  sending : (count page_trans : ℕ) → Pc  -- `read_data_submit_async`
  dirtying : (count : ℕ) → Pc  -- a hit that writes
  hit : (count : ℕ) → Pc  -- the load of `offset`
  following : (count : ℕ) → Pc  -- the loop of the case `NV_B`
  -- Between submission and wait.
  waiting : (count : ℕ) (own : Bool) (page_trans : ℕ) → Pc
  -- `acquire_page_wait_async` and `acquire_page_try_wait_async`
  polling : (count : ℕ) (own : Bool) (page_trans : ℕ) (write : Bool) (read_state : ℕ) → Pc
  unflagging : (count : ℕ) (write : Bool) (read_state : ℕ) → Pc  -- the case `V_NB`
  electing : (count : ℕ) (own : Bool) (page_trans : ℕ) (write : Bool) → Pc  -- the exchange
  rechecking : (count : ℕ) (own : Bool) (page_trans : ℕ) → Pc  -- the load after a lost exchange
  completing : (count : ℕ) (own : Bool) (page_trans : ℕ) (write : Bool) → Pc  -- the flag is won
  finishing : (count page_trans : ℕ) (write : Bool) → Pc  -- the test of `write`
  flipping : (count page_trans : ℕ) → Pc  -- the `fetch_xor`
  unlocking : (count page_trans : ℕ) → Pc  -- the last store of `polling_flag`
  -- Until `release_page`.
  resolved : (count page_trans : ℕ) → Pc
  subtracting : (count : ℕ) → Pc  -- the `fetch_sub` on `ref_count`

-- `acquire_page_submit_async`
pub data Submit (m : Page) : Pc → Page → Pc → Type 0 where
  enter :
      (count : ℕ) (write : Bool)
      → 1 ≤ count
      → count ≤ 32
      → Submit m outside (record m { state = u32 (m.state + count) }) (counting count write m.state)
  count_ref :
      {n : ℕ} {w : Bool} {r : ℕ}
      → Submit m (counting n w r) (record m { ref_count = u32 (m.ref_count + n) }) (looking n w r)
  miss : {n : ℕ} {w : Bool} {r : ℕ} → st r ≡ nv_nb → Submit m (looking n w r) m (claiming n w)
  hit_dirty :
      {n : ℕ} {w : Bool} {r : ℕ}
      → st r ≡ v_nb
      → (w && (bit_and r dirty == 0)) ≡ true
      → Submit m (looking n w r) m (dirtying n)
  hit_clean :
      {n : ℕ} {w : Bool} {r : ℕ}
      → st r ≡ v_nb
      → (w && (bit_and r dirty == 0)) ≡ false
      → Submit m (looking n w r) m (hit n)
  in_flight : {n : ℕ} {w : Bool} {r : ℕ} → st r ≡ nv_b → Submit m (looking n w r) m (following n)
  spin :
      {n : ℕ} {w : Bool} {r : ℕ}
      → st r ≢ nv_nb
      → st r ≢ v_nb
      → st r ≢ nv_b
      → Submit m (looking n w r) m (reloading n w)
  reload : {n : ℕ} {w : Bool} → Submit m (reloading n w) m (looking n w m.state)
  claim_won :
      {n : ℕ} {w : Bool}
      → bit_and m.state busy ≡ 0
      → Submit m (claiming n w) (record m { state = bit_or m.state busy }) (clearing n)
  claim_lost :
      {n : ℕ} {w : Bool}
      → bit_and m.state busy ≢ 0
      → Submit m (claiming n w) (record m { state = bit_or m.state busy }) (reloading n w)
  clear_flag : {n : ℕ} → Submit m (clearing n) (record m { polling_flag = 0 }) (marking n)
  mark_pending :
      {n : ℕ} → Submit m (marking n) (record m { offset = async_page_trans_pending }) (assigning n)
  assign :
      {n : ℕ} (page_trans : ℕ)
      → Submit m (assigning n) (record m { offset = page_trans }) (sending n page_trans)
  send : {n t : ℕ} → Submit m (sending n t) m (waiting n true t)
  set_dirty : {n : ℕ} → Submit m (dirtying n) (record m { state = bit_or m.state dirty }) (hit n)
  load_offset : {n : ℕ} → Submit m (hit n) m (resolved n m.offset)
  -- Once the slot is known; its translation is not modelled.
  follow :
      {n : ℕ}
      → m.offset ≢ async_page_trans_pending
      → Submit m (following n) m (waiting n false m.offset)

-- `acquire_page_wait_async` and `acquire_page_try_wait_async`, up to the exchange.
pub data Wait (m : Page) : Pc → Page → Pc → Type 0 where
  wait :
      {n t : ℕ} {own : Bool} (write : Bool)
      → Wait m (waiting n own t) m (polling n own t write m.state)
  -- The one waits on, the other returns false.
  wait_more :
      {n t r : ℕ} {own w : Bool}
      → st r ≢ v_nb
      → st r ≢ nv_b
      → Wait m (polling n own t w r) m (waiting n own t)
  wait_valid :
      {n t r : ℕ} {own w : Bool} → st r ≡ v_nb → Wait m (polling n own t w r) m (unflagging n w r)
  unflag_dirty :
      {n r : ℕ} {w : Bool}
      → (w && (bit_and r dirty == 0)) ≡ true
      → Wait m (unflagging n w r) (record m { polling_flag = 0 }) (dirtying n)
  unflag_clean :
      {n r : ℕ} {w : Bool}
      → (w && (bit_and r dirty == 0)) ≡ false
      → Wait m (unflagging n w r) (record m { polling_flag = 0 }) (hit n)
  wait_busy :
      {n t r : ℕ} {own w : Bool} → st r ≡ nv_b → Wait m (polling n own t w r) m (electing n own t w)

-- From the exchange of `polling_flag` on. Any poll may find a completion: `complete` does not ask
-- for the command of `ctx.cid`.
pub data Poll (m : Page) : Pc → Page → Pc → Type 0 where
  elected :
      {n t : ℕ} {own w : Bool}
      → m.polling_flag ≡ 0
      → Poll m (electing n own t w) (record m { polling_flag = 1 }) (completing n own t w)
  -- `acquire_page_wait_async`
  wait_on :
      {n t : ℕ} {own w : Bool}
      → m.polling_flag ≢ 0
      → Poll m (electing n own t w) m (waiting n own t)
  -- `acquire_page_try_wait_async`
  not_elected :
      {n t : ℕ} {own w : Bool}
      → m.polling_flag ≢ 0
      → Poll m (electing n own t w) m (rechecking n own t)
  recheck_valid : {n t : ℕ} {own : Bool} → st m.state ≡ v_nb → Poll m (rechecking n own t) m (hit n)
  recheck_failed :
      {n t : ℕ} {own : Bool} → st m.state ≢ v_nb → Poll m (rechecking n own t) m (waiting n own t)
  not_complete :
      {n t : ℕ} {own w : Bool}
      → Poll m (completing n own t w) (record m { polling_flag = 0 }) (waiting n own t)
  complete :
      {n t : ℕ} {own w : Bool}
      → Poll m (completing n own t w) (record m { offset = t }) (finishing n t w)
  finish_write :
      {n t : ℕ}
      → Poll m (finishing n t true) (record m { state = bit_or m.state dirty }) (flipping n t)
  finish_read : {n t : ℕ} → Poll m (finishing n t false) m (flipping n t)
  flip :
      {n t : ℕ}
      → Poll m
          (flipping n t)
          (record m { state = bit_xor m.state disable_busy_enable_valid })
          (unlocking n t)
  unlock : {n t : ℕ} → Poll m (unlocking n t) (record m { polling_flag = 0 }) (resolved n t)

pub data Move (m : Page) : Pc → Page → Pc → Type 0 where
  submit : {p p' : Pc} {m' : Page} → Submit m p m' p' → Move m p m' p'
  awaiting : {p p' : Pc} {m' : Page} → Wait m p m' p' → Move m p m' p'
  poll : {p p' : Pc} {m' : Page} → Poll m p m' p' → Move m p m' p'
  -- `release_page(pg, count)`: first the state, then `ref_count`.
  release : {n t : ℕ} → Move m (resolved n t) (record m { state = sub32 m.state n }) (subtracting n)
  release_ref :
      {n : ℕ} → Move m (subtracting n) (record m { ref_count = sub32 m.ref_count n }) outside

-- The first `threads` of them may run.
pub record System : Type 0 where
  pub page : Page
  pub pc : ℕ → Pc

pub data Step (threads : ℕ) (s : System) : System → Type 0 where
  step :
      (i : ℕ) {m : Page} {p : Pc}
      → i < threads
      → Move s.page (s.pc i) m p
      → Step threads s (record { page = m; pc = update s.pc i p })

abbrev pub initial : System
initial = record {
  page = record { state = 0; ref_count = 0; polling_flag = 0; offset = 0 };
  pc = λ _. outside;
}

pub data Reach (threads : ℕ) : System → Type 0 where
  start : Reach threads initial
  later : {s t : System} → Reach threads s → Step threads s t → Reach threads t
