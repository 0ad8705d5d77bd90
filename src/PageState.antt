-- ===== src/PageState.antt =====
-- bam/include/page_cache.h: the state word of one page of a range under `acquire_page`,
-- `release_page` and the eviction in `find_slot`, while the prefetch and window counters are 0, so
-- that `p_count` and `tc` are 0. Every shared access is one step.
pub mod Flags
pub mod Owners
pub mod Safety
use generic_asynchronous_io.Prelude.{
  ℕ, ◌+◌, ◌-◌, ◌*◌, ◌/◌, ◌%◌, ◌^◌, ◌≤◌, ◌<◌, ◌≡◌, ◌≢◌, Bool, true, false, not, ◌&&◌, ◌==◌,
  if◌then◌else◌, bit_and, bit_or, bit_xor, u32, sub32, ◌>>>◌, update,
}

abbrev pub valid : ℕ
valid = 0x8000_0000

abbrev pub busy : ℕ
busy = 0x4000_0000

abbrev pub dirty : ℕ
dirty = 0x2000_0000

abbrev pub cnt_mask : ℕ
cnt_mask = 0x1fff_ffff

abbrev pub disable_busy_enable_valid : ℕ
disable_busy_enable_valid = 0xc000_0000

abbrev pub disable_busy_mask : ℕ
disable_busy_mask = 0xbfff_ffff

-- `(read_state >> (CNT_SHIFT + 1)) & 0x03`
unfoldable pub st : ℕ → ℕ
st read_state = bit_and (read_state >>> 30) 0x03

abbrev pub nv_nb : ℕ
nv_nb = 0

abbrev pub v_nb : ℕ
v_nb = 2

-- The fields of `data_page_t` that change.
pub record Page : Type 0 where
  pub state : ℕ
  pub ref_count : ℕ
  pub offset : ℕ

-- Where a thread stands in `acquire_page`, with its `count` and `write`; then between
-- `acquire_page` and `release_page`; and in `find_slot`, where it has drawn the cache slot of this
-- page for another.
pub data Pc : Type 0 where
  outside : Pc
  looking : (count : ℕ) (write : Bool) (read_state : ℕ) → Pc  -- the `switch`
  reloading : (count : ℕ) (write : Bool) → Pc  -- the load at the end of the loop
  claiming : (count : ℕ) (write : Bool) → Pc  -- the `fetch_or` of `BUSY`
  loading : (count : ℕ) (write : Bool) → Pc  -- `find_slot` and `read_data`
  loaded : (count : ℕ) (write : Bool) (page_trans : ℕ) → Pc  -- the test of `write`
  flipping : (count page_trans : ℕ) → Pc  -- the `fetch_xor`
  dirtying : (count : ℕ) → Pc  -- a hit that writes
  hit : (count : ℕ) → Pc  -- the load of `offset`
  holding : (count page_trans : ℕ) → Pc
  evicting : Pc  -- the `fetch_or` of `BUSY`
  writing : Pc  -- `write_data`, then the `fetch_and` of `CNT_MASK`
  undoing : Pc  -- the `fetch_and` of `DISABLE_BUSY_MASK`

-- `release_page(pg)` and `release_page(pg, count)`; no step looks at `ref_count`, so that its
-- subtraction is one step with that of the state, which comes first.
pub data Release (m : Page) : Pc → Page → Pc → Type 0 where
  release_one : {t : ℕ} → Release m (holding 1 t) (record m { state = sub32 m.state 1 }) outside
  release :
      {n t : ℕ}
      → Release m
          (holding n t)
          (record m { state = sub32 m.state n; ref_count = sub32 m.ref_count n })
          outside

-- The eviction in `find_slot`.
pub data Evict (m : Page) : Pc → Page → Pc → Type 0 where
  evict : bit_and m.state cnt_mask ≡ 0 → bit_and m.state busy ≡ 0 → Evict m outside m evicting
  evict_won :
      bit_and m.state busy ≡ 0
      → bit_and m.state cnt_mask ≡ 0
      → Evict m evicting (record m { state = bit_or m.state busy }) writing
  evict_used :
      bit_and m.state busy ≡ 0
      → bit_and m.state cnt_mask ≢ 0
      → Evict m evicting (record m { state = bit_or m.state busy }) undoing
  evict_lost :
      bit_and m.state busy ≢ 0 → Evict m evicting (record m { state = bit_or m.state busy }) outside
  evicted : Evict m writing (record m { state = bit_and m.state cnt_mask }) outside
  undo : Evict m undoing (record m { state = bit_and m.state disable_busy_mask }) outside

-- `acquire_page`, and the other two.
pub data Move (m : Page) : Pc → Page → Pc → Type 0 where
  -- `count` threads of a warp acquire together.
  enter :
      (count : ℕ) (write : Bool)
      → 1 ≤ count
      → count ≤ 32
      → Move m outside (record m { state = u32 (m.state + count) }) (looking count write m.state)
  miss : {n : ℕ} {w : Bool} {r : ℕ} → st r ≡ nv_nb → Move m (looking n w r) m (claiming n w)
  hit_dirty :
      {n : ℕ} {w : Bool} {r : ℕ}
      → st r ≡ v_nb
      → (w && (bit_and r dirty == 0)) ≡ true
      → Move m (looking n w r) m (dirtying n)
  hit_clean :
      {n : ℕ} {w : Bool} {r : ℕ}
      → st r ≡ v_nb
      → (w && (bit_and r dirty == 0)) ≡ false
      → Move m (looking n w r) m (hit n)
  spin :
      {n : ℕ} {w : Bool} {r : ℕ}
      → st r ≢ nv_nb
      → st r ≢ v_nb
      → Move m (looking n w r) m (reloading n w)
  reload : {n : ℕ} {w : Bool} → Move m (reloading n w) m (looking n w m.state)
  claim_won :
      {n : ℕ} {w : Bool}
      → bit_and m.state busy ≡ 0
      → Move m (claiming n w) (record m { state = bit_or m.state busy }) (loading n w)
  claim_lost :
      {n : ℕ} {w : Bool}
      → bit_and m.state busy ≢ 0
      → Move m (claiming n w) (record m { state = bit_or m.state busy }) (reloading n w)
  store_offset :
      {n : ℕ} {w : Bool} (page_trans : ℕ)
      → Move m (loading n w) (record m { offset = page_trans }) (loaded n w page_trans)
  loaded_write :
      {n t : ℕ}
      → Move m (loaded n true t) (record m { state = bit_or m.state dirty }) (flipping n t)
  loaded_read : {n t : ℕ} → Move m (loaded n false t) m (flipping n t)
  flip :
      {n t : ℕ}
      → Move m
          (flipping n t)
          (record m { state = bit_xor m.state disable_busy_enable_valid })
          (holding n t)
  set_dirty : {n : ℕ} → Move m (dirtying n) (record m { state = bit_or m.state dirty }) (hit n)
  load_offset : {n : ℕ} → Move m (hit n) m (holding n m.offset)
  releasing : {p p' : Pc} {m' : Page} → Release m p m' p' → Move m p m' p'
  eviction : {p p' : Pc} {m' : Page} → Evict m p m' p' → Move m p m' p'

-- The first `threads` of them may run.
pub record System : Type 0 where
  pub page : Page
  pub pc : ℕ → Pc

pub data Step (threads : ℕ) (s : System) : System → Type 0 where
  step :
      (i : ℕ) {m : Page} {p : Pc}
      → i < threads
      → Move s.page (s.pc i) m p
      → Step threads s (record { page = m; pc = update s.pc i p })

abbrev pub initial : System
initial = record { page = record { state = 0; ref_count = 0; offset = 0 }; pc = λ _. outside }

pub data Reach (threads : ℕ) : System → Type 0 where
  start : Reach threads initial
  later : {s t : System} → Reach threads s → Step threads s t → Reach threads t
