-- ===== src/CacheSlots.antt =====
-- bam/include/page_cache.h: how `find_slot` gives the slots of the page cache to the pages, while
-- other threads are in `acquire_page`, `release_page` and `find_slot` on any pages. Every shared
-- access is one step. What `acquire_page` and `release_page` do to the fields of a page is
-- PageState. A page is known by its global address, which Address takes apart.
pub mod Seen
pub mod Project
pub mod Claims
pub mod PageStep
pub mod Locks
pub mod Others
pub mod Threads
pub mod Back
pub mod Invariant
pub mod Safety
use generic_asynchronous_io.Prelude.{
  ℕ, ◌+◌, ◌%◌, ◌<◌, ◌≡◌, ◌≢◌, ◌⊎◌, Bool, true, false, bit_and, u32, update,
}
use generic_asynchronous_io.PageState
use generic_asynchronous_io.PageState.{Page, Evict, cnt_mask, busy}

-- The values of `page_take_lock`.
abbrev pub unlocked : ℕ
unlocked = 0

abbrev pub locked : ℕ
locked = 1

abbrev pub free : ℕ
free = 2

-- The pages of all ranges, and `page_take_lock` and `page_translation` of `cache_page_t`.
pub record Cache : Type 0 where
  pub pages : ℕ → Page
  pub page_take_lock : ℕ → ℕ
  pub page_translation : ℕ → ℕ
  pub page_ticket : ℕ

-- Where a thread stands in `find_slot`, at slot `slot`.
pub data Find : Type 0 where
  drawing : Find  -- the `fetch_add` on `page_ticket`
  testing : (slot : ℕ) → Find  -- the load of `page_take_lock`
  locking : (slot v : ℕ) → Find  -- the compare-exchange
  peeking : (slot : ℕ) → Find  -- the load of `page_translation`
  -- At the page `victim` that has the slot: before the load of its state in `outside`, then where
  -- PageState has it.
  ousting : (slot victim : ℕ) (e : PageState.Pc) → Find
  assigning : (slot : ℕ) → Find  -- the store of `page_translation`
  unlocking : (slot : ℕ) (found : Bool) → Find  -- the store of `UNLOCKED`
  found : (slot : ℕ) → Find  -- `find_slot` has returned; `read_data`

-- A thread that acquires `page`, holds it or has released it; or that runs `find_slot` for it,
-- called in `acquire_page` with `count` and `write`.
pub data Pc : Type 0 where
  on : (page : ℕ) (x : PageState.Pc) → Pc
  finding : (page count : ℕ) (write : Bool) (f : Find) → Pc

-- A move of PageState that is not one of `find_slot`, nor the store of the slot that it returns.
abbrev pub acquires : PageState.Pc → PageState.Pc → Bool
acquires (PageState.loading _ _) _ = false
acquires PageState.evicting _ = false
acquires PageState.writing _ = false
acquires PageState.undoing _ = false
acquires _ PageState.evicting = false
acquires _ _ = true

abbrev pub with_page : Cache → ℕ → Page → Cache
with_page m page p = record m { pages = update m.pages page p }

abbrev pub with_lock : Cache → ℕ → ℕ → Cache
with_lock m slot v = record m { page_take_lock = update m.page_take_lock slot v }

-- The round of `find_slot`, up to the lock of a slot, and its ends.
pub data Search (n_pages : ℕ) (m : Cache) (page : ℕ) : Find → Cache → Find → Type 0 where
  draw :
      Search n_pages m page drawing
        (record m { page_ticket = u32 (m.page_ticket + 1) })
        (testing (m.page_ticket % n_pages))
  see :
      {s : ℕ}
      → m.page_take_lock s ≢ locked
      → Search n_pages m page (testing s) m (locking s (m.page_take_lock s))
  see_locked : {s : ℕ} → m.page_take_lock s ≡ locked → Search n_pages m page (testing s) m drawing
  -- `compare_exchange_weak` may fail in any state.
  lock_lost : {s v : ℕ} → Search n_pages m page (locking s v) m drawing
  lock_free :
      {s v : ℕ}
      → m.page_take_lock s ≡ v
      → v ≡ free
      → Search n_pages m page (locking s v) (with_lock m s locked) (assigning s)
  lock_taken :
      {s v : ℕ}
      → m.page_take_lock s ≡ v
      → v ≡ unlocked
      → Search n_pages m page (locking s v) (with_lock m s locked) (peeking s)
  peek :
      {s : ℕ}
      → Search n_pages m page (peeking s) m (ousting s (m.page_translation s) PageState.outside)
  assign :
      {s : ℕ}
      → Search n_pages m page
          (assigning s)
          (record m { page_translation = update m.page_translation s page })
          (unlocking s true)
  unlock_found :
      {s : ℕ} → Search n_pages m page (unlocking s true) (with_lock m s unlocked) (found s)
  unlock_failed :
      {s : ℕ} → Search n_pages m page (unlocking s false) (with_lock m s unlocked) drawing

-- What `find_slot` does to the page that has the slot.
pub data Oust (m : Cache) : Find → Cache → Find → Type 0 where
  used :
      {s p : ℕ}
      → (bit_and (m.pages p).state cnt_mask ≢ 0) ⊎ (bit_and (m.pages p).state busy ≢ 0)
      → Oust m (ousting s p PageState.outside) m (unlocking s false)
  go_on :
      {s p : ℕ} {e e' : PageState.Pc} {q : Page}
      → Evict (m.pages p) e q e'
      → e' ≢ PageState.outside
      → Oust m (ousting s p e) (with_page m p q) (ousting s p e')
  -- After `DISABLE_BUSY_MASK`, or another thread has set `BUSY`.
  fail :
      {s p : ℕ} {e : PageState.Pc} {q : Page}
      → Evict (m.pages p) e q PageState.outside
      → e ≢ PageState.writing
      → Oust m (ousting s p e) (with_page m p q) (unlocking s false)
  -- After `CNT_MASK`.
  oust :
      {s p : ℕ} {e : PageState.Pc} {q : Page}
      → Evict (m.pages p) e q PageState.outside
      → e ≡ PageState.writing
      → Oust m (ousting s p e) (with_page m p q) (assigning s)

pub data Move (n_pages : ℕ) (m : Cache) : Pc → Cache → Pc → Type 0 where
  turn : {p q : ℕ} → Move n_pages m (on p PageState.outside) m (on q PageState.outside)
  access :
      {page : ℕ} {x x' : PageState.Pc} {q : Page}
      → PageState.Move (m.pages page) x q x'
      → acquires x x' ≡ true
      → Move n_pages m (on page x) (with_page m page q) (on page x')
  call :
      {page n : ℕ} {w : Bool}
      → Move n_pages m (on page (PageState.loading n w)) m (finding page n w drawing)
  search :
      {page n : ℕ} {w : Bool} {f f' : Find} {m' : Cache}
      → Search n_pages m page f m' f'
      → Move n_pages m (finding page n w f) m' (finding page n w f')
  evict :
      {page n : ℕ} {w : Bool} {f f' : Find} {m' : Cache}
      → Oust m f m' f'
      → Move n_pages m (finding page n w f) m' (finding page n w f')
  -- `pages[index].offset = page_trans`
  settle :
      {page n s : ℕ} {w : Bool}
      → Move n_pages m
          (finding page n w (found s))
          (with_page m page (record (m.pages page) { offset = s }))
          (on page (PageState.loaded n w s))

-- The first `threads` of them may run.
pub record System : Type 0 where
  pub cache : Cache
  pub pc : ℕ → Pc

pub data Step (n_pages threads : ℕ) (s : System) : System → Type 0 where
  step :
      (i : ℕ) {m : Cache} {p : Pc}
      → i < threads
      → Move n_pages s.cache (s.pc i) m p
      → Step n_pages threads s (record { cache = m; pc = update s.pc i p })

-- As the constructor of `page_cache_t` leaves the cache.
abbrev pub initial : System
initial = record {
  cache = record {
    pages = λ _. record { state = 0; ref_count = 0; offset = 0 };
    page_take_lock = λ _. free;
    page_translation = λ _. 0;
    page_ticket = 0;
  };
  pc = λ _. on 0 PageState.outside;
}

pub data Reach (n_pages threads : ℕ) : System → Type 0 where
  start : Reach n_pages threads initial
  later :
      {s t : System} → Reach n_pages threads s → Step n_pages threads s t → Reach n_pages threads t
