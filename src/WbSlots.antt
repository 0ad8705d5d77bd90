-- ===== src/WbSlots.antt =====
-- bam/include/page_cache.h, `wb_find_slot` and `wb_find_slot_cpu_agg`: how a slot of the cache is
-- found where evicted pages that will be used again are handed over to the CPU, in one thread while
-- no other moves.
pub mod Within
pub mod Queues
pub mod Writes
pub mod Placed
pub mod Rounds
pub mod Found
pub mod Returns
use generic_asynchronous_io.Prelude.{
  ℕ, zero, suc, ◌+◌, ◌-◌, ◌*◌, ◌/◌, ◌%◌, ◌^◌, Bool, true, false, not, ◌&&◌, ◌==◌, ltb, leb,
  if◌then◌else◌, Option, none, some, List, [], ◌∷◌, ◌++◌, bit_and, bit_or, u32, u64, ◌<<<◌, ◌>>>◌,
  update,
}
use generic_asynchronous_io.Placement.{DataDist, get_backing_page, get_backing_ctrl, all_ctrls}
use generic_asynchronous_io.PageState.{busy, dirty, cnt_mask, disable_busy_mask}
use generic_asynchronous_io.CacheSlots.{free, locked, unlocked}
use generic_asynchronous_io.Address.{previous_range, previous_address, get_global_address}

-- The arguments that do not change, and the fields of `page_cache_d_t` that do not.
pub record Params : Type 0 where
  pub n_pages : ℕ
  pub max_range : ℕ
  pub n_ctrls : ℕ
  pub n_blocks_per_page : ℕ
  pub ranges_dists : ℕ → DataDist
  pub ranges_page_starts : ℕ → ℕ
  pub cpu_agg_queue_depth : ℕ
  pub wb_depth : ℕ
  pub q_depth : ℕ
  pub time_step : ℕ
  pub head_ptr : ℕ

-- A call of `write_data`: the controller, the block and the slot.
pub record Write : Type 0 where
  pub ctrl : ℕ
  pub starting_lba : ℕ
  pub pc_entry : ℕ

-- The rest, with the writes so far. A page has its state at its range and address.
pub record WbCache : Type 0 where
  pub page_ticket : ℕ
  pub page_take_lock : ℕ → ℕ
  pub page_translation : ℕ → ℕ
  pub next_reuse : ℕ → ℕ
  pub reuse_chunk : ℕ → ℕ → ℕ
  pub state : ℕ → ℕ → ℕ
  pub wb_queue_counter : ℕ → ℕ
  pub id_array : ℕ → ℕ
  pub evict_cpu : ℕ
  pub queue_idx : ℕ
  pub queue_reuse : ℕ
  pub evict_time : ℕ
  pub cpu_agg_queue_counter : ℕ → ℕ
  pub cpu_agg_meta_queue : ℕ → ℕ
  pub cpu_agg_loc_queue : ℕ → ℕ
  pub writes : List Write

-- `no_reuse`
abbrev pub never : ℕ
never = 0xffff_0000_0000_0000

abbrev pub id_mask : ℕ
id_mask = 0x0000_ffff_ffff_ffff

abbrev pub with_lock : WbCache → ℕ → ℕ → WbCache
with_lock m page v = record m { page_take_lock = update m.page_take_lock page v }

abbrev pub with_state : WbCache → ℕ → ℕ → ℕ → WbCache
with_state m range address w = record m {
  state = update m.state range (update (m.state range) address w);
}

-- A write to each controller below `n`, the first one first.
unfoldable pub all_writes : (n lba page : ℕ) → List Write
all_writes zero lba page = []
all_writes (suc n) lba page =
    all_writes n lba page ++ record { ctrl = n; starting_lba = lba; pc_entry = page } ∷ []

module _ (p : Params) where
  -- The writes of a dirty page at slot `page`.
  unfoldable pub page_writes : (page range address : ℕ) → List Write
  unfolding all_writes
  page_writes page range address =
      let ctrl = get_backing_ctrl address p.n_ctrls (p.ranges_dists range) in
      let index =
        get_backing_page (p.ranges_page_starts range) address p.n_ctrls (p.ranges_dists range) in
      let lba = u64 (index * p.n_blocks_per_page) in
      if ctrl == all_ctrls
      then all_writes p.n_ctrls lba page
      else record { ctrl = ctrl; starting_lba = lba; pc_entry = page } ∷ []

  unfoldable pub write_back : WbCache → (page range address : ℕ) → WbCache
  unfolding page_writes
  write_back m page range address = record m { writes = m.writes ++ page_writes page range address }

  -- `atomicAdd(cpu_agg_queue_counter + sec_head_ptr, 1)`, and the entry where there is room.
  unfoldable pub agg_entry : WbCache → (sec_head_ptr memcpy_ptr loc : ℕ) → WbCache
  agg_entry m sec_head_ptr memcpy_ptr loc =
      let counter = m.cpu_agg_queue_counter sec_head_ptr in
      let counted = record m {
        cpu_agg_queue_counter = update m.cpu_agg_queue_counter sec_head_ptr (u32 (counter + 1));
      } in
      let at = u32 (counter + u32 (p.cpu_agg_queue_depth * sec_head_ptr)) in
      let queued = record counted {
        cpu_agg_meta_queue = update m.cpu_agg_meta_queue at memcpy_ptr;
        cpu_agg_loc_queue = update m.cpu_agg_loc_queue at loc;
      } in
      if ltb counter p.cpu_agg_queue_depth then queued else counted

  -- One chunk of the page in `wb_find_slot_cpu_agg`.
  unfoldable pub agg_sec : WbCache → (page reuse_val sec : ℕ) → WbCache
  unfolding agg_entry
  agg_sec m page reuse_val sec =
      let reuse_sec = m.reuse_chunk page sec in
      let reuse_sec_val = reuse_sec >>> 48 in
      let sec_head_ptr = u32 (u64 (reuse_sec_val + p.head_ptr) % p.wb_depth) in
      let memcpy_ptr =
        bit_or (u64 (u64 (reuse_val + 2 ^ 64 - reuse_sec_val) <<< 48))
          (bit_and m.queue_idx id_mask) in
      if reuse_sec_val == reuse_val
      then m
      else if ltb reuse_sec_val 65535
      then agg_entry m sec_head_ptr memcpy_ptr (bit_and reuse_sec id_mask)
      else m

  -- The chunks from `sec` on, `left` of them.
  unfoldable pub agg_from : (left : ℕ) → WbCache → (page reuse_val sec : ℕ) → WbCache
  unfolding agg_sec
  agg_from zero m page reuse_val sec = m
  agg_from (suc left) m page reuse_val sec =
      agg_from left (agg_sec m page reuse_val sec) page reuse_val (suc sec)

  -- What `wb_find_slot_cpu_agg` does beyond `wb_find_slot`, where `agg` is true: the chunks of a
  -- page that is handed over, and those of a slot that is assigned.
  unfoldable pub agg_chunks : Bool → WbCache → (page reuse_val : ℕ) → WbCache
  unfolding agg_from
  agg_chunks agg m page reuse_val = if agg then agg_from 8 m page reuse_val 0 else m

  abbrev pub chunks_unused : WbCache → (page : ℕ) → WbCache
  chunks_unused m page = record m {
    reuse_chunk = update m.reuse_chunk page (λ j. if ltb j 8 then never else m.reuse_chunk page j);
  }

  unfoldable pub reset_chunks : Bool → WbCache → (page : ℕ) → WbCache
  reset_chunks agg m page = if agg then chunks_unused m page else m

  unfoldable pub cur_head : (reuse_val : ℕ) → ℕ
  cur_head reuse_val =
      let evict_t = u32 (u64 (reuse_val + p.wb_depth + 2 ^ 64 - p.time_step)) in
      u32 (evict_t + p.head_ptr) % p.wb_depth

  -- `atomicAdd(wb_queue_counter + cur_head, 1)`
  abbrev pub counted : WbCache → (cur_head reuse_full : ℕ) → WbCache
  counted m head reuse_full = record m {
    wb_queue_counter = update m.wb_queue_counter head (u32 (m.wb_queue_counter head + 1));
    evict_time = u32 (reuse_full >>> 48);
  }

  abbrev pub queued : WbCache → (cur_head reuse_full : ℕ) → WbCache
  queued m head reuse_full = record (counted m head reuse_full) {
    evict_cpu = 1;
    queue_idx = m.wb_queue_counter head;
    queue_reuse = head;
    id_array =
        update m.id_array (u32 (m.wb_queue_counter head + u32 (p.q_depth * head)))
          (bit_and reuse_full id_mask);
  }

  -- The entry in the queue, where there is room.
  unfoldable pub id_entry : Bool → WbCache → (page cur_head reuse_full : ℕ) → WbCache
  unfolding agg_chunks
  id_entry agg m page head reuse_full =
      if ltb (m.wb_queue_counter head) p.q_depth
      then agg_chunks agg (queued m head reuse_full) page (reuse_full >>> 48)
      else counted m head reuse_full

  -- The page in slot `page` will be used again where its `next_reuse` says so.
  unfoldable pub hand_over : Bool → WbCache → (page : ℕ) → WbCache
  unfolding cur_head id_entry
  hand_over agg m page =
      let reuse_full = m.next_reuse page in
      if ltb (reuse_full >>> 48) 65535
      then id_entry agg m page (cur_head (reuse_full >>> 48)) reuse_full
      else m

  -- The slot goes to the page `global_address`, and its lock is opened.
  unfoldable pub assign : Bool → WbCache → (page global_address : ℕ) → WbCache
  unfolding reset_chunks
  assign agg m page global_address =
      let m1 = reset_chunks agg m page in
      with_lock
        (record m1 {
          next_reuse = update m1.next_reuse page never;
          page_translation = update m1.page_translation page global_address;
        })
        page unlocked

  -- The page that has the slot is neither used nor busy, and `BUSY` has just been set.
  unfoldable pub evict :
      Bool → (prior : Bool) → WbCache → (page global_address : ℕ) → Option ℕ × WbCache
  unfolding write_back hand_over assign
  evict agg prior m page global_address =
      let range = previous_range p.max_range (m.page_translation page) in
      let address = previous_address p.max_range (m.page_translation page) in
      let old = m.state range address in
      let set = with_state m range address (bit_or old busy) in
      let m1 = if bit_and old dirty == 0 then set else write_back set page range address in
      let keep =
        with_lock (with_state m1 range address (bit_and (bit_or old busy) disable_busy_mask)) page
          unlocked in
      let m2 = hand_over agg m1 page in
      let gone =
        assign agg (with_state m2 range address (bit_and (bit_or old busy) cnt_mask)) page
          global_address in
      if ltb (m.next_reuse page >>> 48) 16 && prior then (none, keep) else (some page, gone)

  -- One round of the loop, up to `while (fail)`.
  unfoldable pub round : Bool → (prior : Bool) → WbCache → (global_address : ℕ) → Option ℕ × WbCache
  unfolding evict assign
  round agg prior m global_address =
      let page = m.page_ticket % p.n_pages in
      let m1 = record m { page_ticket = u32 (m.page_ticket + 1) } in
      let m2 = with_lock m1 page locked in
      let range = previous_range p.max_range (m.page_translation page) in
      let address = previous_address p.max_range (m.page_translation page) in
      let old = m.state range address in
      if m.page_take_lock page == free
      then (some page, assign agg m2 page global_address)
      else if m.page_take_lock page == unlocked
      then if (bit_and old cnt_mask == 0) && (bit_and old busy == 0)
        then evict agg prior m2 page global_address
        else (none, with_lock m2 page unlocked)
      else (none, m1)

  abbrev pub or_else : Option ℕ × WbCache → Option ℕ × WbCache → Option ℕ × WbCache
  or_else (some page, m) rest = (some page, m)
  or_else (none, m) rest = rest

  -- The loop from its round `iter_count` on, with `evict_prior` as the round before left it.
  unfoldable pub find_from :
      Bool
      → (fuel iter_count : ℕ) (evict_prior : Bool) → WbCache
      → (global_address : ℕ) → Option ℕ × WbCache
  unfolding round
  find_from agg zero iter_count evict_prior m global_address = (none, m)
  find_from agg (suc fuel) iter_count evict_prior m global_address =
      let prior = if leb (p.n_pages / 4) iter_count then false else evict_prior in
      let first = round agg prior m global_address in
      or_else first (find_from agg fuel (u32 (iter_count + 1)) prior first.1 global_address)

  unfoldable pub wb_find_slot : (fuel : ℕ) → WbCache → (address range_id : ℕ) → Option ℕ × WbCache
  unfolding find_from
  wb_find_slot fuel m address range_id =
      find_from false fuel 0 true m (get_global_address p.max_range address range_id)

  unfoldable pub wb_find_slot_cpu_agg :
      (fuel : ℕ) → WbCache → (address range_id : ℕ) → Option ℕ × WbCache
  unfolding find_from
  wb_find_slot_cpu_agg fuel m address range_id =
      find_from true fuel 0 true m (get_global_address p.max_range address range_id)
