-- ===== src/CtxLookup.antt =====
-- gids_module/gids_kernel.cu: the table that leads from a completion on a queue to the context of
-- the row that waits for it, and how a completion ends the load of a page.
pub mod Slots
pub mod Finish
use generic_asynchronous_io.Prelude.{
  ℕ, zero, suc, ◌+◌, ◌-◌, ◌*◌, ◌%◌, ◌^◌, Bool, true, false, not, ◌&&◌, ◌||◌, ◌==◌, ltb, leb,
  if◌then◌else◌, List, [], ◌∷◌, Option, none, some, update, u32, u64, bit_xor,
}
use generic_asynchronous_io.PageState.{st, v_nb, disable_busy_enable_valid}

-- The fields of `s_ctx` that these kernels use; a negative `r` is none.
pub record RowCtx : Type 0 where
  pub r : Option ℕ
  pub count : ℕ
  pub ctrl : ℕ
  pub queue : ℕ
  pub cid : ℕ
  pub has_pending_io : ℕ
  pub page_trans : ℕ
  pub observed_page_translation : ℕ
  pub is_hit : Bool

-- The loop of `register_registered_ctx_lookup_kernel` from a controller on; a controller is the
-- number of its queues, and none where the pointer is null.
unfoldable pub logical_from : List (Option ℕ) → (ctrl logical_queue_idx : ℕ) → Option ℕ
logical_from [] ctrl logical_queue_idx = some logical_queue_idx
logical_from (c ∷ ctrls) zero logical_queue_idx = some logical_queue_idx
logical_from (none ∷ ctrls) (suc ctrl) logical_queue_idx = none
logical_from (some n_qps ∷ ctrls) (suc ctrl) logical_queue_idx =
    logical_from ctrls ctrl (u32 (logical_queue_idx + n_qps))

-- `static_cast<uint64_t>(logical_queue_idx) * cid_capacity + cid`
abbrev pub slot_of : (logical_queue_idx cid_capacity cid : ℕ) → ℕ
slot_of logical_queue_idx cid_capacity cid = u64 (logical_queue_idx * cid_capacity + cid)

abbrev pub slot_below : (cid_capacity cid : ℕ) → Option ℕ → Option ℕ
slot_below cid_capacity cid none = none
slot_below cid_capacity cid (some logical_queue_idx) =
    if leb cid_capacity cid then none else some (slot_of logical_queue_idx cid_capacity cid)

abbrev pub has_range : Option ℕ → Bool
has_range none = false
has_range (some r) = true

-- The slot that one row writes its address to, if any.
unfoldable pub registered_slot : List (Option ℕ) → (cid_capacity : ℕ) → RowCtx → Option ℕ
unfolding logical_from
registered_slot ctrls cid_capacity ctx =
    if not (has_range ctx.r) || (ctx.is_hit || (ctx.has_pending_io == 0))
    then none
    else slot_below cid_capacity ctx.cid (logical_from ctrls ctx.ctrl ctx.queue)

abbrev pub write_slot : (ℕ → ℕ) → ℕ → Option ℕ → ℕ → ℕ
write_slot table address none = table
write_slot table address (some slot) = update table slot address

-- One thread of `register_registered_ctx_lookup_kernel`, for the context at an address.
unfoldable pub register_row :
    List (Option ℕ) → (cid_capacity : ℕ) → (ℕ → ℕ) → RowCtx → (address : ℕ) → ℕ → ℕ
unfolding registered_slot
register_row ctrls cid_capacity ctx_lookup ctx address =
    write_slot ctx_lookup address (registered_slot ctrls cid_capacity ctx)

-- The loop of `service_registered_cq_window_kernel` that finds the queue of a thread.
unfoldable pub locate_from : List (Option ℕ) → (ctrl_idx local_queue_idx : ℕ) → Option (ℕ × ℕ)
locate_from [] ctrl_idx local_queue_idx = none
locate_from (none ∷ ctrls) ctrl_idx local_queue_idx = none
locate_from (some n_qps ∷ ctrls) ctrl_idx local_queue_idx =
    let rest = locate_from ctrls (suc ctrl_idx) (local_queue_idx - n_qps) in
    if ltb local_queue_idx n_qps then some (ctrl_idx, local_queue_idx) else rest

-- What the kernel does with the id of one completion: the context it finds, and the table after.
unfoldable pub take_row : (cid_capacity logical_queue_idx cid : ℕ) → (ℕ → ℕ) → Option ℕ × (ℕ → ℕ)
take_row cid_capacity logical_queue_idx cid ctx_lookup =
    let slot = slot_of logical_queue_idx cid_capacity cid in
    if leb cid_capacity cid
    then (none, ctx_lookup)
    else if ctx_lookup slot == 0
    then (none, ctx_lookup)
    else (some (ctx_lookup slot), update ctx_lookup slot 0)

-- `data_page_t`, and the cache around it.
pub record LoadingPage : Type 0 where
  pub state : ℕ
  pub offset : ℕ
  pub polling_flag : ℕ

pub record CacheView : Type 0 where
  pub n_pages : ℕ
  pub page_translation : ℕ → ℕ  -- of each cache slot

pub record Load : Type 0 where
  pub ctx : RowCtx
  pub page : LoadingPage
  pub miss_cnt : ℕ

abbrev pub nv_b : ℕ
nv_b = 1

abbrev pub async_page_trans_pending : ℕ
async_page_trans_pending = 0xffff_ffff

-- The translation that a context has seen of a cache slot.
unfoldable pub observed : CacheView → (page_trans : ℕ) → ℕ
observed c page_trans =
    if (page_trans == async_page_trans_pending) || leb c.n_pages page_trans
    then 0
    else c.page_translation page_trans

-- The case `V_NB`: another thread has finished the load.
abbrev pub at_valid : CacheView → Load → Load
at_valid c l = record l {
  ctx = record (l.ctx) {
    page_trans = l.page.offset;
    observed_page_translation = observed c l.page.offset;
    is_hit = true;
    has_pending_io = 0;
  };
  page = record (l.page) { polling_flag = 0 };
}

-- The case `NV_B`: this completion finishes the load.
abbrev pub at_busy : CacheView → Load → Load
at_busy c l = record {
  ctx = record (l.ctx) {
    observed_page_translation = observed c l.ctx.page_trans;
    is_hit = true;
    has_pending_io = 0;
  };
  page = record {
    state = bit_xor l.page.state disable_busy_enable_valid;
    offset = l.ctx.page_trans;
    polling_flag = 0;
  };
  miss_cnt = u64 (l.miss_cnt + l.ctx.count);
}

-- `finalize_registered_ctx_completion`
unfoldable pub finalize_registered_ctx_completion : CacheView → Load → Bool × Load
unfolding observed
finalize_registered_ctx_completion c l =
    if l.ctx.is_hit || not (has_range l.ctx.r)
    then (false, l)
    else if st l.page.state == v_nb
    then (true, at_valid c l)
    else if not (st l.page.state == nv_b)
    then (false, l)
    else (true, at_busy c l)

abbrev pub refreshed : CacheView → Load → Load
refreshed c l = record l {
  ctx = record (l.ctx) {
    page_trans = l.page.offset;
    observed_page_translation = c.page_translation l.page.offset;
    is_hit = true;
  };
  page = record (l.page) { polling_flag = 0 };
}

-- `refresh_registered_ctx_from_valid_page`
unfoldable pub refresh_registered_ctx_from_valid_page : CacheView → Load → Bool × Load
refresh_registered_ctx_from_valid_page c l =
    if l.ctx.is_hit || not (has_range l.ctx.r)
    then (l.ctx.is_hit, l)
    else if not (st l.page.state == v_nb)
    then (false, l)
    else if (l.page.offset == async_page_trans_pending) || leb c.n_pages l.page.offset
    then (false, l)
    else (true, refreshed c l)

-- One thread of `check_registered_request_ready_kernel`: whether the row counts as pending.
unfoldable pub row_pending : CacheView → Load → Bool × Load
unfolding refresh_registered_ctx_from_valid_page
row_pending c l =
    let after = (refresh_registered_ctx_from_valid_page c l).1 in
    if l.ctx.is_hit then (false, l) else (not after.ctx.is_hit, after)
