-- ===== src/Registered/Service.antt =====
-- gids_module/gids_nvme.cu: the methods of the registered path, from the submission of a request
-- to gathering its features.
use generic_asynchronous_io.Prelude.{
  ℕ, zero, suc, ◌+◌, ◌*◌, Bool, true, false, not, ◌&&◌, ◌||◌, ◌==◌, ltb, if◌then◌else◌, Option,
  none, some, u32, u64,
}
use generic_asynchronous_io.IoStack.{
  BamIoStack, OutstandingMeta, is_ready, nullptr, register_outstanding, front_ctxs,
  front_outstanding, outstanding_at, outstanding_count, ctxs_at, mark_front_ready,
  front_ready_request_id, refused,
}
use generic_asynchronous_io.Registered.{
  Gpu, FeatureStore, logical_queues, total_ctxs, k_registered_cid_capacity,
  k_registered_front_service_bursts,
}
use generic_asynchronous_io.Registered.Outcome.{
  Error, no_request_to_poll, request_id_mismatch, no_rowctx_to_poll, failed_to_mark_ready,
  failed_to_mark_rowctx_ready, Outcome, returned, thrown, and_then,
}

module _ {G : Type 0} (k : Gpu G) where
  unfoldable pub with_stack : FeatureStore G → BamIoStack → FeatureStore G
  with_stack s q = record s { iostack = q }

  unfoldable pub on_gpu : FeatureStore G → (G → G) → FeatureStore G
  on_gpu s f = record s { gpu = f s.gpu }

  -- The statistics at the end of a method.
  unfoldable pub counted : FeatureStore G → ℕ → FeatureStore G
  counted s num_index = record s { total_access = u64 (s.total_access + num_index) }

  -- `read_feature_submit_async_registered`
  unfoldable pub submit_async_registered :
      FeatureStore G → (index_ptr num_index dim cache_dim key_off : ℕ) → ℕ × FeatureStore G
  unfolding on_gpu counted
  submit_async_registered s index_ptr num_index dim cache_dim key_off =
      let count = total_ctxs s.blk_size num_index in
      let (ctxs, gpu) = k.malloc s.gpu count in
      let (request_id, stack) =
        register_outstanding s.iostack ctxs count index_ptr num_index dim cache_dim key_off 32 in
      let launched = record s {
        iostack = stack;
        gpu = k.submit gpu index_ptr dim num_index cache_dim ctxs;
      } in
      (request_id, counted launched num_index)

  -- `registered_total_logical_queues`, worked out on first use.
  unfoldable pub with_queues : FeatureStore G → FeatureStore G
  with_queues s =
      let s1 = record s { registered_total_logical_queues = logical_queues s.ctrls 0 } in
      if s.registered_total_logical_queues == 0 then s1 else s

  -- A larger table of contexts, where this one is too small.
  unfoldable pub with_lookup : FeatureStore G → FeatureStore G
  with_lookup s =
      let lookup_capacity = u64 (s.registered_total_logical_queues * k_registered_cid_capacity) in
      let freed =
        if s.d_registered_ctx_lookup == nullptr
        then s.gpu
        else k.free s.gpu s.d_registered_ctx_lookup in
      let (table, gpu) = k.malloc freed lookup_capacity in
      let s1 = record s {
        d_registered_ctx_lookup = table;
        registered_ctx_lookup_capacity = lookup_capacity;
        gpu = gpu;
      } in
      if ltb 0 lookup_capacity && ltb s.registered_ctx_lookup_capacity lookup_capacity
      then s1
      else s

  -- `read_feature_submit_async_registered_rowctx`
  unfoldable pub submit_async_registered_rowctx :
      FeatureStore G → (index_ptr num_index dim cache_dim key_off : ℕ) → ℕ × FeatureStore G
  unfolding with_queues with_lookup on_gpu counted
  submit_async_registered_rowctx s index_ptr num_index dim cache_dim key_off =
      let (ctxs, gpu) = k.malloc s.gpu num_index in
      let (request_id, stack) =
        register_outstanding s.iostack ctxs num_index index_ptr num_index dim cache_dim key_off 1 in
      let launched = record s {
        iostack = stack;
        gpu = k.submit_rowctx gpu index_ptr dim num_index cache_dim ctxs;
      } in
      let s1 = with_lookup (with_queues launched) in
      let s2 = on_gpu s1 (λ g. k.register_lookup g ctxs num_index s1.d_registered_ctx_lookup) in
      let s3 =
        if not (s1.d_registered_ctx_lookup == nullptr) && ltb 0 s1.registered_total_logical_queues
        then s2
        else s1 in
      (request_id, counted s3 num_index)

  -- The test of an expected id.
  abbrev pub poll_front : FeatureStore G → ℕ → Option OutstandingMeta → Outcome G Unit
  poll_front s request_id none = thrown no_request_to_poll s
  poll_front s request_id (some m) =
      let (ctxs, stack) = front_ctxs s.iostack in
      let launched = record s {
        iostack = stack;
        gpu = k.poll s.gpu m.index_ptr m.dim m.num_index m.cache_dim ctxs;
      } in
      if refused m request_id
      then thrown request_id_mismatch s
      else returned tt (counted launched m.num_index)

  -- `read_feature_single_page_single_thread_poll_registered`
  unfoldable pub single_thread_poll_registered : FeatureStore G → ℕ → Outcome G Unit
  unfolding counted
  single_thread_poll_registered s request_id = poll_front s request_id (front_outstanding s.iostack)

  -- `if (!mark_front_ready(request_id)) throw`, then `return request_id`
  unfoldable pub mark_front : Error → FeatureStore G → ℕ → Outcome G ℕ
  unfolding with_stack
  mark_front e s request_id =
      let (accepted, stack) = mark_front_ready s.iostack request_id in
      if not accepted then thrown e s else returned request_id (with_stack s stack)

  abbrev pub poll_request : FeatureStore G → Option OutstandingMeta → Outcome G ℕ
  poll_request s none = returned 0 s
  poll_request s (some m) =
      if is_ready m.state
      then returned m.request_id s
      else and_then (single_thread_poll_registered s m.request_id)
          (λ _ t. mark_front failed_to_mark_ready t m.request_id)

  unfoldable pub service_registered_poll : FeatureStore G → Outcome G ℕ
  unfolding single_thread_poll_registered mark_front
  service_registered_poll s = poll_request s (front_outstanding s.iostack)

  abbrev pub poll_rows : FeatureStore G → OutstandingMeta → Outcome G ℕ
  poll_rows s m =
      let (ctxs, stack) = front_ctxs s.iostack in
      let s1 = with_stack s stack in
      let s2 = on_gpu s1 (λ g. k.poll_rowctx g m.index_ptr m.dim m.num_index m.cache_dim ctxs) in
      if ctxs == nullptr
      then thrown no_rowctx_to_poll s1
      else mark_front failed_to_mark_rowctx_ready s2 m.request_id

  abbrev pub poll_compatible : FeatureStore G → Option OutstandingMeta → Outcome G ℕ
  poll_compatible s none = returned 0 s
  poll_compatible s (some m) =
      if is_ready m.state
      then returned m.request_id s
      else if not (m.ctx_stride == 1)
      then service_registered_poll s
      else poll_rows s m

  unfoldable pub service_registered_poll_compatible : FeatureStore G → Outcome G ℕ
  unfolding service_registered_poll mark_front with_stack on_gpu
  service_registered_poll_compatible s = poll_compatible s (front_outstanding s.iostack)

  -- `rounds` launches of one kernel.
  abbrev pub repeat : ℕ → (G → G) → G → G
  repeat zero f g = g
  repeat (suc n) f g = repeat n f (f g)

  -- `service_registered_completions_burst`
  unfoldable pub service_registered_completions_burst :
      FeatureStore G → (rounds : ℕ) → FeatureStore G
  unfolding with_queues on_gpu
  service_registered_completions_burst s rounds =
      let s1 = with_queues s in
      let effective_rounds = if ltb 1 rounds then rounds else 1 in
      let launched = on_gpu s1 (
        repeat effective_rounds (λ g.
          k.service_window g s1.registered_total_logical_queues s1.d_registered_ctx_lookup)) in
      if u32 (outstanding_count s.iostack) == 0
      then s
      else if (s1.registered_total_logical_queues == 0) || (s1.d_registered_ctx_lookup == nullptr)
      then s1
      else launched

  abbrev pub request_ready :
      FeatureStore G → (ctxs : ℕ) → Option OutstandingMeta → Bool × FeatureStore G
  request_ready s ctxs none = (false, s)
  request_ready s ctxs (some m) =
      let (pending_count, gpu) = k.pending s.gpu ctxs m.num_index m.ctx_stride in
      if is_ready m.state
      then (true, s)
      else if ctxs == nullptr
      then (false, s)
      else (pending_count == 0, record s { gpu = gpu })

  unfoldable pub registered_request_ready_at : FeatureStore G → ℕ → Bool × FeatureStore G
  registered_request_ready_at s offset =
      request_ready s (ctxs_at s.iostack offset) (outstanding_at s.iostack offset)

  abbrev pub try_poll : FeatureStore G → Option OutstandingMeta → Outcome G ℕ
  try_poll s none = returned 0 s
  try_poll s (some m) =
      let s1 = service_registered_completions_burst s k_registered_front_service_bursts in
      let (is_done, s2) = registered_request_ready_at s1 0 in
      if is_ready m.state
      then returned m.request_id s
      else if is_done
      then mark_front failed_to_mark_ready s2 m.request_id
      else returned (front_ready_request_id s2.iostack) s2

  unfoldable pub service_registered_try_poll : FeatureStore G → Outcome G ℕ
  unfolding service_registered_completions_burst registered_request_ready_at mark_front
  service_registered_try_poll s = try_poll s (front_outstanding s.iostack)
