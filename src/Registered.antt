-- ===== src/Registered.antt =====
-- gids_module/gids_nvme.cu: how `BAM_Feature_Store` submits requests that are registered with the
-- request stack, polls them and gathers their features. The kernels run on a state `G` of the GPU
-- that only they and CUDA see, and are the fields of `Gpu`.
pub mod Outcome
pub mod Service
pub mod Gather
pub mod Kept
pub mod Serve
pub mod Progress
pub mod Window
use generic_asynchronous_io.Prelude.{
  ℕ, zero, suc, ◌+◌, ◌-◌, ◌*◌, ◌/◌, ◌%◌, ◌^◌, Bool, true, false, not, ◌&&◌, ◌||◌, ◌==◌, ltb,
  if◌then◌else◌, List, [], ◌∷◌, Option, none, some, u32, u64,
}
use generic_asynchronous_io.IoStack.{BamIoStack, OutstandingMeta, nullptr}

-- What a launch is given of a request: the kernels take these and the contexts.
pub record Gpu (G : Type 0) : Type 0 where
  pub malloc : G → (count : ℕ) → ℕ × G  -- `cudaMalloc`, then `cudaMemset` to 0
  pub free : G → (ptr : ℕ) → G  -- `cudaFree`
  -- `read_feature_kernel_submit_async` and `read_feature_kernel_submit_async_rowctx`
  pub submit : G → (index_ptr dim num_index cache_dim ctxs : ℕ) → G
  pub submit_rowctx : G → (index_ptr dim num_index cache_dim ctxs : ℕ) → G
  -- `register_registered_ctx_lookup_kernel`
  pub register_lookup : G → (ctxs num_index lookup : ℕ) → G
  -- `read_feature_kernel_single_page_single_thread_poll` and its `_rowctx`
  pub poll : G → (index_ptr dim num_index cache_dim ctxs : ℕ) → G
  pub poll_rowctx : G → (index_ptr dim num_index cache_dim ctxs : ℕ) → G
  -- `service_registered_cq_window_kernel`
  pub service_window : G → (total_logical_queues lookup : ℕ) → G
  -- `check_registered_request_ready_kernel`: the count of contexts that are still pending
  pub pending : G → (ctxs num_index ctx_stride : ℕ) → ℕ × G
  -- `read_feature_kernel_get_feature_light` and its `_rowctx`
  pub get_light : G → (tensor index_ptr dim num_index cache_dim ctxs : ℕ) → G
  pub get_light_rowctx : G → (tensor index_ptr dim num_index cache_dim ctxs : ℕ) → G

-- The fields of `BAM_Feature_Store` that these methods use; of a controller only the number of
-- its queues, and none where the pointer is null.
pub record FeatureStore (G : Type 0) : Type 0 where
  pub iostack : BamIoStack
  pub ctrls : List (Option ℕ)
  pub blk_size : ℕ
  pub total_access : ℕ
  pub registered_total_logical_queues : ℕ
  pub d_registered_ctx_lookup : ℕ
  pub registered_ctx_lookup_capacity : ℕ
  pub gpu : G

abbrev pub k_registered_cid_capacity : ℕ
k_registered_cid_capacity = 65536

abbrev pub k_registered_front_service_bursts : ℕ
k_registered_front_service_bursts = 4

abbrev pub k_registered_window_service_bursts : ℕ
k_registered_window_service_bursts = 3

-- The loop over the controllers that adds up their queues.
unfoldable pub logical_queues : List (Option ℕ) → ℕ → ℕ
logical_queues [] total = total
logical_queues (none ∷ ctrls) total = logical_queues ctrls total
logical_queues (some n_qps ∷ ctrls) total = logical_queues ctrls (u32 (total + n_qps))

-- `g_size * warps_per_block * 32`
unfoldable pub total_ctxs : (b_size num_index : ℕ) → ℕ
total_ctxs b_size num_index =
    let n_warp = b_size / 32 in
    let g_size = u64 (num_index + n_warp + 2 ^ 64 - 1) / n_warp in u64 (g_size * (b_size / 32) * 32)
