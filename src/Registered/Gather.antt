-- ===== src/Registered/Gather.antt =====
-- gids_module/gids_nvme.cu: looking for requests behind the front one that are ready, and
-- gathering the features of the front one.
use generic_asynchronous_io.Prelude.{
  ℕ, zero, suc, ◌-◌, Bool, true, false, not, ◌==◌, ltb, leb, min, if◌then◌else◌, Option, none, some,
}
use generic_asynchronous_io.IoStack.{
  OutstandingMeta, RequestState, submitted, ready, consumed, is_ready, nullptr, front_ctxs,
  front_outstanding, outstanding_at, outstanding_count, mark_ready_at, mark_front_consumed,
  pop_ctxs, front_ready_request_id, state_of,
}
use generic_asynchronous_io.Registered.{Gpu, FeatureStore, k_registered_window_service_bursts}
use generic_asynchronous_io.Registered.Outcome.{
  failed_to_mark_window, no_request_to_get, not_ready_for_get, failed_to_mark_consumed, Outcome,
  returned, thrown, and_then,
}
use generic_asynchronous_io.Registered.Service.{
  counted, service_registered_completions_burst, registered_request_ready_at,
}

abbrev pub is_submitted : RequestState → Bool
is_submitted submitted = true
is_submitted ready = false
is_submitted consumed = false

-- The number of a state.
abbrev pub state_number : RequestState → ℕ
state_number submitted = 0
state_number ready = 1
state_number consumed = 2

-- What a round of the loop ends with.
pub data Turn : Type 0 where
  stop : Turn  -- `break`
  go_on : Turn

module _ {G : Type 0} (k : Gpu G) where
  abbrev pub window_round : FeatureStore G → (offset : ℕ) → Option OutstandingMeta → Outcome G Turn
  window_round s offset none = returned stop s
  window_round s offset (some m) =
      let (is_done, s1) = registered_request_ready_at k s offset in
      let (accepted, stack) = mark_ready_at s1.iostack offset m.request_id in
      if not (is_submitted m.state)
      then returned go_on s
      else if not is_done
      then returned go_on s1
      else if not accepted
      then thrown failed_to_mark_window s1
      else returned go_on (record s1 { iostack = stack })

  abbrev pub continued : Turn → FeatureStore G → Outcome G Unit → Outcome G Unit
  continued stop s rest = returned tt s
  continued go_on s rest = rest

  -- The loop, from an offset on for so many rounds.
  unfoldable pub window_from : FeatureStore G → (offset rounds : ℕ) → Outcome G Unit
  window_from s offset zero = returned tt s
  window_from s offset (suc rounds) =
      and_then (window_round s offset (outstanding_at s.iostack offset))
        (λ turn t. continued turn t (window_from t (suc offset) rounds))

  unfoldable pub service_registered_try_poll_window_skip_front :
      FeatureStore G → (window_size : ℕ) → Outcome G ℕ
  unfolding window_from
  service_registered_try_poll_window_skip_front s window_size =
      let total = outstanding_count s.iostack in
      let s1 = service_registered_completions_burst k s k_registered_window_service_bursts in
      let limit = min (if ltb 1 window_size then window_size else 1) (total - 1) in
      if leb total 1
      then returned (front_ready_request_id s.iostack) s
      else and_then (window_from s1 1 limit) (λ _ t. returned (front_ready_request_id t.iostack) t)

  -- From `mark_front_consumed` to the end.
  abbrev pub finish_get : FeatureStore G → (ctxs : ℕ) → OutstandingMeta → Outcome G ℕ
  finish_get s ctxs m =
      let (accepted, stack) = mark_front_consumed s.iostack m.request_id in
      let freed = if ctxs == nullptr then s.gpu else k.free s.gpu ctxs in
      let t = record s { iostack = pop_ctxs stack; gpu = freed } in
      if not accepted
      then thrown failed_to_mark_consumed (record s { iostack = stack })
      else returned m.request_id (counted k t m.num_index)

  abbrev pub get_light : FeatureStore G → (tensor : ℕ) → Option OutstandingMeta → Outcome G ℕ
  get_light s tensor none = thrown no_request_to_get s
  get_light s tensor (some m) =
      let (ctxs, stack) = front_ctxs s.iostack in
      let gathered = record s {
        iostack = stack;
        gpu = k.get_light s.gpu tensor m.index_ptr m.dim m.num_index m.cache_dim ctxs;
      } in
      if not (is_ready m.state) then thrown not_ready_for_get s else finish_get gathered ctxs m

  -- `read_feature_get_feature_light_registered`
  unfoldable pub get_feature_light_registered : FeatureStore G → (tensor : ℕ) → Outcome G ℕ
  unfolding counted
  get_feature_light_registered s tensor = get_light s tensor (front_outstanding s.iostack)

  abbrev pub get_rows : FeatureStore G → (tensor : ℕ) → Option OutstandingMeta → Outcome G ℕ
  get_rows s tensor none = thrown no_request_to_get s
  get_rows s tensor (some m) =
      let (ctxs, stack) = front_ctxs s.iostack in
      let gathered = record s {
        iostack = stack;
        gpu = k.get_light_rowctx s.gpu tensor m.index_ptr m.dim m.num_index m.cache_dim ctxs;
      } in
      if not (is_ready m.state) then thrown not_ready_for_get s else finish_get gathered ctxs m

  -- `read_feature_get_feature_light_registered_rowctx`
  unfoldable pub get_feature_light_registered_rowctx : FeatureStore G → (tensor : ℕ) → Outcome G ℕ
  unfolding counted
  get_feature_light_registered_rowctx s tensor = get_rows s tensor (front_outstanding s.iostack)

abbrev id_of : Option OutstandingMeta → ℕ
id_of none = 0
id_of (some m) = m.request_id

-- The readers of the store.
module _ {G : Type 0} where
  unfoldable pub get_registered_front_request_id : FeatureStore G → ℕ
  get_registered_front_request_id s = id_of (front_outstanding s.iostack)

  unfoldable pub get_registered_request_id_at : FeatureStore G → ℕ → ℕ
  get_registered_request_id_at s offset = id_of (outstanding_at s.iostack offset)

  unfoldable pub get_registered_request_state_at : FeatureStore G → ℕ → ℕ
  get_registered_request_state_at s offset =
      state_number (state_of (outstanding_at s.iostack offset))
