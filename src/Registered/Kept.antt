-- ===== src/Registered/Kept.antt =====
-- The methods of the registered path keep the request stack in order, whatever the kernels do.
use generic_asynchronous_io.Prelude.{
  ℕ, zero, suc, ◌≡◌, refl, sym, ap, subst, Bool, not, ◌==◌, ◌||◌, u32, leb, ltb, min, ◌-◌, if_false,
  if◌then◌else◌, if-both, Option, none, some,
}
use generic_asynchronous_io.IoStack.{
  OutstandingMeta, nullptr, is_ready, front_ctxs, mark_front_ready, mark_ready_at,
  front_outstanding, outstanding_at, refused, ctxs_at, outstanding_count, front_ready_request_id,
}
use generic_asynchronous_io.IoStack.Order.{
  Ordered, mark_front_ready-Ordered, mark_ready_at-Ordered, front_ctxs-Ordered,
}
use generic_asynchronous_io.IoStack.Marks.{consume_lem}
use generic_asynchronous_io.Registered.{
  Gpu, FeatureStore, k_registered_front_service_bursts, k_registered_window_service_bursts,
}
use generic_asynchronous_io.Registered.Outcome.{
  Error, Outcome, returned, thrown, and_then, store_of,
}
use generic_asynchronous_io.Registered.Service.{
  with_stack, on_gpu, counted, with_queues, poll_front, single_thread_poll_registered, mark_front,
  poll_request, service_registered_poll, poll_rows, poll_compatible,
  service_registered_poll_compatible, service_registered_completions_burst, request_ready,
  registered_request_ready_at, try_poll, service_registered_try_poll,
}
use generic_asynchronous_io.Registered.Gather.{
  Turn, is_submitted, stop, go_on, window_round, continued, window_from,
  service_registered_try_poll_window_skip_front, finish_get, get_light, get_rows,
  get_feature_light_registered, get_feature_light_registered_rowctx,
}

abbrev pub OrderedIn : {G : Type 0} → FeatureStore G → Type 0
OrderedIn s = Ordered s.iostack

-- Shut, so that it names the outcome it is about.
unfoldable pub OrderedAfter : {G A : Type 0} → Outcome G A → Type 0
OrderedAfter r = OrderedIn (store_of r)

module _ {G : Type 0} where
  pub OrderedAfter-returned :
      {A : Type 0} (a : A) (s : FeatureStore G) → OrderedIn s → OrderedAfter (returned a s)
  unfolding OrderedAfter
  OrderedAfter-returned a s o = o

  pub OrderedAfter-thrown :
      (A : Type 0) (e : Error) (s : FeatureStore G)
      → OrderedIn s
      → OrderedAfter {A = A} (thrown e s)
  unfolding OrderedAfter
  OrderedAfter-thrown A e s o = o

  pub and_then-OrderedAfter :
      {A B : Type 0} (r : Outcome G A) (f : A → FeatureStore G → Outcome G B)
      → OrderedAfter r
      → ((a : A) (t : FeatureStore G) → OrderedIn t → OrderedAfter (f a t))
      → OrderedAfter (and_then r f)
  unfolding OrderedAfter
  and_then-OrderedAfter (returned a s) f o h = h a s o
  and_then-OrderedAfter (thrown e s) f o h = o

module _ {G : Type 0} (k : Gpu G) where
  mark_front-OrderedAfter :
      (e : Error) (s : FeatureStore G) (id : ℕ) → OrderedIn s → OrderedAfter (mark_front k e s id)
  unfolding mark_front with_stack
  mark_front-OrderedAfter e s id o =
      if-both OrderedAfter (not (mark_front_ready s.iostack id).0) (OrderedAfter-thrown _ e s o)
        (OrderedAfter-returned id _ (mark_front_ready-Ordered s.iostack id o))

  poll_front-OrderedAfter :
      (s : FeatureStore G) (id : ℕ) (found : Option OutstandingMeta)
      → OrderedIn s
      → OrderedAfter (poll_front k s id found)
  unfolding counted
  poll_front-OrderedAfter s id none o = OrderedAfter-thrown _ _ s o
  poll_front-OrderedAfter s id (some m) o =
      if-both OrderedAfter (refused m id) (OrderedAfter-thrown _ _ s o)
        (OrderedAfter-returned tt _ (front_ctxs-Ordered s.iostack o))

  poll_request-OrderedAfter :
      (s : FeatureStore G) (found : Option OutstandingMeta)
      → OrderedIn s
      → OrderedAfter (poll_request k s found)
  unfolding single_thread_poll_registered
  poll_request-OrderedAfter s none o = OrderedAfter-returned 0 s o
  poll_request-OrderedAfter s (some m) o =
      if-both OrderedAfter (is_ready m.state) (OrderedAfter-returned m.request_id s o) (
        and_then-OrderedAfter _ _ (poll_front-OrderedAfter s m.request_id _ o)
          (λ _ t p. mark_front-OrderedAfter _ t m.request_id p))

  pub service_registered_poll-OrderedAfter :
      (s : FeatureStore G) → OrderedIn s → OrderedAfter (service_registered_poll k s)
  unfolding service_registered_poll
  service_registered_poll-OrderedAfter s o = poll_request-OrderedAfter s _ o

  poll_rows-OrderedAfter :
      (s : FeatureStore G) (m : OutstandingMeta) → OrderedIn s → OrderedAfter (poll_rows k s m)
  unfolding with_stack on_gpu
  poll_rows-OrderedAfter s m o =
      let kept = front_ctxs-Ordered s.iostack o in
      if-both OrderedAfter ((front_ctxs s.iostack).0 == nullptr) (OrderedAfter-thrown _ _ _ kept)
        (mark_front-OrderedAfter _ _ m.request_id kept)

  poll_compatible-OrderedAfter :
      (s : FeatureStore G) (found : Option OutstandingMeta)
      → OrderedIn s
      → OrderedAfter (poll_compatible k s found)
  poll_compatible-OrderedAfter s none o = OrderedAfter-returned 0 s o
  poll_compatible-OrderedAfter s (some m) o =
      if-both OrderedAfter (is_ready m.state) (OrderedAfter-returned m.request_id s o) (
        if-both OrderedAfter (not (m.ctx_stride == 1)) (service_registered_poll-OrderedAfter s o)
          (poll_rows-OrderedAfter s m o))

  abbrev Same : FeatureStore G → FeatureStore G → Type 0
  Same s t = t.iostack ≡ s.iostack

  abbrev SameTested : FeatureStore G → Bool × FeatureStore G → Type 0
  SameTested s r = Same s r.1

  -- What leaves the stack alone.
  pub with_queues_iostack : (s : FeatureStore G) → (with_queues k s).iostack ≡ s.iostack
  unfolding with_queues
  with_queues_iostack s = if-both (Same s) (s.registered_total_logical_queues == 0) refl refl

  pub burst_iostack :
      (s : FeatureStore G) (rounds : ℕ)
      → (service_registered_completions_burst k s rounds).iostack ≡ s.iostack
  unfolding service_registered_completions_burst on_gpu
  burst_iostack s rounds = if-both (Same s) (u32 (outstanding_count s.iostack) == 0) refl (
      if-both (Same s)
        (((with_queues k s).registered_total_logical_queues == 0)
          || ((with_queues k s).d_registered_ctx_lookup == nullptr))
        (with_queues_iostack s) (with_queues_iostack s))

  request_ready_iostack :
      (s : FeatureStore G) (ctxs : ℕ) (found : Option OutstandingMeta)
      → (request_ready k s ctxs found).1.iostack ≡ s.iostack
  request_ready_iostack s ctxs none = refl
  request_ready_iostack s ctxs (some m) =
      if-both (SameTested s) (is_ready m.state) refl
        (if-both (SameTested s) (ctxs == nullptr) refl refl)

  pub request_ready_at_iostack :
      (s : FeatureStore G) (offset : ℕ)
      → (registered_request_ready_at k s offset).1.iostack ≡ s.iostack
  unfolding registered_request_ready_at
  request_ready_at_iostack s offset =
      request_ready_iostack s (ctxs_at s.iostack offset) (outstanding_at s.iostack offset)

  burst-OrderedIn :
      (s : FeatureStore G) (rounds : ℕ)
      → OrderedIn s
      → OrderedIn (service_registered_completions_burst k s rounds)
  burst-OrderedIn s rounds o = subst Ordered (sym (burst_iostack s rounds)) o

  request_ready_at-OrderedIn :
      (s : FeatureStore G) (offset : ℕ)
      → OrderedIn s
      → OrderedIn (registered_request_ready_at k s offset).1
  request_ready_at-OrderedIn s offset o = subst Ordered (sym (request_ready_at_iostack s offset)) o

  try_poll-OrderedAfter :
      (s : FeatureStore G) (found : Option OutstandingMeta)
      → OrderedIn s
      → OrderedAfter (try_poll k s found)
  try_poll-OrderedAfter s none o = OrderedAfter-returned 0 s o
  try_poll-OrderedAfter s (some m) o =
      let s1 = service_registered_completions_burst k s k_registered_front_service_bursts in
      let kept = request_ready_at-OrderedIn s1 0 (burst-OrderedIn s _ o) in
      if-both OrderedAfter (is_ready m.state) (OrderedAfter-returned m.request_id s o) (
        if-both OrderedAfter (registered_request_ready_at k s1 0).0
          (mark_front-OrderedAfter _ _ m.request_id kept) (OrderedAfter-returned _ _ kept))

  window_round-OrderedAfter :
      (s : FeatureStore G) (offset : ℕ) (found : Option OutstandingMeta)
      → OrderedIn s
      → OrderedAfter (window_round k s offset found)
  window_round-OrderedAfter s offset none o = OrderedAfter-returned stop s o
  window_round-OrderedAfter s offset (some m) o =
      let r = registered_request_ready_at k s offset in
      let kept = request_ready_at-OrderedIn s offset o in
      if-both OrderedAfter (not (is_submitted m.state)) (OrderedAfter-returned go_on s o) (
        if-both OrderedAfter (not r.0) (OrderedAfter-returned go_on r.1 kept) (
          if-both OrderedAfter (not (mark_ready_at r.1.iostack offset m.request_id).0)
            (OrderedAfter-thrown _ _ _ kept)
            (OrderedAfter-returned go_on _ (mark_ready_at-Ordered r.1.iostack offset _ kept))))

  continued-OrderedAfter :
      (turn : Turn) (t : FeatureStore G) (rest : Outcome G Unit)
      → OrderedIn t
      → OrderedAfter rest
      → OrderedAfter (continued k turn t rest)
  continued-OrderedAfter stop t rest o p = OrderedAfter-returned tt t o
  continued-OrderedAfter go_on t rest o p = p

  window_from-OrderedAfter :
      (s : FeatureStore G) (offset rounds : ℕ)
      → OrderedIn s
      → OrderedAfter (window_from k s offset rounds)
  unfolding window_from
  window_from-OrderedAfter s offset zero o = OrderedAfter-returned tt s o
  window_from-OrderedAfter s offset (suc rounds) o =
      and_then-OrderedAfter _ _ (window_round-OrderedAfter s offset _ o) (λ turn t p.
        continued-OrderedAfter turn t _ p (window_from-OrderedAfter t (suc offset) rounds p))

  pub service_registered_try_poll-OrderedAfter :
      (s : FeatureStore G) → OrderedIn s → OrderedAfter (service_registered_try_poll k s)
  unfolding service_registered_try_poll
  service_registered_try_poll-OrderedAfter s o = try_poll-OrderedAfter s _ o

  pub poll_compatible_service-OrderedAfter :
      (s : FeatureStore G) → OrderedIn s → OrderedAfter (service_registered_poll_compatible k s)
  unfolding service_registered_poll_compatible
  poll_compatible_service-OrderedAfter s o =
      poll_compatible-OrderedAfter s (front_outstanding s.iostack) o

  pub try_poll_window-OrderedAfter :
      (s : FeatureStore G) (window_size : ℕ)
      → OrderedIn s
      → OrderedAfter (service_registered_try_poll_window_skip_front k s window_size)
  unfolding service_registered_try_poll_window_skip_front
  try_poll_window-OrderedAfter s window_size o =
      let total = outstanding_count s.iostack in
      let s1 = service_registered_completions_burst k s k_registered_window_service_bursts in
      let limit = min (if ltb 1 window_size then window_size else 1) (total - 1) in
      if-both OrderedAfter (leb total 1)
        (OrderedAfter-returned (front_ready_request_id s.iostack) s o)
        (and_then-OrderedAfter (window_from k s1 1 limit)
          (λ _ t. returned (front_ready_request_id t.iostack) t)
          (window_from-OrderedAfter s1 1 limit (burst-OrderedIn s _ o))
          (λ _ t p. OrderedAfter-returned (front_ready_request_id t.iostack) t p))

  -- Gathering keeps the order where the front request is ready or nothing happens.
  finish_get-OrderedAfter :
      (s : FeatureStore G) (ctxs : ℕ) (m : OutstandingMeta)
      → OrderedIn s
      → front_outstanding s.iostack ≡ some m
      → OrderedAfter (finish_get k s ctxs m)
  unfolding counted
  finish_get-OrderedAfter s ctxs m o at =
      let (accepted, taken) = consume_lem s.iostack m o at in
      subst OrderedAfter (sym (if_false _ _ (ap not accepted)))
        (OrderedAfter-returned m.request_id _ taken.ordered)

  get_light-OrderedAfter :
      (s : FeatureStore G) (tensor : ℕ) (found : Option OutstandingMeta)
      → OrderedIn s
      → front_outstanding s.iostack ≡ found
      → OrderedAfter (get_light k s tensor found) × OrderedAfter (get_rows k s tensor found)
  unfolding front_ctxs front_outstanding
  get_light-OrderedAfter s tensor none o at =
      (OrderedAfter-thrown _ _ s o, OrderedAfter-thrown _ _ s o)
  get_light-OrderedAfter s tensor (some m) o at =
      let kept = front_ctxs-Ordered s.iostack o in
      (
        if-both OrderedAfter (not (is_ready m.state)) (OrderedAfter-thrown _ _ s o)
            (finish_get-OrderedAfter _ _ m kept at),
        if-both OrderedAfter (not (is_ready m.state)) (OrderedAfter-thrown _ _ s o)
            (finish_get-OrderedAfter _ _ m kept at),
      )

  pub get_features-OrderedAfter :
      (s : FeatureStore G) (tensor : ℕ)
      → OrderedIn s
      → OrderedAfter (get_feature_light_registered k s tensor)
        × OrderedAfter (get_feature_light_registered_rowctx k s tensor)
  unfolding get_feature_light_registered get_feature_light_registered_rowctx
  get_features-OrderedAfter s tensor o = get_light-OrderedAfter s tensor _ o refl
