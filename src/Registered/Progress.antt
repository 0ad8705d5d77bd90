-- ===== src/Registered/Progress.antt =====
-- Every sequence of calls keeps the requests in order, and rounds of polling and gathering serve
-- all of them.
use generic_asynchronous_io.Prelude.{
  if-both, ltb, ◌&&◌, not, ◌==◌, u64, ◌*◌, ℕ, zero, suc, ◌+◌, ◌^◌, ◌<◌, ◌≡◌, ◌≢◌, inl, inr, refl,
  sym, ap, ◌∙◌, subst, arith, Option, none, some, List, [], ◌∷◌, length, get_elem?,
}
use generic_asynchronous_io.IoStack.{
  BamIoStack, OutstandingMeta, nullptr, front_outstanding, with_state, pop_front, ready,
  bam_io_stack, register_outstanding,
}
use generic_asynchronous_io.IoStack.Order.{
  Ordered, register_outstanding-Ordered, bam_io_stack-Ordered,
}
use generic_asynchronous_io.Registered.{Gpu, FeatureStore, total_ctxs, k_registered_cid_capacity}
use generic_asynchronous_io.Registered.Outcome.{returned, store_of}
use generic_asynchronous_io.Registered.Service.{
  submit_async_registered, submit_async_registered_rowctx, service_registered_poll,
  service_registered_poll_compatible, service_registered_try_poll, with_queues, with_lookup, on_gpu,
  counted,
}
use generic_asynchronous_io.Registered.Gather.{
  service_registered_try_poll_window_skip_front, get_feature_light_registered,
  get_feature_light_registered_rowctx,
}
use generic_asynchronous_io.Registered.Kept.{
  with_queues_iostack, OrderedIn, OrderedAfter, service_registered_poll-OrderedAfter,
  service_registered_try_poll-OrderedAfter, poll_compatible_service-OrderedAfter,
  try_poll_window-OrderedAfter, get_features-OrderedAfter,
}
use generic_asynchronous_io.Registered.Serve.{get_feature_lem, service_registered_poll_lem}

-- One call of a method of the registered path, to its return or to its exception. A submission
-- needs memory from `cudaMalloc` and an id that is not the last of 64 bits.
pub data Call {G : Type 0} (k : Gpu G) (s : FeatureStore G) : FeatureStore G → Type 0 where
  submit :
      (index_ptr num_index dim cache_dim key_off : ℕ)
      → (k.malloc s.gpu (total_ctxs s.blk_size num_index)).0 ≢ nullptr
      → s.iostack.next_request_id + 1 < 2 ^ 64
      → Call k s (submit_async_registered k s index_ptr num_index dim cache_dim key_off).1
  submit_rowctx :
      (index_ptr num_index dim cache_dim key_off : ℕ)
      → (k.malloc s.gpu num_index).0 ≢ nullptr
      → s.iostack.next_request_id + 1 < 2 ^ 64
      → Call k s (submit_async_registered_rowctx k s index_ptr num_index dim cache_dim key_off).1
  poll : Call k s (store_of (service_registered_poll k s))
  poll_compatible : Call k s (store_of (service_registered_poll_compatible k s))
  try_poll : Call k s (store_of (service_registered_try_poll k s))
  try_poll_window :
      (window_size : ℕ)
      → Call k s (store_of (service_registered_try_poll_window_skip_front k s window_size))
  get : (tensor : ℕ) → Call k s (store_of (get_feature_light_registered k s tensor))
  get_rowctx : (tensor : ℕ) → Call k s (store_of (get_feature_light_registered_rowctx k s tensor))

-- The stores that calls lead to from one with a new stack.
pub data Calls {G : Type 0} (k : Gpu G) : FeatureStore G → Type 0 where
  fresh :
      (s : FeatureStore G) (presubmit_count : ℕ)
      → s.iostack ≡ bam_io_stack presubmit_count
      → Calls k s
  then_call : {s t : FeatureStore G} → Calls k s → Call k s t → Calls k t

module _ {G : Type 0} (k : Gpu G) where
  abbrev Same : BamIoStack → FeatureStore G → Type 0
  Same q t = t.iostack ≡ q

  with_lookup_iostack : (s : FeatureStore G) → (with_lookup k s).iostack ≡ s.iostack
  unfolding with_lookup
  with_lookup_iostack s =
      if-both (Same s.iostack)
        (ltb 0 (capacity_for s) && ltb s.registered_ctx_lookup_capacity (capacity_for s)) refl refl
    where
      capacity_for : FeatureStore G → ℕ
      capacity_for s = u64 (s.registered_total_logical_queues * k_registered_cid_capacity)

  submit_rowctx_iostack :
      (s : FeatureStore G) (index_ptr num_index dim cache_dim key_off : ℕ)
      → (submit_async_registered_rowctx k s index_ptr num_index dim cache_dim key_off).1.iostack
        ≡ (register_outstanding s.iostack
            (k.malloc s.gpu num_index).0
            num_index
            index_ptr
            num_index
            dim
            cache_dim
            key_off
            1).1
  unfolding submit_async_registered_rowctx on_gpu counted
  submit_rowctx_iostack s index_ptr num_index dim cache_dim key_off =
      let (ctxs, gpu) = k.malloc s.gpu num_index in
      let launched : FeatureStore G = record s {
        iostack =
            (register_outstanding s.iostack ctxs num_index index_ptr num_index dim cache_dim key_off
              1).1;
        gpu = k.submit_rowctx gpu index_ptr dim num_index cache_dim ctxs;
      } in
      let s1 = with_lookup k (with_queues k launched) in
      let kept = with_lookup_iostack (with_queues k launched) ∙ with_queues_iostack k launched in
      if-both (Same launched.iostack)
        (not (s1.d_registered_ctx_lookup == nullptr) && ltb 0 s1.registered_total_logical_queues)
        kept kept

  Call-Ordered : {s t : FeatureStore G} → Call k s t → OrderedIn s → OrderedIn t
  unfolding submit_async_registered counted OrderedAfter
  Call-Ordered {s} (submit index_ptr num_index dim cache_dim key_off real room) o =
      register_outstanding-Ordered s.iostack _ _ index_ptr num_index dim cache_dim key_off 32 o real
        room
  Call-Ordered {s} (submit_rowctx index_ptr num_index dim cache_dim key_off real room) o =
      subst Ordered (sym (submit_rowctx_iostack s index_ptr num_index dim cache_dim key_off)) (
        register_outstanding-Ordered s.iostack _ num_index index_ptr num_index dim cache_dim key_off
          1 o real room)
  Call-Ordered {s} poll o = service_registered_poll-OrderedAfter k s o
  Call-Ordered {s} poll_compatible o = poll_compatible_service-OrderedAfter k s o
  Call-Ordered {s} try_poll o = service_registered_try_poll-OrderedAfter k s o
  Call-Ordered {s} (try_poll_window window_size) o = try_poll_window-OrderedAfter k s window_size o
  Call-Ordered {s} (get tensor) o = (get_features-OrderedAfter k s tensor o).0
  Call-Ordered {s} (get_rowctx tensor) o = (get_features-OrderedAfter k s tensor o).1

  -- After any sequence of calls of the registered path on a new stack, with whatever effects the
  -- kernels have on the GPU and whatever they report, where every submission gets contexts that are
  -- not null from `cudaMalloc` and no id is the last of 64 bits: the three queues hold the same
  -- requests in the same order, the current contexts are those of the front request, no contexts
  -- are null, and the requests are numbered one by one from the one after the last consumed to the
  -- one before the next id.
  pub Calls-Ordered : {s : FeatureStore G} → Calls k s → OrderedIn s
  Calls-Ordered (fresh s n is_new) = subst Ordered (sym is_new) (bam_io_stack-Ordered n)
  Calls-Ordered (then_call c call) = Call-Ordered call (Calls-Ordered c)

-- Rounds of polling the front request and gathering it, with the ids that they return.
pub data Serves {G : Type 0} (k : Gpu G) (tensor : ℕ)
    : FeatureStore G → List ℕ → FeatureStore G → Type 0 where
  done : {s : FeatureStore G} → Serves k tensor s [] s
  round :
      {id : ℕ} {ids : List ℕ} {s s1 s2 t : FeatureStore G}
      → service_registered_poll k s ≡ returned id s1
      → get_feature_light_registered k s1 tensor ≡ returned id s2
      → Serves k tensor s2 ids t
      → Serves k tensor s (id ∷ ids) t

abbrev pub count_up : (first n : ℕ) → List ℕ
count_up first zero = []
count_up first (suc n) = first ∷ count_up (suc first) n

abbrev id_in : Option OutstandingMeta → ℕ
id_in none = 0
id_in (some m) = m.request_id

length-pop_front : (q : List OutstandingMeta) (n : ℕ) → length q ≡ suc n → length (pop_front q) ≡ n
length-pop_front [] n e = absurd (omega (arith, e))
length-pop_front (m ∷ q) n e = omega (arith, e)

not_empty : (q : List OutstandingMeta) (n : ℕ) → length q ≡ suc n → get_elem? q 0 ≢ none
not_empty [] n e = absurd (omega (arith, e))
not_empty (m ∷ q) n e = λ r. cc r

no_length : (q : List OutstandingMeta) → length q ≡ 0 → q ≡ []
no_length [] e = refl
no_length (m ∷ q) e = absurd (omega (arith, e))

module _ {G : Type 0} (k : Gpu G) (tensor : ℕ) where
  -- The request that follows the last consumed has been polled and gathered.
  record ServedOne (s : FeatureStore G) (n : ℕ) : Type 0 where
    polled : FeatureStore G
    after : FeatureStore G
    id : ℕ
    poll_returned : service_registered_poll k s ≡ returned id polled
    get_returned : get_feature_light_registered k polled tensor ≡ returned id after
    ordered : OrderedIn after
    in_turn : id ≡ suc s.iostack.last_consumed_request_id
    last : after.iostack.last_consumed_request_id ≡ id
    remaining : length after.iostack.outstanding_queue ≡ n

  serve_one :
      (s : FeatureStore G) (n : ℕ)
      → OrderedIn s
      → length s.iostack.outstanding_queue ≡ suc n
      → ServedOne s n
  unfolding front_outstanding
  serve_one s n o more = elim (service_registered_poll_lem k s o) [
    | inl (empty, _) ↦ absurd (not_empty s.iostack.outstanding_queue n more empty)
    | inr (m, at, (s1, polled, (o1, queue, last1))) ↦
        let at1 = ap (λ q. get_elem? q 0) queue in
        elim (get_feature_lem k s1 tensor o1).0 [
          | inr (not_ready, _) ↦ absurd (cc (not_ready (with_state m ready) at1))
          | inl (m2, at2, _, (s2, got, taken)) ↦
              let same_id : m2.request_id ≡ m.request_id = ap id_in (sym at2 ∙ at1) in
              record {
                polled = s1;
                after = s2;
                id = m.request_id;
                poll_returned = polled;
                get_returned = got ∙ ap (λ i. returned i s2) same_id;
                ordered = taken.ordered;
                in_turn = sym same_id ∙ taken.in_turn ∙ ap suc last1;
                last = taken.last ∙ same_id;
                remaining =
                    ap length (taken.remaining ∙ ap pop_front queue)
                    ∙ length-pop_front s.iostack.outstanding_queue n more;
              }
        ]
  ]

  -- Where the three queues of the store are in order (they hold the same requests in the same order,
  -- numbered one by one from the one after the last consumed to the one before the next id, the
  -- current contexts are those of the front request, and no contexts are null): however many
  -- requests are outstanding, that many rounds of polling and gathering return without an
  -- exception, serve each request once, in the order of the ids from the one after the last
  -- consumed on, and leave no request outstanding and the queues in order.
  pub served_lem :
      (s : FeatureStore G) (n : ℕ)
      → OrderedIn s
      → length s.iostack.outstanding_queue ≡ n
      → (t : FeatureStore G) × Serves k tensor s
          (count_up (suc s.iostack.last_consumed_request_id) n)
          t
        × (t.iostack.outstanding_queue ≡ [])
        × OrderedIn t
  served_lem s zero o e = (s, done, no_length s.iostack.outstanding_queue e, o)
  served_lem s (suc n) o e =
      let one = serve_one s n o e in
      let (t, served, empty, ot) = served_lem one.after n one.ordered one.remaining in
      (
        t,
        subst (λ i. Serves k tensor s (i ∷ count_up (suc i) n) t) one.in_turn
            (round one.poll_returned one.get_returned
              (subst (λ i. Serves k tensor one.after (count_up (suc i) n) t) one.last served)),
        empty,
        ot,
      )
