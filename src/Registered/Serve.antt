-- ===== src/Registered/Serve.antt =====
-- What polling and gathering return: every registered request is served, in the order of its
-- submission.
use generic_asynchronous_io.Prelude.{
  ℕ, ◌≡◌, ◌⊎◌, inl, inr, refl, sym, ap, ◌∙◌, subst, arith, Bool, true, false, not, if◌then◌else◌,
  if_true, if_false, Bool-cases, Option-cases, Option, none, some, ◌∷◌,
}
use generic_asynchronous_io.IoStack.{
  BamIoStack, OutstandingMeta, RequestState, ready, is_ready, front_ctxs, front_outstanding,
  with_state, pop_front,
}
use generic_asynchronous_io.IoStack.Order.{Ordered, front_ctxs-Ordered, mark_front_ready-Ordered}
use generic_asynchronous_io.IoStack.Marks.{consume_lem, Taken, mark_front_ready_own, fits, at_front}
use generic_asynchronous_io.Registered.{Gpu, FeatureStore}
use generic_asynchronous_io.Registered.Outcome.{
  Error, Outcome, returned, thrown, and_then, no_request_to_get, not_ready_for_get,
  failed_to_mark_ready,
}
use generic_asynchronous_io.Registered.Service.{
  with_stack, counted, poll_front, single_thread_poll_registered, mark_front, poll_request,
  service_registered_poll,
}
use generic_asynchronous_io.Registered.Gather.{
  finish_get, get_light, get_rows, get_feature_light_registered,
  get_feature_light_registered_rowctx,
}
use generic_asynchronous_io.Registered.Kept.{OrderedIn}

module _ {G : Type 0} where
  -- The front request, and it alone, has left the store, and its id is returned.
  abbrev pub Got : FeatureStore G → OutstandingMeta → Outcome G ℕ → Type 0
  Got s m r = (t : FeatureStore G) × (r ≡ returned m.request_id t) × Taken s.iostack t.iostack m

  -- One of the two errors, and the store as it was.
  abbrev pub NothingGot : FeatureStore G → Outcome G ℕ → Type 0
  NothingGot s r = (r ≡ thrown no_request_to_get s) ⊎ (r ≡ thrown not_ready_for_get s)

  abbrev pub GetResult : FeatureStore G → Outcome G ℕ → Type 0
  GetResult s r =
      ((m : OutstandingMeta) × (front_outstanding s.iostack ≡ some m)
        × (is_ready m.state ≡ true)
        × Got s m r)
      ⊎ (((m : OutstandingMeta) → front_outstanding s.iostack ≡ some m → is_ready m.state ≡ false)
          × NothingGot s r)

module _ {G : Type 0} (k : Gpu G) where
  finish_get-Got :
      (s : FeatureStore G) (ctxs : ℕ) (m : OutstandingMeta)
      → OrderedIn s
      → front_outstanding s.iostack ≡ some m
      → Got s m (finish_get k s ctxs m)
  unfolding counted
  finish_get-Got s ctxs m o at =
      let (accepted, taken) = consume_lem s.iostack m o at in
      (_, if_false _ _ (ap not accepted), taken)

  -- `front_ctxs` has changed nothing that `Taken` speaks of.
  through_front :
      (s t : BamIoStack) (m : OutstandingMeta) → Taken (front_ctxs s).1 t m → Taken s t m
  unfolding front_ctxs
  through_front s t m taken = record {
    ordered = taken.ordered;
    remaining = taken.remaining;
    last = taken.last;
    in_turn = taken.in_turn;
  }

  finish-GetResult :
      (s g : FeatureStore G) (ctxs : ℕ) (m : OutstandingMeta)
      → OrderedIn g
      → g.iostack ≡ (front_ctxs s.iostack).1
      → front_outstanding s.iostack ≡ some m
      → (r : Outcome G ℕ)
      → r ≡ (if not (is_ready m.state) then thrown not_ready_for_get s else finish_get k g ctxs m)
      → GetResult s r
  unfolding front_outstanding front_ctxs
  finish-GetResult s g ctxs m o same at r e = elim (Bool-cases (is_ready m.state)) [
    | inl is ↦
        let (t, ret, taken) = finish_get-Got g ctxs m o (ap front_outstanding same ∙ at) in
        inl (
          m,
          at,
          is,
          (
            t,
            e ∙ if_false _ _ (ap not is) ∙ ret,
            through_front s.iostack t.iostack m (subst (λ q. Taken q t.iostack m) same taken),
          ),
        )
    | inr is ↦ inr ((λ m' at'. ap ready_in (sym at' ∙ at) ∙ is), inr (e ∙ if_true _ _ (ap not is)))
  ]
    where
      ready_in : Option OutstandingMeta → Bool
      ready_in none = false
      ready_in (some x) = is_ready x.state

  get-GetResult :
      (s : FeatureStore G) (tensor : ℕ) (found : Option OutstandingMeta)
      → OrderedIn s
      → front_outstanding s.iostack ≡ found
      → GetResult s (get_light k s tensor found) × GetResult s (get_rows k s tensor found)
  get-GetResult s tensor none o at =
      (inr ((λ m at'. cc (sym at ∙ at')), inl refl), inr ((λ m at'. cc (sym at ∙ at')), inl refl))
  get-GetResult s tensor (some m) o at =
      let kept = front_ctxs-Ordered s.iostack o in
      (finish-GetResult s _ _ m kept refl at _ refl, finish-GetResult s _ _ m kept refl at _ refl)

  -- In a store whose stack is in order, gathering, in either variant, does one of two things.
  -- Where the front request is ready, it returns its id, which is the one after the last consumed,
  -- and takes off that request alone. Where there is none, or it is not ready, it throws, and the
  -- store is as it was.
  pub get_feature_lem :
      (s : FeatureStore G) (tensor : ℕ)
      → OrderedIn s
      → GetResult s (get_feature_light_registered k s tensor)
        × GetResult s (get_feature_light_registered_rowctx k s tensor)
  unfolding get_feature_light_registered get_feature_light_registered_rowctx
  get_feature_lem s tensor o = get-GetResult s tensor _ o refl

  -- The front request is ready, and the others and the counters are as they were.
  abbrev pub Polled : FeatureStore G → OutstandingMeta → FeatureStore G → Type 0
  Polled s m t =
      OrderedIn t
      × (t.iostack.outstanding_queue ≡ with_state m ready ∷ pop_front s.iostack.outstanding_queue)
      × (t.iostack.last_consumed_request_id ≡ s.iostack.last_consumed_request_id)

  mark_front-Polled :
      (e : Error) (s : FeatureStore G) (m : OutstandingMeta)
      → OrderedIn s
      → front_outstanding s.iostack ≡ some m
      → (t : FeatureStore G) × (mark_front k e s m.request_id ≡ returned m.request_id t)
        × Polled s m t
  unfolding mark_front with_stack
  mark_front-Polled e s m o at =
      let stack = record s.iostack {
        outstanding_queue = with_state m ready ∷ pop_front s.iostack.outstanding_queue;
      } in
      let own = mark_front_ready_own s.iostack m at in
      (
        record s { iostack = stack },
        ap (λ r. after_mark r) own,
        (
          subst Ordered (ap stack_in own) (mark_front_ready-Ordered s.iostack m.request_id o),
          refl,
          refl,
        ),
      )
    where
      stack_in : Bool × BamIoStack → BamIoStack
      stack_in r = r.1

      after_mark : Bool × BamIoStack → Outcome G ℕ
      after_mark r =
          if not r.0 then thrown e s else returned m.request_id (record s { iostack = r.1 })

  -- The polling kernel has run for the front request.
  polled_front :
      (s : FeatureStore G) (m : OutstandingMeta)
      → front_outstanding s.iostack ≡ some m
      → (t : FeatureStore G) × (single_thread_poll_registered k s m.request_id ≡ returned tt t)
        × (t.iostack ≡ (front_ctxs s.iostack).1)
  unfolding single_thread_poll_registered
  polled_front s m at = (_, ap (poll_front k s m.request_id) at ∙ if_false _ _ (fits m), refl)

  state_ready : (st : RequestState) → is_ready st ≡ true → st ≡ ready
  state_ready st e = ground (arith, e)

  abbrev pub PollResult : FeatureStore G → OutstandingMeta → Outcome G ℕ → Type 0
  PollResult s m r = (t : FeatureStore G) × (r ≡ returned m.request_id t) × Polled s m t

  poll_request-PollResult :
      (s : FeatureStore G) (m : OutstandingMeta)
      → OrderedIn s
      → front_outstanding s.iostack ≡ some m
      → PollResult s m (poll_request k s (some m))
  unfolding front_ctxs front_outstanding counted
  poll_request-PollResult s m o at = elim (Bool-cases (is_ready m.state)) [
    | inl is ↦ (
      s,
      if_true _ _ is,
      (
        o,
        at_front s.iostack.outstanding_queue m at
            ∙ ap (λ st. with_state m st ∷ pop_front s.iostack.outstanding_queue)
                (state_ready m.state is),
        refl,
      ),
    )
    | inr is ↦
        let (t1, polled, same) = polled_front s m at in
        let (t, marked, (oo, queue, last)) =
          mark_front-Polled failed_to_mark_ready t1 m
            (subst Ordered (sym same) (front_ctxs-Ordered s.iostack o))
            (ap front_outstanding same ∙ at) in
        (
          t,
          if_false _ _ is
              ∙ ap (λ r. and_then r (λ _ u. mark_front k failed_to_mark_ready u m.request_id))
                  polled
              ∙ marked,
          (
            oo,
            queue ∙ ap (λ q. with_state m ready ∷ pop_front q.outstanding_queue) same,
            last ∙ ap (λ q. q.last_consumed_request_id) same,
          ),
        )
  ]

  -- In a store whose stack is in order, polling never throws. With no request outstanding it
  -- returns 0 and the store as it was; otherwise it returns the id of the front request, which is
  -- ready in the new store, while all others are as they were.
  pub service_registered_poll_lem :
      (s : FeatureStore G)
      → OrderedIn s
      → ((front_outstanding s.iostack ≡ none) × (service_registered_poll k s ≡ returned 0 s))
        ⊎ ((m : OutstandingMeta) × (front_outstanding s.iostack ≡ some m)
            × PollResult s m (service_registered_poll k s))
  unfolding service_registered_poll
  service_registered_poll_lem s o = elim (Option-cases (front_outstanding s.iostack)) [
    | inl e ↦ inl (e, ap (poll_request k s) e)
    | inr (m, e) ↦ inr (
      m,
      e,
      subst (λ f. PollResult s m (poll_request k s f)) (sym e) (poll_request-PollResult s m o e),
    )
  ]
