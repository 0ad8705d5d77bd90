-- ===== src/Registered/Window.antt =====
-- Looking behind the front request changes no more than submitted requests that are found ready.
use generic_asynchronous_io.Prelude.{
  ℕ, zero, suc, ◌-◌, ◌≡◌, ◌⊎◌, inl, inr, refl, sym, ap, ◌∙◌, subst, arith, Bool, true, not,
  if◌then◌else◌, if_true, if_false, Bool-cases, Option, none, some, List, [], ◌∷◌, get_elem?, set,
  leb, ltb, min,
}
use generic_asynchronous_io.IoStack.{
  BamIoStack, OutstandingMeta, RequestState, submitted, ready, outstanding_at, outstanding_count,
  mark_ready_at, with_state, marked, front_ready_request_id, front_outstanding, ready_id_of,
}
use generic_asynchronous_io.IoStack.Marks.{fits}
use generic_asynchronous_io.Registered.{Gpu, FeatureStore, k_registered_window_service_bursts}
use generic_asynchronous_io.Registered.Outcome.{
  Outcome, returned, thrown, and_then, failed_to_mark_window,
}
use generic_asynchronous_io.Registered.Service.{
  service_registered_completions_burst, registered_request_ready_at,
}
use generic_asynchronous_io.Registered.Gather.{
  is_submitted, Turn, stop, go_on, window_round, continued, window_from,
  service_registered_try_poll_window_skip_front,
}
use generic_asynchronous_io.Registered.Kept.{burst_iostack, request_ready_at_iostack}

-- Each entry is as before, or was submitted and is ready.
abbrev pub Advanced : List OutstandingMeta → List OutstandingMeta → Type 0
Advanced [] [] = Unit {0}
Advanced (m ∷ q) (n ∷ r) =
    ((n ≡ m) ⊎ ((m.state ≡ submitted) × (n ≡ with_state m ready))) × Advanced q r
Advanced _ _ = ⊥

-- And the front request is as before.
abbrev pub BehindFront : List OutstandingMeta → List OutstandingMeta → Type 0
BehindFront [] [] = Unit {0}
BehindFront (m ∷ q) (n ∷ r) = (n ≡ m) × Advanced q r
BehindFront _ _ = ⊥

Advanced-refl : (q : List OutstandingMeta) → Advanced q q
Advanced-refl [] = tt
Advanced-refl (m ∷ q) = (inl refl, Advanced-refl q)

Advanced-trans : (p q r : List OutstandingMeta) → Advanced p q → Advanced q r → Advanced p r
Advanced-trans [] [] [] a b = tt
Advanced-trans [] [] (_ ∷ _) a b = elim b [ ]
Advanced-trans [] (_ ∷ _) r a b = elim a [ ]
Advanced-trans (_ ∷ _) [] r a b = elim a [ ]
Advanced-trans (_ ∷ _) (_ ∷ _) [] a b = elim b [ ]
Advanced-trans (x ∷ p) (y ∷ q) (z ∷ r) (a, aa) (b, bb) = (one a b, Advanced-trans p q r aa bb)
  where
    one :
        (y ≡ x) ⊎ ((x.state ≡ submitted) × (y ≡ with_state x ready))
        → (z ≡ y) ⊎ ((y.state ≡ submitted) × (z ≡ with_state y ready))
        → (z ≡ x) ⊎ ((x.state ≡ submitted) × (z ≡ with_state x ready))
    one (inl e) (inl f) = inl (f ∙ e)
    one (inr (s, e)) (inl f) = inr (s, f ∙ e)
    one (inl e) (inr (t, f)) =
        inr (ap (λ w. w.state) (sym e) ∙ t, f ∙ ap (λ w. with_state w ready) e)
    one (inr (s, e)) (inr (t, f)) = inr (s, f ∙ ap (λ w. with_state w ready) e)

Advanced-set :
    (q : List OutstandingMeta) (i : ℕ) (m : OutstandingMeta)
    → get_elem? q i ≡ some m
    → m.state ≡ submitted
    → Advanced q (set q i (with_state m ready))
Advanced-set [] i m at sub = tt
Advanced-set (x ∷ q) zero m at sub =
    (inr (ap state_in at ∙ sub, ap ready_in (sym at)), Advanced-refl q)
  where
    state_in : Option OutstandingMeta → RequestState
    state_in none = m.state
    state_in (some w) = w.state

    ready_in : Option OutstandingMeta → OutstandingMeta
    ready_in none = m
    ready_in (some w) = with_state w ready
Advanced-set (x ∷ q) (suc i) m at sub = (inl refl, Advanced-set q i m at sub)

BehindFront-refl : (q : List OutstandingMeta) → BehindFront q q
BehindFront-refl [] = tt
BehindFront-refl (m ∷ q) = (refl, Advanced-refl q)

BehindFront-trans :
    (p q r : List OutstandingMeta) → BehindFront p q → BehindFront q r → BehindFront p r
BehindFront-trans [] [] [] a b = tt
BehindFront-trans [] [] (_ ∷ _) a b = elim b [ ]
BehindFront-trans [] (_ ∷ _) r a b = elim a [ ]
BehindFront-trans (_ ∷ _) [] r a b = elim a [ ]
BehindFront-trans (_ ∷ _) (_ ∷ _) [] a b = elim b [ ]
BehindFront-trans (x ∷ p) (y ∷ q) (z ∷ r) (a, aa) (b, bb) = (b ∙ a, Advanced-trans p q r aa bb)

BehindFront-set :
    (q : List OutstandingMeta) (i : ℕ) (m : OutstandingMeta)
    → get_elem? q (suc i) ≡ some m
    → m.state ≡ submitted
    → BehindFront q (set q (suc i) (with_state m ready))
BehindFront-set [] i m at sub = tt
BehindFront-set (x ∷ q) i m at sub = (refl, Advanced-set q i m at sub)

-- The stacks differ in their outstanding requests at most, and there behind the front one.
pub record Behind (s t : BamIoStack) : Type 0 where
  pub queue : BehindFront s.outstanding_queue t.outstanding_queue
  pub rest : t ≡ record s { outstanding_queue = t.outstanding_queue }

Behind-refl : (s t : BamIoStack) → t ≡ s → Behind s t
Behind-refl s t e =
    subst (Behind s) (sym e) (record { queue = BehindFront-refl s.outstanding_queue; rest = refl })

Behind-trans : (s t u : BamIoStack) → Behind s t → Behind t u → Behind s u
Behind-trans s t u a b = record {
  queue =
      BehindFront-trans s.outstanding_queue t.outstanding_queue u.outstanding_queue a.queue b.queue;
  rest =
      b.rest ∙ ap (λ (w : BamIoStack). record w { outstanding_queue = u.outstanding_queue }) a.rest;
}

own_mark_at :
    (s : BamIoStack) (offset : ℕ) (m : OutstandingMeta)
    → outstanding_at s offset ≡ some m
    → mark_ready_at s offset m.request_id
      ≡ (true, record s { outstanding_queue = set s.outstanding_queue offset (with_state m ready) })
unfolding mark_ready_at outstanding_at
own_mark_at s offset m at = ap (marked s offset m.request_id) at ∙ if_false _ _ (fits m)

module _ {G : Type 0} (k : Gpu G) where
  abbrev RoundResult : FeatureStore G → Outcome G Turn → Type 0
  RoundResult s r =
      (turn : Turn) × (t : FeatureStore G) × (r ≡ returned turn t) × Behind s.iostack t.iostack

  submitted_state : (st : RequestState) → is_submitted st ≡ true → st ≡ submitted
  submitted_state st e = ground (arith, e)

  round-RoundResult :
      (s : FeatureStore G) (i : ℕ) (found : Option OutstandingMeta)
      → outstanding_at s.iostack (suc i) ≡ found
      → RoundResult s (window_round k s (suc i) found)
  unfolding outstanding_at
  round-RoundResult s i none at = (stop, s, refl, Behind-refl s.iostack s.iostack refl)
  round-RoundResult s i (some m) at =
      let tested = registered_request_ready_at k s (suc i) in
      let same = request_ready_at_iostack k s (suc i) in
      elim (Bool-cases (is_submitted m.state)) [
        | inr no_sub ↦ (go_on, s, if_true _ _ (ap not no_sub), Behind-refl s.iostack s.iostack refl)
        | inl sub ↦ elim (Bool-cases tested.0) [
          | inr not_done ↦ (
            go_on,
            tested.1,
            if_false _ _ (ap not sub) ∙ if_true _ _ (ap not not_done),
            Behind-refl s.iostack tested.1.iostack same,
          )
          | inl is_done ↦
              let stack = record s.iostack {
                outstanding_queue = set s.iostack.outstanding_queue (suc i) (with_state m ready);
              } in
              let mark =
                ap (λ q. mark_ready_at q (suc i) m.request_id) same
                ∙ own_mark_at s.iostack (suc i) m at in
              (
                go_on,
                record (tested.1) { iostack = stack },
                if_false _ _ (ap not sub)
                    ∙ if_false _ _ (ap not is_done)
                    ∙ ap (ended tested.1) mark,
                record {
                  queue =
                      BehindFront-set s.iostack.outstanding_queue i m at
                        (submitted_state m.state sub);
                  rest = refl;
                },
              )
        ]
      ]
    where
      ended : FeatureStore G → Bool × BamIoStack → Outcome G Turn
      ended t r =
          if not r.0
          then thrown failed_to_mark_window t
          else returned go_on (record t { iostack = r.1 })

  abbrev LoopResult : FeatureStore G → Outcome G Unit → Type 0
  LoopResult s r = (t : FeatureStore G) × (r ≡ returned tt t) × Behind s.iostack t.iostack

  continued-LoopResult :
      (s t : FeatureStore G) (turn : Turn) (rest : Outcome G Unit)
      → Behind s.iostack t.iostack
      → LoopResult t rest
      → LoopResult s (continued k turn t rest)
  continued-LoopResult s t stop rest b _ = (t, refl, b)
  continued-LoopResult s t go_on rest b (u, e, c) =
      (u, e, Behind-trans s.iostack t.iostack u.iostack b c)

  window_from-LoopResult :
      (s : FeatureStore G) (i rounds : ℕ) → LoopResult s (window_from k s (suc i) rounds)
  unfolding window_from
  window_from-LoopResult s i zero = (s, refl, Behind-refl s.iostack s.iostack refl)
  window_from-LoopResult s i (suc rounds) =
      let (turn, t, e, b) = round-RoundResult s i (outstanding_at s.iostack (suc i)) refl in
      let step = λ (turn : Turn) (t : FeatureStore G).
        continued k turn t (window_from k t (suc (suc i)) rounds) in
      subst (λ r. LoopResult s (and_then r step)) (sym e)
        (continued-LoopResult s t turn _ b (window_from-LoopResult t (suc i) rounds))

  front_id : (s t : BamIoStack) → Behind s t → front_ready_request_id t ≡ front_ready_request_id s
  unfolding front_ready_request_id front_outstanding
  front_id s t b = front_same s.outstanding_queue t.outstanding_queue b.queue
    where
      front_same :
          (p q : List OutstandingMeta)
          → BehindFront p q
          → ready_id_of (get_elem? q 0) ≡ ready_id_of (get_elem? p 0)
      front_same [] [] a = refl
      front_same [] (_ ∷ _) a = absurd a
      front_same (_ ∷ _) [] a = absurd a
      front_same (x ∷ p) (y ∷ q) (a, _) = ap (λ w. ready_id_of (some w)) a

  -- Polling behind the front request never throws. Whatever the window size, it returns the id of
  -- the front request where that was ready before the call and else 0, leaves the front request
  -- and the other fields of the stack as they were, and each later request is as it was or was
  -- submitted and is ready now.
  pub try_poll_window_lem :
      (s : FeatureStore G) (window_size : ℕ)
      → (t : FeatureStore G) × (service_registered_try_poll_window_skip_front k s window_size
          ≡ returned (front_ready_request_id s.iostack) t)
        × Behind s.iostack t.iostack
  unfolding service_registered_try_poll_window_skip_front
  try_poll_window_lem s window_size =
      let total = outstanding_count s.iostack in
      let s1 = service_registered_completions_burst k s k_registered_window_service_bursts in
      let limit = min (if ltb 1 window_size then window_size else 1) (total - 1) in
      let (t, e, b) = window_from-LoopResult s1 0 limit in
      let behind =
        Behind-trans s.iostack s1.iostack t.iostack
          (Behind-refl s.iostack s1.iostack (burst_iostack k s _)) b in
      elim (Bool-cases (leb total 1)) [
        | inl few ↦ (s, if_true _ _ few, Behind-refl s.iostack s.iostack refl)
        | inr more ↦ (
          t,
          if_false _ _ more
              ∙ ap (λ r. and_then r (λ _ u. returned (front_ready_request_id u.iostack) u)) e
              ∙ ap (λ id. returned id t) (front_id s.iostack t.iostack behind),
          behind,
        )
      ]
