-- ===== src/IoStack/Marks.antt =====
-- What marking a request and taking one off do to the stack.
use generic_asynchronous_io.Prelude.{
  ℕ, zero, suc, ◌≡◌, ◌≢◌, ◌⊎◌, inl, inr, refl, sym, ap, arith, Bool, true, false, List, [], ◌∷◌,
  length, get_elem?, set, Option, none, some, get_elem?-set_self, get_elem?-set_ne, subst,
  Bool-cases, ◌<◌, if◌then◌else◌,
}
use generic_asynchronous_io.IoStack.{
  OutstandingMeta, BamIoStack, pop_front, with_state, marked, refused, mark_ready_at, popped,
  mark_front_ready, mark_front_consumed, pop_ctxs, ready, consumed, outstanding_at,
  front_outstanding,
}
use generic_asynchronous_io.IoStack.Order.{Ordered, Numbered}

-- The request is not there, or another one is asked for.
abbrev pub Refused : Option OutstandingMeta → ℕ → Type 0
Refused none request_id = Unit {0}
Refused (some m) request_id = (request_id ≢ 0) × (m.request_id ≢ request_id)

-- One entry is ready in the second stack, and nothing else differs.
pub record Readied (s t : BamIoStack) (offset : ℕ) (m : OutstandingMeta) : Type 0 where
  pub was : outstanding_at s offset ≡ some m
  pub now_ready : outstanding_at t offset ≡ some (with_state m ready)
  pub others : (j : ℕ) → offset ≢ j → outstanding_at t j ≡ outstanding_at s j
  pub rest : t ≡ record s { outstanding_queue = t.outstanding_queue }

abbrev pub MarkResult : BamIoStack → (offset request_id : ℕ) → Bool × BamIoStack → Type 0
MarkResult s offset request_id r =
    ((r ≡ (false, s)) × Refused (outstanding_at s offset) request_id)
    ⊎ ((m : OutstandingMeta) × (r.0 ≡ true)
        × ((request_id ≡ 0) ⊎ (m.request_id ≡ request_id))
        × Readied s (r.1) offset m)

some-lt : {A : Type 0} (xs : List A) (i : ℕ) (x : A) → get_elem? xs i ≡ some x → i < length xs
some-lt [] i x e = cc e
some-lt (y ∷ xs) zero x e = omega arith
some-lt (y ∷ xs) (suc i) x e = omega (arith, some-lt xs i x e)

set-Readied :
    (s : BamIoStack) (i : ℕ) (m : OutstandingMeta)
    → get_elem? s.outstanding_queue i ≡ some m
    → Readied s
        (record s { outstanding_queue = set s.outstanding_queue i (with_state m ready) })
        i
        m
unfolding outstanding_at
set-Readied s i m at = record {
  was = at;
  now_ready = get_elem?-set_self s.outstanding_queue i _ (some-lt s.outstanding_queue i m at);
  others = λ j ne. get_elem?-set_ne s.outstanding_queue _ ne;
  rest = refl;
}

accepted : (m : OutstandingMeta) (id : ℕ) → refused m id ≡ false → (id ≡ 0) ⊎ (m.request_id ≡ id)
accepted m id e = ground (arith, e)

is_refused : (m : OutstandingMeta) (id : ℕ) → refused m id ≡ true → Refused (some m) id
is_refused m id e = (λ q. ground (arith, e, q), λ q. ground (arith, e, q))

-- The body of a `mark_` function whose test gave `b`.
abbrev choose : BamIoStack → BamIoStack → Bool → Bool × BamIoStack
choose s t b = if b then (false, s) else (true, t)

marked_lem :
    (s : BamIoStack) (i id : ℕ) (found : Option OutstandingMeta)
    → outstanding_at s i ≡ found
    → MarkResult s i id (marked s i id found)
unfolding outstanding_at
marked_lem s i id none at = inl (refl, subst (λ f. Refused f id) (sym at) tt)
marked_lem s i id (some m) at =
    let t = record s { outstanding_queue = set s.outstanding_queue i (with_state m ready) } in
    elim (Bool-cases (refused m id)) [
      | inl e ↦ inl (ap (choose s t) e, subst (λ f. Refused f id) (sym at) (is_refused m id e))
      | inr e ↦
          subst (λ b. MarkResult s i id (choose s t b)) (sym e)
            (inr (m, refl, accepted m id e, set-Readied s i m at))
    ]

-- Marking a request at an offset either refuses, and then the stack is unchanged and there is no
-- request at the offset or another id was asked for; or it accepts, and then the request at the
-- offset is ready and nothing else of the stack differs. Marking the front request is the same at
-- offset 0.
pub mark_ready_at_lem :
    (s : BamIoStack) (offset request_id : ℕ)
    → MarkResult s offset request_id (mark_ready_at s offset request_id)
      × (mark_front_ready s request_id ≡ mark_ready_at s 0 request_id)
unfolding mark_ready_at mark_front_ready outstanding_at
mark_ready_at_lem s offset request_id = (marked_lem s offset request_id _ refl, refl)

-- Consuming the front request and popping it.
pub record Taken (s t : BamIoStack) (m : OutstandingMeta) : Type 0 where
  pub ordered : Ordered t
  pub remaining : t.outstanding_queue ≡ pop_front s.outstanding_queue
  pub last : t.last_consumed_request_id ≡ m.request_id
  pub in_turn : m.request_id ≡ suc s.last_consumed_request_id

popped-Taken :
    (pc d : ℕ) (cs ns : List ℕ) (m : OutstandingMeta) (ms : List OutstandingMeta) (next last : ℕ)
    → (let s : BamIoStack = record {
      presubmit_count = pc;
      d_warp_ctxs = d;
      d_warp_ctxs_queue = cs;
      d_warp_ctxs_count_queue = ns;
      outstanding_queue = m ∷ ms;
      next_request_id = next;
      last_consumed_request_id = last;
    } in
        let marked_s = record s {
          outstanding_queue = with_state m consumed ∷ ms;
          last_consumed_request_id = m.request_id;
        } in
        Ordered s → Taken s (popped marked_s cs) m)
popped-Taken pc d [] ns m ms next last o = absurd (cc (o.ctxs_in_step))
popped-Taken pc d (c ∷ cs) ns m ms next last o = record {
  ordered = record {
    ctxs_in_step = ap pop_front o.ctxs_in_step;
    counts_in_step = ap pop_front o.counts_in_step;
    front_in_step = refl;
    real = o.real.1;
    numbered = subst (λ k. Numbered (suc k) ms) (sym o.numbered.0) o.numbered.1;
    next_id = omega (arith, o.next_id, o.numbered.0);
  };
  remaining = refl;
  last = refl;
  in_turn = o.numbered.0;
}

pub fits : (m : OutstandingMeta) → refused m m.request_id ≡ false
fits m = ground arith

abbrev TakenBy : BamIoStack → OutstandingMeta → Bool × BamIoStack → Type 0
TakenBy s m r = (r.0 ≡ true) × Taken s (pop_ctxs r.1) m

front-Taken :
    (s : BamIoStack) (m : OutstandingMeta) (ms : List OutstandingMeta)
    → (let t = record s { outstanding_queue = m ∷ ms } in
        Ordered t → TakenBy t m (mark_front_consumed t m.request_id))
unfolding mark_front_consumed pop_ctxs
front-Taken s m ms o =
    let t : BamIoStack = record s { outstanding_queue = m ∷ ms } in
    let marked_s = record s {
      outstanding_queue = with_state m consumed ∷ ms;
      last_consumed_request_id = m.request_id;
    } in
    subst (λ b. TakenBy t m (choose t marked_s b)) (sym (fits m))
      (
        refl,
        popped-Taken s.presubmit_count s.d_warp_ctxs s.d_warp_ctxs_queue s.d_warp_ctxs_count_queue m
            ms s.next_request_id s.last_consumed_request_id o,
      )

pub at_front :
    (q : List OutstandingMeta) (m : OutstandingMeta) → get_elem? q 0 ≡ some m → q ≡ m ∷ pop_front q
at_front [] m e = cc e
at_front (x ∷ q) m e = cc e

-- In a stack in order, consuming the front request under its own id and popping it leaves a stack
-- in order that holds the other requests; the consumed request is the one that follows the last
-- consumed, so that the ids are consumed one by one, none twice and none left out.
pub consume_lem :
    (s : BamIoStack) (m : OutstandingMeta)
    → Ordered s
    → front_outstanding s ≡ some m
    → ((mark_front_consumed s m.request_id).0 ≡ true)
      × Taken s (pop_ctxs (mark_front_consumed s m.request_id).1) m
unfolding front_outstanding
consume_lem s m o e =
    subst
      (λ q.
        let t = record s { outstanding_queue = q } in
        Ordered t → TakenBy t m (mark_front_consumed t m.request_id))
      (sym (at_front s.outstanding_queue m e)) (front-Taken s m (pop_front s.outstanding_queue)) o

own_mark :
    (s : BamIoStack) (m : OutstandingMeta) (ms : List OutstandingMeta)
    → (let t = record s { outstanding_queue = m ∷ ms } in
        mark_front_ready t m.request_id
        ≡ (true, record s { outstanding_queue = with_state m ready ∷ ms }))
unfolding mark_front_ready
own_mark s m ms =
    ap
      (choose (record s { outstanding_queue = m ∷ ms })
        (record s { outstanding_queue = with_state m ready ∷ ms }))
      (fits m)

-- The front request takes its own id.
pub mark_front_ready_own :
    (s : BamIoStack) (m : OutstandingMeta)
    → front_outstanding s ≡ some m
    → mark_front_ready s m.request_id
      ≡ (true, record s { outstanding_queue = with_state m ready ∷ pop_front s.outstanding_queue })
unfolding front_outstanding
mark_front_ready_own s m e =
    subst
      (λ q. mark_front_ready (record s { outstanding_queue = q }) m.request_id ≡ (
        true,
        record s { outstanding_queue = with_state m ready ∷ pop_front s.outstanding_queue },
      ))
      (sym (at_front s.outstanding_queue m e)) (own_mark s m (pop_front s.outstanding_queue))
