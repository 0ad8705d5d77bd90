-- ===== src/IoStack/Order.antt =====
-- The three queues of the stack stay in step, and the requests are numbered in their order.
use generic_asynchronous_io.Prelude.{
  ℕ, zero, suc, ◌+◌, ◌^◌, ◌<◌, ◌≡◌, ◌≢◌, refl, sym, ap, ◌∙◌, arith, Bool, true, false, ◌==◌,
  if◌then◌else◌, List, [], ◌∷◌, ◌++◌, map, length, get_elem?, set, Option, none, some,
  length-append, length-set,
}
use generic_asynchronous_io.IoStack.{
  OutstandingMeta, RequestState, BamIoStack, nullptr, front_or, pop_front, push_ctxs,
  register_outstanding, front_ctxs, with_state, marked, refused, mark_ready_at, mark_front_ready,
  bam_io_stack, ready,
}

abbrev pub Real : List ℕ → Type 0
Real [] = Unit {0}
Real (c ∷ cs) = (c ≢ nullptr) × Real cs

-- The ids count up from `first`.
abbrev pub Numbered : ℕ → List OutstandingMeta → Type 0
Numbered first [] = Unit {0}
Numbered first (m ∷ ms) = (m.request_id ≡ first) × Numbered (suc first) ms

pub record Ordered (s : BamIoStack) : Type 0 where
  pub ctxs_in_step : map (λ m. m.ctxs) s.outstanding_queue ≡ s.d_warp_ctxs_queue
  pub counts_in_step : map (λ m. m.ctx_count) s.outstanding_queue ≡ s.d_warp_ctxs_count_queue
  pub front_in_step : s.d_warp_ctxs ≡ front_or nullptr s.d_warp_ctxs_queue
  pub real : Real s.d_warp_ctxs_queue
  pub numbered : Numbered (suc s.last_consumed_request_id) s.outstanding_queue
  pub next_id : s.next_request_id ≡ suc s.last_consumed_request_id + length s.outstanding_queue

pub bam_io_stack-Ordered : (presubmit_count : ℕ) → Ordered (bam_io_stack presubmit_count)
unfolding bam_io_stack
bam_io_stack-Ordered n = record {
  ctxs_in_step = refl;
  counts_in_step = refl;
  front_in_step = refl;
  real = tt;
  numbered = tt;
  next_id = refl;
}

module _ {A B : Type 0} where
  map-snoc : (f : A → B) (xs : List A) (x : A) → map f (xs ++ x ∷ []) ≡ map f xs ++ f x ∷ []
  map-snoc f [] x = refl
  map-snoc f (y ∷ xs) x = ap (λ t. f y ∷ t) (map-snoc f xs x)

  -- A write that `f` does not see.
  pub map-set :
      (f : A → B) (xs : List A) (i : ℕ) (x y : A)
      → get_elem? xs i ≡ some x
      → f y ≡ f x
      → map f (set xs i y) ≡ map f xs
  map-set f [] i x y at e = refl
  map-set f (z ∷ xs) zero x y at e = ap (λ t. t ∷ map f xs) (e ∙ sym (ap f (some_inj at)))
    where
      some_inj : {a b : A} → some a ≡ some b → a ≡ b
      some_inj q = cc q
  map-set f (z ∷ xs) (suc i) x y at e = ap (λ t. f z ∷ t) (map-set f xs i x y at e)

  pub map-pop_front : (f : A → B) (xs : List A) → map f (pop_front xs) ≡ pop_front (map f xs)
  map-pop_front f [] = refl
  map-pop_front f (x ∷ xs) = refl

Real-snoc : (cs : List ℕ) (c : ℕ) → Real cs → c ≢ nullptr → Real (cs ++ c ∷ [])
Real-snoc [] c r ne = (ne, tt)
Real-snoc (d ∷ cs) c r ne = (r.0, Real-snoc cs c r.1 ne)

Numbered-snoc :
    (first : ℕ) (ms : List OutstandingMeta) (m : OutstandingMeta)
    → Numbered first ms
    → m.request_id ≡ first + length ms
    → Numbered first (ms ++ m ∷ [])
Numbered-snoc first [] m n e = (omega (arith, e), tt)
Numbered-snoc first (x ∷ ms) m n e = (n.0, Numbered-snoc (suc first) ms m n.1 (omega (arith, e)))

pub Numbered-set :
    (first : ℕ) (ms : List OutstandingMeta) (i : ℕ) (m : OutstandingMeta) (st : RequestState)
    → Numbered first ms
    → get_elem? ms i ≡ some m
    → Numbered first (set ms i (with_state m st))
Numbered-set first [] i m st n at = tt
Numbered-set first (x ∷ ms) zero m st n at = (id_of at ∙ n.0, n.1)
  where
    id_of : {x m : OutstandingMeta} → some x ≡ some m → m.request_id ≡ x.request_id
    id_of q = ap (λ o. id_or o) (sym q)
      where
        id_or : Option OutstandingMeta → ℕ
        id_or none = 0
        id_or (some t) = t.request_id
Numbered-set first (x ∷ ms) (suc i) m st n at = (n.0, Numbered-set (suc first) ms i m st n.1 at)

front-push :
    (cs : List ℕ) (d c : ℕ)
    → d ≡ front_or nullptr cs
    → Real cs
    → (if d == nullptr then c else d) ≡ front_or nullptr (cs ++ c ∷ [])
front-push [] d c e r = grind arith
front-push (x ∷ cs) d c e r = grind (arith, r.0)

-- A new request gets the next id and joins all three queues at the back; the stack stays in order.
pub register_outstanding-Ordered :
    (s : BamIoStack) (ctxs ctx_count index_ptr num_index dim cache_dim key_off ctx_stride : ℕ)
    → Ordered s
    → ctxs ≢ nullptr
    → s.next_request_id + 1 < 2 ^ 64
    → Ordered
        (register_outstanding s ctxs ctx_count index_ptr num_index dim cache_dim key_off
          ctx_stride).1
unfolding register_outstanding push_ctxs
register_outstanding-Ordered s ctxs ctx_count index_ptr num_index dim cache_dim key_off ctx_stride o
      ne room =
    record {
      ctxs_in_step =
          map-snoc (λ m. m.ctxs) s.outstanding_queue _ ∙ ap (λ t. t ++ ctxs ∷ []) o.ctxs_in_step;
      counts_in_step =
          map-snoc (λ m. m.ctx_count) s.outstanding_queue _
          ∙ ap (λ t. t ++ ctx_count ∷ []) o.counts_in_step;
      front_in_step = front-push s.d_warp_ctxs_queue s.d_warp_ctxs ctxs o.front_in_step o.real;
      real = Real-snoc s.d_warp_ctxs_queue ctxs o.real ne;
      numbered =
          Numbered-snoc (suc s.last_consumed_request_id) s.outstanding_queue _ o.numbered o.next_id;
      next_id = omega (arith, room, o.next_id, length-append s.outstanding_queue (_ ∷ []));
    }

if-Ordered :
    (b : Bool) (s t : BamIoStack)
    → Ordered s
    → Ordered t
    → (let r : Bool × BamIoStack = if b then (false, s) else (true, t) in Ordered r.1)
if-Ordered true s t p q = p
if-Ordered false s t p q = q

pub set-Ordered :
    (s : BamIoStack) (i : ℕ) (m : OutstandingMeta) (st : RequestState)
    → get_elem? s.outstanding_queue i ≡ some m
    → Ordered s
    → Ordered (record s { outstanding_queue = set s.outstanding_queue i (with_state m st) })
set-Ordered s i m st at o = record {
  ctxs_in_step = map-set (λ m. m.ctxs) s.outstanding_queue i m _ at refl ∙ o.ctxs_in_step;
  counts_in_step = map-set (λ m. m.ctx_count) s.outstanding_queue i m _ at refl ∙ o.counts_in_step;
  front_in_step = o.front_in_step;
  real = o.real;
  numbered = Numbered-set _ s.outstanding_queue i m st o.numbered at;
  next_id = omega (arith, o.next_id, length-set s.outstanding_queue i (with_state m st));
}

marked-Ordered :
    (s : BamIoStack) (i request_id : ℕ) (found : Option OutstandingMeta)
    → get_elem? s.outstanding_queue i ≡ found
    → Ordered s
    → Ordered (marked s i request_id found).1
marked-Ordered s i request_id none at o = o
marked-Ordered s i request_id (some m) at o =
    if-Ordered (refused m request_id) s _ o (set-Ordered s i m ready at o)

pub mark_ready_at-Ordered :
    (s : BamIoStack) (offset request_id : ℕ)
    → Ordered s
    → Ordered (mark_ready_at s offset request_id).1
unfolding mark_ready_at
mark_ready_at-Ordered s offset request_id o = marked-Ordered s offset request_id _ refl o

pub mark_front_ready-Ordered :
    (s : BamIoStack) (request_id : ℕ) → Ordered s → Ordered (mark_front_ready s request_id).1
unfolding mark_front_ready
mark_front_ready-Ordered s request_id o = marked-Ordered s 0 request_id _ refl o

pub front_ctxs-Ordered : (s : BamIoStack) → Ordered s → Ordered (front_ctxs s).1
unfolding front_ctxs
front_ctxs-Ordered s o = record {
  ctxs_in_step = o.ctxs_in_step;
  counts_in_step = o.counts_in_step;
  front_in_step = refl;
  real = o.real;
  numbered = o.numbered;
  next_id = o.next_id;
}
