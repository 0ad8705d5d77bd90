-- ===== src/IoStack.antt =====
-- bam/include/bam_iostack.cuh: `BaM_IOStack`, the host's queues of requests that have been
-- submitted and not yet consumed. Pointers are numbers, and 0 is the null pointer.
pub mod Order
pub mod Marks
use generic_asynchronous_io.Prelude.{
  ℕ, zero, suc, ◌+◌, ◌%◌, ◌^◌, Bool, true, false, not, ◌&&◌, ◌||◌, ◌==◌, if◌then◌else◌, List, [],
  ◌∷◌, ◌++◌, length, get_elem?, set, Option, none, some, leb, u64,
}

-- `request_state_t`
pub data RequestState : Type 0 where
  submitted : RequestState
  ready : RequestState
  consumed : RequestState

abbrev pub is_ready : RequestState → Bool
is_ready submitted = false
is_ready ready = true
is_ready consumed = false

-- `outstanding_meta_t`
pub record OutstandingMeta : Type 0 where
  pub request_id : ℕ
  pub index_ptr : ℕ
  pub num_index : ℕ
  pub dim : ℕ
  pub cache_dim : ℕ
  pub key_off : ℕ
  pub ctxs : ℕ
  pub ctx_count : ℕ
  pub ctx_stride : ℕ
  pub state : RequestState

pub record BamIoStack : Type 0 where
  pub presubmit_count : ℕ
  pub d_warp_ctxs : ℕ
  pub d_warp_ctxs_queue : List ℕ
  pub d_warp_ctxs_count_queue : List ℕ
  pub outstanding_queue : List OutstandingMeta
  pub next_request_id : ℕ
  pub last_consumed_request_id : ℕ

abbrev pub nullptr : ℕ
nullptr = 0

-- The constructor.
unfoldable pub bam_io_stack : ℕ → BamIoStack
bam_io_stack presubmit_count = record {
  presubmit_count = presubmit_count;
  d_warp_ctxs = nullptr;
  d_warp_ctxs_queue = [];
  d_warp_ctxs_count_queue = [];
  outstanding_queue = [];
  next_request_id = 1;
  last_consumed_request_id = 0;
}

-- `pop_front` and `front` of a deque.
module _ {ℓ} {A : Type ℓ} where
  abbrev pub pop_front : List A → List A
  pop_front [] = []
  pop_front (x ∷ xs) = xs

  abbrev pub front_or : A → List A → A
  front_or d [] = d
  front_or d (x ∷ xs) = x

unfoldable pub push_ctxs : BamIoStack → (ctxs ctx_count : ℕ) → BamIoStack
push_ctxs s ctxs ctx_count = record s {
  d_warp_ctxs_queue = s.d_warp_ctxs_queue ++ ctxs ∷ [];
  d_warp_ctxs_count_queue = s.d_warp_ctxs_count_queue ++ ctx_count ∷ [];
  d_warp_ctxs = if s.d_warp_ctxs == nullptr then ctxs else s.d_warp_ctxs;
}

-- `register_outstanding`: the id of the new request, and the stack with it.
unfoldable pub register_outstanding :
    BamIoStack
    → (ctxs ctx_count index_ptr num_index dim cache_dim key_off ctx_stride : ℕ) → ℕ × BamIoStack
unfolding push_ctxs
register_outstanding s ctxs ctx_count index_ptr num_index dim cache_dim key_off ctx_stride =
    let pushed = push_ctxs s ctxs ctx_count in
    let meta : OutstandingMeta = record {
      request_id = s.next_request_id;
      index_ptr = index_ptr;
      num_index = num_index;
      dim = dim;
      cache_dim = cache_dim;
      key_off = key_off;
      ctxs = ctxs;
      ctx_count = ctx_count;
      ctx_stride = ctx_stride;
      state = submitted;
    } in
    (
      s.next_request_id,
      record pushed {
        next_request_id = u64 (s.next_request_id + 1);
        outstanding_queue = s.outstanding_queue ++ meta ∷ [];
      },
    )

-- `front_ctxs` also stores what it returns.
unfoldable pub front_ctxs : BamIoStack → ℕ × BamIoStack
front_ctxs s = let f = front_or nullptr s.d_warp_ctxs_queue in (f, record s { d_warp_ctxs = f })

unfoldable pub front_ctx_count : BamIoStack → ℕ
front_ctx_count s = front_or 0 s.d_warp_ctxs_count_queue

unfoldable pub outstanding_at : BamIoStack → ℕ → Option OutstandingMeta
outstanding_at s offset = get_elem? s.outstanding_queue offset

unfoldable pub front_outstanding : BamIoStack → Option OutstandingMeta
front_outstanding s = get_elem? s.outstanding_queue 0

abbrev pub or_null : Option ℕ → ℕ
or_null none = nullptr
or_null (some p) = p

unfoldable pub ctxs_at : BamIoStack → ℕ → ℕ
ctxs_at s offset = or_null (get_elem? s.d_warp_ctxs_queue offset)

unfoldable pub outstanding_count : BamIoStack → ℕ
outstanding_count s = length s.outstanding_queue

abbrev pub ready_of : Option OutstandingMeta → Bool
ready_of none = false
ready_of (some meta) = is_ready meta.state

unfoldable pub front_outstanding_ready : BamIoStack → Bool
unfolding front_outstanding
front_outstanding_ready s = ready_of (front_outstanding s)

abbrev pub ready_id_of : Option OutstandingMeta → ℕ
ready_id_of none = 0
ready_id_of (some meta) = if not (is_ready meta.state) then 0 else meta.request_id

unfoldable pub front_ready_request_id : BamIoStack → ℕ
unfolding front_outstanding
front_ready_request_id s = ready_id_of (front_outstanding s)

abbrev pub state_of : Option OutstandingMeta → RequestState
state_of none = consumed
state_of (some meta) = meta.state

unfoldable pub front_state : BamIoStack → RequestState
unfolding front_outstanding
front_state s = state_of (front_outstanding s)

-- The test of the `mark_` functions on the request they have found: the id 0 fits any.
abbrev pub refused : OutstandingMeta → ℕ → Bool
refused meta request_id = not (request_id == 0) && not (meta.request_id == request_id)

abbrev pub with_state : OutstandingMeta → RequestState → OutstandingMeta
with_state meta st = record meta { state = st }

abbrev pub marked :
    BamIoStack → (offset request_id : ℕ) → Option OutstandingMeta → Bool × BamIoStack
marked s offset request_id none = (false, s)
marked s offset request_id (some meta) = if refused meta request_id then (false, s) else (
  true,
  record s { outstanding_queue = set s.outstanding_queue offset (with_state meta ready) },
)

unfoldable pub mark_ready_at : BamIoStack → (offset request_id : ℕ) → Bool × BamIoStack
mark_ready_at s offset request_id =
    marked s offset request_id (get_elem? s.outstanding_queue offset)

unfoldable pub mark_front_ready : BamIoStack → ℕ → Bool × BamIoStack
mark_front_ready s request_id = marked s 0 request_id (get_elem? s.outstanding_queue 0)

abbrev pub marked_consumed : BamIoStack → ℕ → Option OutstandingMeta → Bool × BamIoStack
marked_consumed s request_id none = (false, s)
marked_consumed s request_id (some meta) = if refused meta request_id then (false, s) else (
  true,
  record s {
    outstanding_queue = set s.outstanding_queue 0 (with_state meta consumed);
    last_consumed_request_id = meta.request_id;
  },
)

unfoldable pub mark_front_consumed : BamIoStack → ℕ → Bool × BamIoStack
mark_front_consumed s request_id = marked_consumed s request_id (get_elem? s.outstanding_queue 0)

abbrev pub popped : BamIoStack → List ℕ → BamIoStack
popped s [] = record s { d_warp_ctxs = nullptr }
popped s (x ∷ rest) = record s {
  d_warp_ctxs_queue = rest;
  d_warp_ctxs_count_queue = pop_front s.d_warp_ctxs_count_queue;
  outstanding_queue = pop_front s.outstanding_queue;
  d_warp_ctxs = front_or nullptr rest;
}

unfoldable pub pop_ctxs : BamIoStack → BamIoStack
pop_ctxs s = popped s s.d_warp_ctxs_queue
