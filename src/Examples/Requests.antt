-- ===== src/Examples/Requests.antt =====
-- Two registered requests, with a GPU that counts its kernels and gives out addresses from 100 on.
use generic_asynchronous_io.Prelude.{ℕ, ◌+◌, ◌≡◌, refl, arith, [], ◌∷◌, length, none, some}
use generic_asynchronous_io.IoStack.{
  bam_io_stack, register_outstanding, mark_ready_at, mark_front_ready, push_ctxs,
  front_ready_request_id,
}
use generic_asynchronous_io.IoStack.Marks.{MarkResult, mark_ready_at_lem}
use generic_asynchronous_io.Registered.{Gpu, FeatureStore}
use generic_asynchronous_io.Registered.Outcome.{returned}
use generic_asynchronous_io.Registered.Service.{submit_async_registered, counted}
use generic_asynchronous_io.Registered.Gather.{
  service_registered_try_poll_window_skip_front, get_feature_light_registered,
  get_feature_light_registered_rowctx,
}
use generic_asynchronous_io.Registered.Kept.{OrderedIn}
use generic_asynchronous_io.Registered.Serve.{GetResult, get_feature_lem}
use generic_asynchronous_io.Registered.Progress.{
  Calls, fresh, then_call, submit, Calls-Ordered, Serves, served_lem,
}
use generic_asynchronous_io.Registered.Window.{Behind, try_poll_window_lem}

abbrev counting : Gpu ℕ
counting = record {
  malloc = λ g count. (g + 100, g + 1);
  free = λ g ptr. g + 1;
  submit = λ g i d n c x. g + 1;
  submit_rowctx = λ g i d n c x. g + 1;
  register_lookup = λ g c n l. g + 1;
  poll = λ g i d n c x. g + 1;
  poll_rowctx = λ g i d n c x. g + 1;
  service_window = λ g q l. g + 1;
  pending = λ g c n s. (0, g + 1);
  get_light = λ g t i d n c x. g + 1;
  get_light_rowctx = λ g t i d n c x. g + 1;
}

abbrev fresh_store : FeatureStore ℕ
fresh_store = record {
  iostack = bam_io_stack 1;
  ctrls = some 2 ∷ none ∷ some 3 ∷ [];
  blk_size = 128;
  total_access = 0;
  registered_total_logical_queues = 0;
  d_registered_ctx_lookup = 0;
  registered_ctx_lookup_capacity = 0;
  gpu = 0;
}

abbrev one_submitted : FeatureStore ℕ
one_submitted = (submit_async_registered counting fresh_store 7 10 128 128 0).1

abbrev two_submitted : FeatureStore ℕ
two_submitted = (submit_async_registered counting one_submitted 8 20 128 128 0).1

one_submitted-Calls : Calls counting one_submitted
unfolding bam_io_stack
one_submitted-Calls =
    then_call (fresh fresh_store 1 refl)
      (submit 7 10 128 128 0 (λ e. omega (arith, e)) (omega arith))

two_submitted-Calls : Calls counting two_submitted
unfolding bam_io_stack submit_async_registered register_outstanding push_ctxs counted
two_submitted-Calls =
    then_call one_submitted-Calls (submit 8 20 128 128 0 (λ e. omega (arith, e)) (omega arith))

Calls-Ordered_example : OrderedIn two_submitted
Calls-Ordered_example = Calls-Ordered counting two_submitted-Calls

two_outstanding : length two_submitted.iostack.outstanding_queue ≡ 2
unfolding bam_io_stack submit_async_registered register_outstanding push_ctxs counted
two_outstanding = refl

served_lem_example :
    (t : FeatureStore ℕ) × Serves counting 9 two_submitted (1 ∷ 2 ∷ []) t
    × (t.iostack.outstanding_queue ≡ [])
    × OrderedIn t
unfolding submit_async_registered register_outstanding bam_io_stack
served_lem_example =
    served_lem counting 9 two_submitted 2 (Calls-Ordered counting two_submitted-Calls)
      two_outstanding

get_feature_lem_example :
    GetResult two_submitted (get_feature_light_registered counting two_submitted 9)
    × GetResult two_submitted (get_feature_light_registered_rowctx counting two_submitted 9)
get_feature_lem_example =
    get_feature_lem counting two_submitted 9 (Calls-Ordered counting two_submitted-Calls)

try_poll_window_lem_example :
    (t : FeatureStore ℕ) × (service_registered_try_poll_window_skip_front counting two_submitted 4
      ≡ returned (front_ready_request_id two_submitted.iostack) t)
    × Behind two_submitted.iostack t.iostack
try_poll_window_lem_example = try_poll_window_lem counting two_submitted 4

mark_ready_at_lem_example :
    MarkResult two_submitted.iostack 1 2 (mark_ready_at two_submitted.iostack 1 2)
    × (mark_front_ready two_submitted.iostack 2 ≡ mark_ready_at two_submitted.iostack 0 2)
mark_ready_at_lem_example = mark_ready_at_lem two_submitted.iostack 1 2
