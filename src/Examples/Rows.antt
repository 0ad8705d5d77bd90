-- ===== src/Examples/Rows.antt =====
-- A row that waits on the second queue of the third of three controllers, and the end of its load.
use generic_asynchronous_io.Prelude.{
  ℕ, ◌+◌, ◌^◌, ◌<◌, ◌≡◌, ◌≢◌, ◌⊎◌, refl, arith, false, List, [], ◌∷◌, Option, some,
}
use generic_asynchronous_io.Registered.{k_registered_cid_capacity}
use generic_asynchronous_io.CtxLookup.{
  RowCtx, CacheView, Load, logical_from, locate_from, take_row, register_row, slot_of,
  finalize_registered_ctx_completion,
}
use generic_asynchronous_io.CtxLookup.Slots.{Waiting, lookup_lem}
use generic_asynchronous_io.CtxLookup.Finish.{FinishResult, finalize_lem}

abbrev three_ctrls : List (Option ℕ)
three_ctrls = some 2 ∷ some 4 ∷ some 3 ∷ []

abbrev waiting_row : RowCtx
waiting_row = record {
  r = some 0;
  count = 1;
  ctrl = 2;
  queue = 1;
  cid = 9;
  has_pending_io = 1;
  page_trans = 5;
  observed_page_translation = 0;
  is_hit = false;
}

waiting_row-Waiting : Waiting three_ctrls waiting_row
unfolding logical_from
waiting_row-Waiting = record {
  has_page = refl;
  missed = refl;
  submitted = refl;
  n_qps = 3;
  on_ctrl = refl;
  on_queue = omega arith;
  id_fits = omega arith;
  logical_queue_idx = 7;
  reached = refl;
}

lookup_lem_example :
    (k : ℕ) × (locate_from three_ctrls 0 k ≡ some (2, 1))
    × ((take_row k_registered_cid_capacity k 9
          (register_row three_ctrls k_registered_cid_capacity (λ _. 0) waiting_row 4096)).0
        ≡ some 4096)
    × ((k' cid' : ℕ)
        → k' < 2 ^ 32
        → cid' < 2 ^ 16
        → (locate_from three_ctrls 0 k' ≢ some (2, 1)) ⊎ (cid' ≢ 9)
        → register_row three_ctrls k_registered_cid_capacity
            (λ _. 0)
            waiting_row
            4096
            (slot_of k' k_registered_cid_capacity cid')
          ≡ 0)
lookup_lem_example =
    lookup_lem three_ctrls (λ _. 0) waiting_row 4096 waiting_row-Waiting (λ e. omega (arith, e))
      (omega arith)

abbrev small_cache : CacheView
small_cache = record { n_pages = 8; page_translation = λ i. i + 100 }

abbrev busy_load : Load
busy_load = record {
  ctx = waiting_row;
  page = record { state = 0x4000_0003; offset = 0; polling_flag = 1 };
  miss_cnt = 0;
}

finalize_lem_example :
    FinishResult busy_load (finalize_registered_ctx_completion small_cache busy_load)
finalize_lem_example = finalize_lem small_cache busy_load (omega arith)
