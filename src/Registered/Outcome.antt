-- ===== src/Registered/Outcome.antt =====
-- gids_module/gids_nvme.cu: what a method of the store returns or throws, and the store after it.
use generic_asynchronous_io.Registered.{FeatureStore}

-- The texts of the `std::runtime_error`s.
pub data Error : Type 0 where
  no_request_to_poll : Error
  request_id_mismatch : Error
  no_request_at_offset : Error
  id_mismatch_at_offset : Error
  ctxs_missing_at_offset : Error
  no_rowctx_to_poll : Error
  failed_to_mark_ready : Error
  failed_to_mark_rowctx_ready : Error
  failed_to_mark_window : Error
  no_request_to_get : Error
  not_ready_for_get : Error
  failed_to_mark_consumed : Error

pub data Outcome (G A : Type 0) : Type 0 where
  returned : A → FeatureStore G → Outcome G A
  thrown : Error → FeatureStore G → Outcome G A

-- The next statement of a method.
abbrev pub and_then :
    {G A B : Type 0} → Outcome G A → (A → FeatureStore G → Outcome G B) → Outcome G B
and_then (returned a s) f = f a s
and_then (thrown e s) f = thrown e s

abbrev pub store_of : {G A : Type 0} → Outcome G A → FeatureStore G
store_of (returned a s) = s
store_of (thrown e s) = s
