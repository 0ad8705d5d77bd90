-- ===== src/Address.antt =====
-- bam/include/page_cache.h: the global address of a page, as `get_global_address` and `find_slot`
-- make it and `find_slot` takes it apart, with the shift and the mask that the constructor of
-- `page_cache_t` computes.
pub mod RoundTrip
use generic_asynchronous_io.Prelude.{
  ℕ, zero, suc, ◌+◌, ◌-◌, ◌/◌, ◌%◌, ◌^◌, ◌==◌, ltb, if◌then◌else◌, bit_and, bit_or, ◌<<<◌, ◌>>>◌,
  u64,
}

-- `std::log2`, rounded down.
unfoldable pub log2_from : (fuel n : ℕ) → ℕ
log2_from zero n = 0
log2_from (suc fuel) n = let rest = suc (log2_from fuel (n / 2)) in if ltb n 2 then 0 else rest

unfoldable pub log2 : ℕ → ℕ
unfolding log2_from
log2 n = log2_from 64 n

unfoldable pub n_ranges_bits : (max_range : ℕ) → ℕ
unfolding log2
n_ranges_bits max_range = if max_range == 1 then 1 else log2 max_range

unfoldable pub n_ranges_mask : (max_range : ℕ) → ℕ
n_ranges_mask max_range = max_range - 1

-- `(address << n_ranges_bits) | range_id`
unfoldable pub get_global_address : (max_range address range_id : ℕ) → ℕ
get_global_address max_range address range_id =
    bit_or (u64 (address <<< n_ranges_bits max_range)) range_id

unfoldable pub previous_range : (max_range previous_global_address : ℕ) → ℕ
previous_range max_range previous_global_address =
    bit_and previous_global_address (n_ranges_mask max_range)

unfoldable pub previous_address : (max_range previous_global_address : ℕ) → ℕ
previous_address max_range previous_global_address =
    previous_global_address >>> n_ranges_bits max_range
