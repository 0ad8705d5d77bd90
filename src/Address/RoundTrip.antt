-- ===== src/Address/RoundTrip.antt =====
-- A global address gives the page and the range back where the number of ranges is a power of two.
use native.Mathlib.Nat.{
  pow-suc, one-le-pow, mul-add-mod_self_right, mul-add-div_right, mul-div_cancel, mul-mod_left,
  mod-eq_of_lt, div-eq_of_lt,
}
use generic_asynchronous_io.Prelude.{
  ℕ, zero, suc, ◌+◌, ◌*◌, ◌/◌, ◌%◌, ◌^◌, ◌≤◌, ◌<◌, ◌≡◌, arith, ap, ap₂, sym, ◌∙◌, false, ◌==◌,
  if_true, if_false, lt→ltb, le→ltb, bit_or_join, bit_and_ones, bit_and-zero, bit_or-zero,
  bit_or_bit, u64, bit_or,
}
use generic_asynchronous_io.Address.{
  log2_from, log2, n_ranges_bits, n_ranges_mask, get_global_address, previous_range,
  previous_address,
}

-- Between two powers of two the logarithm is the lower exponent.
log2_from_lem : (fuel k n : ℕ) → k < fuel → 2 ^ k ≤ n → n < 2 ^ suc k → log2_from fuel n ≡ k
unfolding log2_from
log2_from_lem zero k n h least less = absurd (omega (arith, h))
log2_from_lem (suc fuel) zero n h least less = if_true _ _ (lt→ltb n 2 (omega (arith, less)))
log2_from_lem (suc fuel) (suc k) n h least less =
    if_false _ _ (le→ltb n 2 (omega (arith, least, pow-suc 2 k, one-le-pow k 2 (omega arith))))
    ∙ ap suc (
        log2_from_lem fuel k (n / 2) (omega (arith, h)) (omega (arith, least, pow-suc 2 k))
          (omega (arith, less, pow-suc 2 (suc k), pow-suc 2 k)))

log2_lem : (k n : ℕ) → k ≤ 63 → 2 ^ k ≤ n → n < 2 ^ suc k → log2 n ≡ k
unfolding log2
log2_lem k n small least less = log2_from_lem 64 k n (omega (arith, small)) least less

bits_lem : (k n : ℕ) → 1 ≤ k → k ≤ 63 → 2 ^ k ≤ n → n < 2 ^ suc k → n_ranges_bits n ≡ k
unfolding n_ranges_bits
bits_lem zero n pos small least less = absurd (omega (arith, pos))
bits_lem (suc k) n pos small least less =
    if_false _ _ (not_one n (omega (arith, least, pow-suc 2 k, one-le-pow k 2 (omega arith))))
    ∙ log2_lem (suc k) n small least less
  where
    not_one : (x : ℕ) → 2 ≤ x → (x == 1) ≡ false
    not_one x h = ground arith

-- `n_ranges_bits` of a power of two: for one range it is 1, not the logarithm 0.
bits_of_power : (k : ℕ) → 1 ≤ k → k ≤ 63 → n_ranges_bits (2 ^ k) ≡ k
bits_of_power k pos small =
    bits_lem k (2 ^ k) pos small (omega arith)
      (omega (arith, pow-suc 2 k, one-le-pow k 2 (omega arith)))

module _ (k address range_id : ℕ) (pos : 1 ≤ k) (small : k ≤ 63) (in_range : range_id < 2 ^ k)
    (fits : address * 2 ^ k + range_id < 2 ^ 64) where
  whole : get_global_address (2 ^ k) address range_id ≡ address * 2 ^ k + range_id
  unfolding get_global_address
  whole =
      ap (λ b. bit_or (u64 (address * 2 ^ b)) range_id) (bits_of_power k pos small)
      ∙ ap (λ t. bit_or t range_id) (omega (arith, fits))
      ∙ bit_or_join k address range_id in_range

  many_ranges :
      (previous_range (2 ^ k) (get_global_address (2 ^ k) address range_id) ≡ range_id)
      × (previous_address (2 ^ k) (get_global_address (2 ^ k) address range_id) ≡ address)
  unfolding previous_range previous_address n_ranges_mask
  many_ranges = (
    bit_and_ones k (get_global_address (2 ^ k) address range_id)
        ∙ ap (λ t. t % 2 ^ k) whole
        ∙ mul-add-mod_self_right address (2 ^ k) range_id
        ∙ mod-eq_of_lt in_range,
    ap₂ (λ x b. x / 2 ^ b) whole (bits_of_power k pos small)
        ∙ mul-add-div_right (one-le-pow k 2 (omega arith)) address range_id
        ∙ omega (arith, div-eq_of_lt in_range),
  )

-- The single range: the shift is by one bit, and the mask is 0.
one_range :
    (address range_id : ℕ)
    → range_id < 1
    → address * 2 + range_id < 2 ^ 64
    → (previous_range 1 (get_global_address 1 address range_id) ≡ range_id)
      × (previous_address 1 (get_global_address 1 address range_id) ≡ address)
unfolding get_global_address previous_range previous_address n_ranges_mask n_ranges_bits
one_range address range_id in_range fits = (
  bit_and-zero _ ∙ omega (arith, in_range),
  omega (
    arith,
    ap (λ t. bit_or (u64 (address * 2)) t) {x = range_id} {y = 0} (omega (arith, in_range)),
    bit_or-zero (u64 (address * 2)),
    in_range,
    fits,
  ),
)

-- `previous_range` and `previous_address` of the global address that `get_global_address` makes of
-- a page and a range are that range and that page, where `max_range` is a power of two below 2^64,
-- one range included, the range is below it, and the address, shifted by `n_ranges_bits`, fits
-- with the range into 64 bits.
pub address_lem :
    (k address range_id : ℕ)
    → k ≤ 63
    → range_id < 2 ^ k
    → address * 2 ^ n_ranges_bits (2 ^ k) + range_id < 2 ^ 64
    → (previous_range (2 ^ k) (get_global_address (2 ^ k) address range_id) ≡ range_id)
      × (previous_address (2 ^ k) (get_global_address (2 ^ k) address range_id) ≡ address)
unfolding n_ranges_bits
address_lem zero address range_id small in_range fits =
    one_range address range_id in_range (omega (arith, fits))
address_lem (suc k) address range_id small in_range fits =
    many_ranges (suc k) address range_id (omega arith) small in_range (
      omega
        (arith, fits, ap (λ (b : ℕ). address * 2 ^ b) (bits_of_power (suc k) (omega arith) small)))

-- Where the number of ranges lies between two powers of two, two pages of different ranges have one
-- global address: an even page of the range of the lower power, and the next page of range 0.
pub address_collides :
    (k b max_range : ℕ)
    → 1 ≤ k
    → k ≤ 63
    → 2 ^ k < max_range
    → max_range < 2 ^ suc k
    → (b * 2 + 1) * 2 ^ k < 2 ^ 64
    → get_global_address max_range (b * 2) (2 ^ k) ≡ get_global_address max_range (b * 2 + 1) 0
unfolding get_global_address
address_collides k b max_range pos small least less fits =
    ap (λ t. bit_or (u64 (b * 2 * 2 ^ t)) (2 ^ k)) bits
    ∙ ap (λ t. bit_or t (2 ^ k)) (omega (arith, fits))
    ∙ bit_or_bit k (b * 2 * 2 ^ k)
    ∙ omega (
      arith,
      mul-div_cancel (b * 2) (one-le-pow k 2 (omega arith)),
      mul-mod_left (b * 2) (2 ^ k),
      ap (λ t. (t / 2 * 2 + 1) * 2 ^ k) (mul-div_cancel (b * 2) (one-le-pow k 2 (omega arith))),
      ap (λ (t : ℕ). (t * 2 + 1) * 2 ^ k) {x = b * 2 / 2} {y = b} (omega arith),
    )
    ∙ sym (bit_or-zero ((b * 2 + 1) * 2 ^ k))
    ∙ ap (λ t. bit_or t 0) (omega (arith, fits))
    ∙ ap (λ t. bit_or (u64 ((b * 2 + 1) * 2 ^ t)) 0) (sym bits)
  where
    bits : n_ranges_bits max_range ≡ k
    bits = bits_lem k max_range pos small (omega (arith, least)) less
