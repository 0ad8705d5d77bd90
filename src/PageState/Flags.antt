-- ===== src/PageState/Flags.antt =====
-- What each atomic operation does to the count and to the busy flag of a state word.
use generic_asynchronous_io.Prelude.{
  ℕ, zero, suc, ◌+◌, ◌-◌, ◌*◌, ◌/◌, ◌%◌, ◌^◌, ◌<◌, ◌≡◌, refl, arith, ap, ◌∙◌, bit_and, bit_or,
  bit_xor, bit_and_ones, bit_and_bit, bit_or_bit, bit_xor_upper, bit_and_keep,
}
use generic_asynchronous_io.PageState.{
  busy, dirty, cnt_mask, disable_busy_enable_valid, disable_busy_mask, st,
}

abbrev pub count_of : ℕ → ℕ
count_of w = w % 2 ^ 29

abbrev pub busy_of : ℕ → ℕ
busy_of w = w / 2 ^ 30 % 2

pub st_lem : (w : ℕ) → st w ≡ w / 2 ^ 30 % 4
unfolding st
st_lem w = bit_and_ones 2 (w / 2 ^ 30)

pub test_count : (w : ℕ) → bit_and w cnt_mask ≡ count_of w
test_count w = bit_and_ones 29 w

pub test_busy : (w : ℕ) → bit_and w busy ≡ busy_of w * 2 ^ 30
test_busy w = bit_and_bit 30 w

-- Fields of the word after an operation that keeps the count.
pub record Keeps (w w' b : ℕ) : Type 0 where
  pub same_count : count_of w' ≡ count_of w
  pub busy_now : busy_of w' ≡ b
  pub fits : w' < 2 ^ 32

pub or_busy : (w : ℕ) → w < 2 ^ 32 → Keeps w (bit_or w busy) 1
or_busy w h = record {
  same_count = omega (arith, bit_or_bit 30 w);
  busy_now = omega (arith, bit_or_bit 30 w);
  fits = omega (arith, bit_or_bit 30 w);
}

pub or_dirty : (w : ℕ) → w < 2 ^ 32 → Keeps w (bit_or w dirty) (busy_of w)
or_dirty w h = record {
  same_count = omega (arith, bit_or_bit 29 w);
  busy_now = omega (arith, bit_or_bit 29 w);
  fits = omega (arith, bit_or_bit 29 w);
}

xor_three : (x : ℕ) → x < 4 → bit_xor x 3 ≡ 3 - x
xor_three zero h = refl
xor_three (suc zero) h = refl
xor_three (suc (suc zero)) h = refl
xor_three (suc (suc (suc zero))) h = refl
xor_three (suc (suc (suc (suc x)))) h = absurd (omega (arith, h))

and_two : (x : ℕ) → x < 4 → bit_and x 2 ≡ x / 2 * 2
and_two zero h = refl
and_two (suc zero) h = refl
and_two (suc (suc zero)) h = refl
and_two (suc (suc (suc zero))) h = refl
and_two (suc (suc (suc (suc x)))) h = absurd (omega (arith, h))

-- The last operation of a load: both flags are inverted.
pub flip_word :
    (w : ℕ)
    → w < 2 ^ 32
    → bit_xor w disable_busy_enable_valid ≡ (3 - w / 2 ^ 30) * 2 ^ 30 + w % 2 ^ 30
flip_word w h =
    bit_xor_upper 30 3 w ∙ ap (λ t. t * 2 ^ 30 + w % 2 ^ 30) (xor_three (w / 2 ^ 30) (omega arith))

pub flip_flags :
    (w : ℕ) → w < 2 ^ 32 → Keeps w (bit_xor w disable_busy_enable_valid) (1 - busy_of w)
flip_flags w h = record {
  same_count = omega (arith, flip_word w h);
  busy_now = omega (arith, flip_word w h);
  fits = omega (arith, flip_word w h);
}

pub clear_flags : (w : ℕ) → Keeps w (bit_and w cnt_mask) 0
clear_flags w = record {
  same_count = omega (arith, test_count w);
  busy_now = omega (arith, test_count w);
  fits = omega (arith, test_count w);
}

pub clear_busy_word :
    (w : ℕ) → w < 2 ^ 32 → bit_and w disable_busy_mask ≡ w / 2 ^ 30 / 2 * 2 * 2 ^ 30 + w % 2 ^ 30
clear_busy_word w h =
    bit_and_keep 30 2 w ∙ ap (λ t. t * 2 ^ 30 + w % 2 ^ 30) (and_two (w / 2 ^ 30) (omega arith))

pub clear_busy : (w : ℕ) → w < 2 ^ 32 → Keeps w (bit_and w disable_busy_mask) 0
clear_busy w h = record {
  same_count = omega (arith, clear_busy_word w h);
  busy_now = omega (arith, clear_busy_word w h);
  fits = omega (arith, clear_busy_word w h);
}
