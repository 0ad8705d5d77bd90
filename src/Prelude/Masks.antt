-- ===== src/Prelude/Masks.antt =====
-- `&`, `|` and `^` with the masks of the program, as arithmetic.
use Prim.Native.Nat.{
  ℕ, zero, suc, ◌+◌, ◌-◌, ◌*◌, ◌/◌, ◌%◌, ◌^◌, ◌≤◌, ◌<◌, bit_and, bit_or, bit_xor, differ,
  bit_or-bitwise,
}
use mathlib.Core.Path.{◌≡◌, refl, sym, ap, ap₂, ◌∙◌}
use native.Mathlib.Nat.{pow-suc, one-le-pow, mod-lt, div-add-mod'}
use native.Mathlib.Omega.{arith}
use generic_asynchronous_io.Prelude.Split.{
  and_lowest, or_lowest, xor_lowest, split_and, split_or, split_xor,
}

pub two-pow-add : (a b : ℕ) → 2 ^ (a + b) ≡ 2 ^ a * 2 ^ b
two-pow-add a zero = omega (arith, ap (λ (t : ℕ). 2 ^ t) {x = a + zero} {y = a} (omega arith))
two-pow-add a (suc b) = omega (
  arith,
  ap (λ (t : ℕ). 2 ^ t) {x = a + suc b} {y = suc (a + b)} (omega arith),
  pow-suc 2 (a + b),
  pow-suc 2 b,
  two-pow-add a b,
  ap (λ (t : ℕ). 2 ^ a * t) (pow-suc 2 b),
)

-- With nothing on the right, for a number of fuel or less.
bit_and-zero_below : (n a : ℕ) → a ≤ n → bit_and a 0 ≡ 0
bit_and-zero_below n zero h = refl
bit_and-zero_below zero (suc a) h = absurd (omega arith)
bit_and-zero_below (suc n) (suc a) h =
    omega (arith, and_lowest (suc a) 0, bit_and-zero_below n (suc a / 2) (omega arith))

bit_or-zero_below : (n a : ℕ) → a ≤ n → bit_or a 0 ≡ a
bit_or-zero_below n zero h = refl
bit_or-zero_below zero (suc a) h = absurd (omega arith)
bit_or-zero_below (suc n) (suc a) h =
    omega (arith, or_lowest (suc a) 0, bit_or-zero_below n (suc a / 2) (omega arith))

differ-zero : (x : ℕ) → differ x 0 ≡ x
differ-zero zero = refl
differ-zero (suc x) = refl

bit_xor-zero_below : (n a : ℕ) → a ≤ n → bit_xor a 0 ≡ a
bit_xor-zero_below n zero h = refl
bit_xor-zero_below zero (suc a) h = absurd (omega arith)
bit_xor-zero_below (suc n) (suc a) h = ground (
  arith,
  xor_lowest (suc a) 0,
  differ-zero (suc a % 2),
  bit_xor-zero_below n (suc a / 2) (omega arith),
)

pub bit_and-zero : (a : ℕ) → bit_and a 0 ≡ 0
bit_and-zero a = bit_and-zero_below a a (omega arith)

pub bit_or-zero : (a : ℕ) → bit_or a 0 ≡ a
bit_or-zero a = bit_or-zero_below a a (omega arith)

pub bit_xor-zero : (a : ℕ) → bit_xor a 0 ≡ a
bit_xor-zero a = bit_xor-zero_below a a (omega arith)

pub bit_and-one : (a : ℕ) → bit_and a 1 ≡ a % 2
bit_and-one a = ground (arith, and_lowest a 1, bit_and-zero (a / 2))

pub bit_or-one : (a : ℕ) → bit_or a 1 ≡ a / 2 * 2 + 1
bit_or-one a = ground (arith, or_lowest a 1, bit_or-zero (a / 2))

bit_and_ones_below : (k r : ℕ) → r < 2 ^ k → bit_and r (2 ^ k - 1) ≡ r
bit_and_ones_below zero r h = ground (arith, bit_and-zero r)
bit_and_ones_below (suc k) r h = ground (
  arith,
  and_lowest r (2 ^ suc k - 1),
  pow-suc 2 k,
  one-le-pow k 2,
  bit_and_ones_below k (r / 2) (omega (arith, pow-suc 2 k)),
)

-- A word is its digits from `k` up and those below.
module _ (k a : ℕ) where
  upper : ℕ
  upper = a / 2 ^ k

  lower : ℕ
  lower = a % 2 ^ k

  lower-lt : lower < 2 ^ k
  unfolding lower
  lower-lt = mod-lt a (one-le-pow k 2 (omega arith))

  parts : upper * 2 ^ k + lower ≡ a
  unfolding upper lower
  parts = div-add-mod' a (2 ^ k)

-- `x & (2^k - 1)`
pub bit_and_ones : (k a : ℕ) → bit_and a (2 ^ k - 1) ≡ a % 2 ^ k
unfolding lower
bit_and_ones k a =
    ap₂ bit_and (sym (parts k a)) (omega arith)
    ∙ split_and k (upper k a) (lower k a) 0 (2 ^ k - 1) (lower-lt k a)
        (omega (arith, one-le-pow k 2))
    ∙ ground (arith, bit_and-zero (upper k a), bit_and_ones_below k (lower k a) (lower-lt k a))

-- `x & 2^k`
pub bit_and_bit : (k a : ℕ) → bit_and a (2 ^ k) ≡ a / 2 ^ k % 2 * 2 ^ k
unfolding upper lower
bit_and_bit k a =
    ap₂ bit_and (sym (parts k a)) (omega arith)
    ∙ split_and k (upper k a) (lower k a) 1 0 (lower-lt k a) (one-le-pow k 2 (omega arith))
    ∙ ground (arith, bit_and-zero (lower k a), bit_and-one (upper k a))

-- `x | 2^k`
pub bit_or_bit : (k a : ℕ) → bit_or a (2 ^ k) ≡ (a / 2 ^ k / 2 * 2 + 1) * 2 ^ k + a % 2 ^ k
unfolding upper lower
bit_or_bit k a =
    ap₂ bit_or (sym (parts k a)) (omega arith)
    ∙ split_or k (upper k a) (lower k a) 1 0 (lower-lt k a) (one-le-pow k 2 (omega arith))
    ∙ ground (arith, bit_or-zero (lower k a), bit_or-one (upper k a))

zero-bit_or : (b : ℕ) → bit_or 0 b ≡ b
zero-bit_or b = simp bit_or-bitwise

-- `(q << k) | r` where `r` fits below
pub bit_or_join : (k q r : ℕ) → r < 2 ^ k → bit_or (q * 2 ^ k) r ≡ q * 2 ^ k + r
bit_or_join k q r h =
    ap₂ bit_or (omega arith) (omega arith)
    ∙ split_or k q 0 0 r (one-le-pow k 2 (omega arith)) h
    ∙ ground (arith, bit_or-zero q, zero-bit_or r)

-- `x & (c << k)`
pub bit_and_upper : (k c a : ℕ) → bit_and a (c * 2 ^ k) ≡ bit_and (a / 2 ^ k) c * 2 ^ k
unfolding upper lower
bit_and_upper k c a =
    ap₂ bit_and (sym (parts k a)) (omega arith)
    ∙ split_and k (upper k a) (lower k a) c 0 (lower-lt k a) (one-le-pow k 2 (omega arith))
    ∙ ground (arith, bit_and-zero (lower k a))

-- `x & ((c << k) | (2^k - 1))`
pub bit_and_keep :
    (k c a : ℕ) → bit_and a (c * 2 ^ k + (2 ^ k - 1)) ≡ bit_and (a / 2 ^ k) c * 2 ^ k + a % 2 ^ k
unfolding upper lower
bit_and_keep k c a =
    ap₂ bit_and (sym (parts k a)) (omega arith)
    ∙ split_and k (upper k a) (lower k a) c (2 ^ k - 1) (lower-lt k a)
        (omega (arith, one-le-pow k 2))
    ∙ ground (arith, bit_and_ones_below k (lower k a) (lower-lt k a))

-- `x ^ (c << k)`
pub bit_xor_upper : (k c a : ℕ) → bit_xor a (c * 2 ^ k) ≡ bit_xor (a / 2 ^ k) c * 2 ^ k + a % 2 ^ k
unfolding upper lower
bit_xor_upper k c a =
    ap₂ bit_xor (sym (parts k a)) (omega arith)
    ∙ split_xor k (upper k a) (lower k a) c 0 (lower-lt k a) (one-le-pow k 2 (omega arith))
    ∙ ground (arith, bit_xor-zero (lower k a))
