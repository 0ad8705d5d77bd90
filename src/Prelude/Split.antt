-- ===== src/Prelude/Split.antt =====
-- The bit operations work on the upper and the lower part of a word apart.
use Prim.Native.Nat.{
  ℕ, zero, suc, ◌+◌, ◌*◌, ◌/◌, ◌%◌, ◌^◌, ◌≤◌, ◌<◌, min, max, bit_and, bit_or, bit_xor, digits,
  differ, bitwise, bit_and-bitwise, bit_or-bitwise, bit_xor-bitwise,
}
use mathlib.Core.Path.{◌≡◌, refl, ap}
use native.Mathlib.Nat.{pow-suc}
use native.Mathlib.Omega.{arith}

-- The equation for the lowest digit, once the fuel of `digits` is out of the way.
module _ (rest : ℕ → ℕ) (f : ℕ → ℕ → ℕ) where
  digits-fuel_irrelevant :
      (a fuel more b : ℕ) → a ≤ fuel → a ≤ more → digits rest f fuel a b ≡ digits rest f more a b
  digits-fuel_irrelevant zero zero zero b p q = refl
  digits-fuel_irrelevant zero zero (suc more) b p q = refl
  digits-fuel_irrelevant zero (suc fuel) zero b p q = refl
  digits-fuel_irrelevant zero (suc fuel) (suc more) b p q = refl
  digits-fuel_irrelevant (suc a) zero more b p q = absurd (omega arith)
  digits-fuel_irrelevant (suc a) (suc fuel) zero b p q = absurd (omega arith)
  digits-fuel_irrelevant (suc a) (suc fuel) (suc more) b p q =
      ap (λ t. t * 2 + f (suc a % 2) (b % 2))
        (digits-fuel_irrelevant (suc a / 2) fuel more (b / 2) (omega arith) (omega arith))

  bitwise_lowest :
      (a b : ℕ)
      → bitwise rest f (suc a) b ≡ bitwise rest f (suc a / 2) (b / 2) * 2 + f (suc a % 2) (b % 2)
  bitwise_lowest a b =
      ap (λ t. t * 2 + f (suc a % 2) (b % 2))
        (digits-fuel_irrelevant (suc a / 2) a (suc a / 2) (b / 2) (omega arith) (omega arith))

pub and_lowest : (a b : ℕ) → bit_and a b ≡ bit_and (a / 2) (b / 2) * 2 + min (a % 2) (b % 2)
and_lowest zero b = simp bit_and-bitwise (omega arith)
and_lowest (suc a) b = simp bit_and-bitwise (bitwise_lowest (λ _. zero) min a b)

pub or_lowest : (a b : ℕ) → bit_or a b ≡ bit_or (a / 2) (b / 2) * 2 + max (a % 2) (b % 2)
or_lowest zero b = simp bit_or-bitwise (omega arith)
or_lowest (suc a) b = simp bit_or-bitwise (bitwise_lowest (λ y. y) max a b)

pub xor_lowest : (a b : ℕ) → bit_xor a b ≡ bit_xor (a / 2) (b / 2) * 2 + differ (a % 2) (b % 2)
xor_lowest zero b = simp bit_xor-bitwise (ground arith)
xor_lowest (suc a) b = simp bit_xor-bitwise (bitwise_lowest (λ y. y) differ a b)

two-pow-suc : (q k : ℕ) → q * 2 ^ suc k ≡ 2 * (q * 2 ^ k)
two-pow-suc q k = omega (arith, ap (λ (t : ℕ). q * t) (pow-suc 2 k))

-- An operation that works digit by digit works on the digits above and below `k` apart.
module _ (op f : ℕ → ℕ → ℕ)
    (lowest : (a b : ℕ) → op a b ≡ op (a / 2) (b / 2) * 2 + f (a % 2) (b % 2))
    (nothing : f 0 0 ≡ 0) where
  op-zero : op 0 0 ≡ 0
  op-zero = omega (arith, lowest 0 0)

  split_digits :
      (k a r b s : ℕ)
      → r < 2 ^ k
      → s < 2 ^ k
      → op (a * 2 ^ k + r) (b * 2 ^ k + s) ≡ op a b * 2 ^ k + op r s
  split_digits zero a zero b zero p q = ground (arith, op-zero)
  split_digits zero a (suc r) b s p q = absurd (omega arith)
  split_digits zero a r b (suc s) p q = absurd (omega arith)
  split_digits (suc k) a r b s p q = ground (
    arith,
    lowest (a * 2 ^ suc k + r) (b * 2 ^ suc k + s),
    lowest r s,
    two-pow-suc a k,
    two-pow-suc b k,
    two-pow-suc (op a b) k,
    pow-suc 2 k,
    split_digits k a (r / 2) b (s / 2) (omega (arith, pow-suc 2 k)) (omega (arith, pow-suc 2 k)),
  )

pub split_and :
    (k a r b s : ℕ)
    → r < 2 ^ k
    → s < 2 ^ k
    → bit_and (a * 2 ^ k + r) (b * 2 ^ k + s) ≡ bit_and a b * 2 ^ k + bit_and r s
split_and = split_digits bit_and min and_lowest refl

pub split_or :
    (k a r b s : ℕ)
    → r < 2 ^ k
    → s < 2 ^ k
    → bit_or (a * 2 ^ k + r) (b * 2 ^ k + s) ≡ bit_or a b * 2 ^ k + bit_or r s
split_or = split_digits bit_or max or_lowest refl

pub split_xor :
    (k a r b s : ℕ)
    → r < 2 ^ k
    → s < 2 ^ k
    → bit_xor (a * 2 ^ k + r) (b * 2 ^ k + s) ≡ bit_xor a b * 2 ^ k + bit_xor r s
split_xor = split_digits bit_xor differ xor_lowest refl
