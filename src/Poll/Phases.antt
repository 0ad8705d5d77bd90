-- ===== src/Poll/Phases.antt =====
-- Heads wrap at 2^32: in a queue of at most 2^31 entries the place and the phase of an entry are
-- still those of its number.
use native.Mathlib.Nat.{
  div-add-mod', one-le-pow, mod-lt, div-div-eq-div-mul, add-mul-mod_self_left, mul_assoc,
  div-eq_of_lt, div-eq_of_lt-le, div-le_self,
}
use generic_asynchronous_io.Prelude.{
  ℕ, ◌+◌, ◌-◌, ◌*◌, ◌/◌, ◌%◌, ◌^◌, ◌≤◌, ◌<◌, ◌==◌, ◌≡◌, arith, ap, sym, ◌∙◌, bit_and_ones,
  bit_and-one, u32, two-pow-add, ℕ_discrete,
}
use generic_asynchronous_io.Completion.{tag}
use generic_asynchronous_io.Poll.{place, search_phase}

-- Digits below the `k`-th do not see what lies above it.
mod_multiple : (b c n : ℕ) → n % (b * c) % b ≡ n % b
mod_multiple b c n =
    sym (ap (λ t. t % b) whole ∙ add-mul-mod_self_left (n % (b * c)) b (c * (n / (b * c))))
  where
    whole : n ≡ n % (b * c) + b * (c * (n / (b * c)))
    whole = omega (arith, div-add-mod' n (b * c), mul_assoc b c (n / (b * c)))

low_mod : (d k n : ℕ) → d ≤ k → n % 2 ^ k % 2 ^ d ≡ n % 2 ^ d
low_mod d k n le =
    ap (λ t. n % t % 2 ^ d)
      (ap (λ (t : ℕ). 2 ^ t) {x = k} {y = d + (k - d)} (omega arith) ∙ two-pow-add d (k - d))
    ∙ mod_multiple (2 ^ d) (2 ^ (k - d)) n

pub place_lem : (log a : ℕ) → log ≤ 32 → place log (u32 a) ≡ a % 2 ^ log
unfolding place
place_lem log a le = bit_and_ones log (u32 a) ∙ low_mod log 32 a le

-- The digit above `b` is the upper half of the remainder by `b * 2`.
top_digit : (b x : ℕ) → 0 < b → x / b % 2 ≡ x % (b * 2) / b
top_digit b x pos = elim (ℕ_discrete (x / b % 2) 0) [
  | yes low ↦
      low
      ∙ sym (
          div-eq_of_lt (
            omega (
              arith,
              div-add-mod' x b,
              div-add-mod' x (b * 2),
              half,
              nothing_left low,
              mod-lt x pos,
            )))
  | no high ↦
      let one_left : x / b % 2 ≡ 1 = omega (arith, high) in
      let left : x / b % 2 * b ≡ b = ap (λ t. t * b) one_left ∙ omega arith in
      one_left
      ∙ sym (
          div-eq_of_lt-le {k = 1} b
            (omega (arith, div-add-mod' x b, div-add-mod' x (b * 2), half, left, mod-lt x pos))
            (omega (arith, div-add-mod' x b, div-add-mod' x (b * 2), half, left, mod-lt x pos)))
]
  where
    nothing_left : x / b % 2 ≡ 0 → x / b % 2 * b ≡ 0
    nothing_left low = ap (λ t. t * b) low ∙ omega arith

    halves : x / b / 2 ≡ x / (b * 2)
    halves = div-div-eq-div-mul x b 2

    half : x / b * b ≡ x / (b * 2) * (b * 2) + x / b % 2 * b
    half =
        ap (λ t. t * b) {x = x / b} {y = x / (b * 2) * 2 + x / b % 2} (omega (arith, halves))
        ∙ omega arith

div_mod : (log a : ℕ) → log ≤ 31 → u32 a / 2 ^ log % 2 ≡ a / 2 ^ log % 2
div_mod log a le =
    top_digit (2 ^ log) (u32 a) (one-le-pow log 2 (omega arith))
    ∙ ap (λ t. t / 2 ^ log)
        (ap (λ t. u32 a % t) step
          ∙ low_mod (log + 1) 32 a (omega arith)
          ∙ ap (λ t. a % t) (sym step))
    ∙ sym (top_digit (2 ^ log) a (one-le-pow log 2 (omega arith)))
  where
    step : 2 ^ log * 2 ≡ 2 ^ (log + 1)
    step = sym (two-pow-add log 1)

pub search_phase_lem : (log a : ℕ) → log ≤ 31 → search_phase log (u32 a) ≡ tag (2 ^ log) a
unfolding search_phase
search_phase_lem log a le =
    ap (λ t. t == 1) (bit_and-one (2 ^ 32 - 1 - u32 a / 2 ^ log))
    ∙ ground (arith, div_mod log a le, div-le_self (u32 a) (2 ^ log))
