-- ===== src/ParallelQueue/Rounds.antt =====
-- How many of the first `x` numbers fall on slot `p` of `q`.
use native.Mathlib.Nat.{div-add-mod', zero-div, zero-mod, mod-lt}
use generic_asynchronous_io.Prelude.{
  ℕ, zero, suc, ◌+◌, ◌-◌, ◌/◌, ◌%◌, ◌≤◌, ◌<◌, ltb, ◌==◌, if◌then◌else◌, ◌≡◌, ◌≢◌, arith, dec_lt,
  ℕ_discrete, ap, ◌∙◌, bit_and_ones, ◌^◌,
}
use generic_asynchronous_io.ParallelQueue.{slot}

pub slot-eq : (log x : ℕ) → slot log x ≡ x % 2 ^ log
unfolding slot
slot-eq log x = bit_and_ones log x

unfoldable pub rounds : ℕ → ℕ → ℕ → ℕ
rounds q p zero = 0
rounds q p (suc x) = if x % q == p then suc (rounds q p x) else rounds q p x

module _ (q : ℕ) (pos : 0 < q) where
  div_step : (x : ℕ) → x % q + 1 ≢ q → ((x + 1) / q ≡ x / q) × ((x + 1) % q ≡ x % q + 1)
  div_step x ne = (
    grind (arith, div-add-mod' x q, div-add-mod' (x + 1) q),
    grind (arith, div-add-mod' x q, div-add-mod' (x + 1) q),
  )

  div_wrap : (x : ℕ) → x % q + 1 ≡ q → ((x + 1) / q ≡ x / q + 1) × ((x + 1) % q ≡ 0)
  div_wrap x e = (
    grind (arith, div-add-mod' x q, div-add-mod' (x + 1) q),
    grind (arith, div-add-mod' x q, div-add-mod' (x + 1) q),
  )

  rounds_lem : (p x : ℕ) → p < q → rounds q p x ≡ (if ltb p (x % q) then x / q + 1 else x / q)
  unfolding rounds
  rounds_lem p zero h = ground (arith, zero-div q, zero-mod q)
  rounds_lem p (suc x) h = elim (ℕ_discrete (x % q + 1) q) [
    | yes e ↦
        let (d, m) = div_wrap x e in
        ground (
          arith,
          rounds_lem p x h,
          d,
          m,
          ap (λ (t : ℕ). t / q) {x = suc x} {y = x + 1} (omega arith),
          ap (λ (t : ℕ). t % q) {x = suc x} {y = x + 1} (omega arith),
        )
    | no ne ↦
        let (d, m) = div_step x ne in
        ground (
          arith,
          rounds_lem p x h,
          d,
          m,
          ap (λ (t : ℕ). t / q) {x = suc x} {y = x + 1} (omega arith),
          ap (λ (t : ℕ). t % q) {x = suc x} {y = x + 1} (omega arith),
        )
  ]

  pub rounds_at : (x : ℕ) → rounds q (x % q) x ≡ x / q
  rounds_at x = ground (arith, rounds_lem (x % q) x (mod-lt x pos))

  pub rounds_step : (x : ℕ) → rounds q (x % q) (x + 1) ≡ x / q + 1
  unfolding rounds
  rounds_step x =
      ap (rounds q (x % q)) {x = x + 1} {y = suc x} (omega arith) ∙ ground (arith, rounds_at x)

  pub rounds_other : (p x : ℕ) → x % q ≢ p → rounds q p (x + 1) ≡ rounds q p x
  unfolding rounds
  rounds_other p x ne = ap (rounds q p) {x = x + 1} {y = suc x} (omega arith) ∙ ground arith

  rounds_more : (p x d : ℕ) → rounds q p x ≤ rounds q p (d + x)
  unfolding rounds
  rounds_more p x zero = omega (arith, ap (rounds q p) {x = 0 + x} {y = x} (omega arith))
  rounds_more p x (suc d) =
      ground
        (arith, ap (rounds q p) {x = suc d + x} {y = suc (d + x)} (omega arith), rounds_more p x d)

  pub rounds_mono : (p x y : ℕ) → x ≤ y → rounds q p x ≤ rounds q p y
  rounds_mono p x y le =
      omega (arith, rounds_more p x (y - x), ap (rounds q p) {x = y - x + x} {y = y} (omega arith))

  pub rounds-le : (p x : ℕ) → rounds q p x ≤ x
  unfolding rounds
  rounds-le p zero = omega arith
  rounds-le p (suc x) = ground (arith, rounds-le p x)

  -- Command `a` is among the first `x` exactly when its slot has come up often enough.
  pub rounds_before : (a x : ℕ) → a < x → a / q < rounds q (a % q) x
  rounds_before a x h = omega (arith, rounds_step a, rounds_mono (a % q) (a + 1) x (omega arith))

  pub before_of_rounds : (a x : ℕ) → a / q < rounds q (a % q) x → a < x
  before_of_rounds a x h = elim (dec_lt a x) [
    | yes lt ↦ lt
    | no ge ↦ absurd (omega (arith, rounds_at a, rounds_mono (a % q) x a (omega arith)))
  ]
