-- ===== src/Prelude/Sums.antt =====
-- Sums over the first `n` threads.
use Prim.Native.Nat.{ℕ, zero, suc, ◌+◌, ◌*◌, ◌≤◌, ◌<◌}
use mathlib.Core.Path.{◌≡◌, refl, ap}
use mathlib.Core.Logic.{◌≢◌}
use native.Mathlib.Decide.{ℕ_discrete}
use native.Mathlib.Omega.{arith}

pub sum : (ℕ → ℕ) → ℕ → ℕ
sum f zero = 0
sum f (suc n) = f n + sum f n

pub sum_same : (f g : ℕ → ℕ) (n : ℕ) → ((j : ℕ) → j < n → f j ≡ g j) → sum f n ≡ sum g n
unfolding sum
sum_same f g zero h = refl
sum_same f g (suc n) h =
    omega (arith, h n (omega arith), sum_same f g n (λ j lt. h j (omega arith)))

-- Where only thread `i` changes, the sum changes by what it changes.
pub sum_change :
    (f g : ℕ → ℕ) (i n : ℕ) → i < n → ((j : ℕ) → j ≢ i → f j ≡ g j) → sum f n + g i ≡ sum g n + f i
unfolding sum
sum_change f g i zero lt h = absurd (omega (arith, lt))
sum_change f g i (suc n) lt h = elim (ℕ_discrete n i) [
  | yes last ↦
      omega
        (arith, sum_same f g n (λ j below. h j (omega (arith, below, last))), ap f last, ap g last)
  | no more ↦ omega (arith, h n more, sum_change f g i n (omega (arith, more)) h)
]

pub sum-le : (f : ℕ → ℕ) (most n : ℕ) → ((j : ℕ) → f j ≤ most) → sum f n ≤ n * most
unfolding sum
sum-le f most zero h = omega arith
sum-le f most (suc n) h = omega (arith, h n, sum-le f most n h)

pub sum-le-sum : (f g : ℕ → ℕ) (n : ℕ) → ((j : ℕ) → f j ≤ g j) → sum f n ≤ sum g n
unfolding sum
sum-le-sum f g zero h = omega arith
sum-le-sum f g (suc n) h = omega (arith, h n, sum-le-sum f g n h)

-- Sums whose terms agree in pairs.
pub sum_pairs :
    (f g h k : ℕ → ℕ) (n : ℕ)
    → ((j : ℕ) → f j + g j ≡ h j + k j)
    → sum f n + sum g n ≡ sum h n + sum k n
unfolding sum
sum_pairs f g h k zero e = refl
sum_pairs f g h k (suc n) e = omega (arith, e n, sum_pairs f g h k n e)

pub le-sum : (f : ℕ → ℕ) (n i : ℕ) → i < n → f i ≤ sum f n
unfolding sum
le-sum f zero i lt = absurd (omega (arith, lt))
le-sum f (suc n) i lt = elim (ℕ_discrete n i) [
  | yes last ↦ omega (arith, ap f last)
  | no more ↦ omega (arith, le-sum f n i (omega (arith, more)))
]

-- Two different threads are counted apart.
pub pair-le-sum : (f : ℕ → ℕ) (n i j : ℕ) → i < n → j < n → i ≢ j → f i + f j ≤ sum f n
unfolding sum
pair-le-sum f zero i j p q ne = absurd (omega (arith, p))
pair-le-sum f (suc n) i j p q ne = elim (ℕ_discrete n i) [
  | yes last ↦ omega (arith, ap f last, le-sum f n j (omega (arith, last, ne)))
  | no more ↦ elim (ℕ_discrete n j) [
    | yes last ↦ omega (arith, ap f last, le-sum f n i (omega (arith, more)))
    | no others ↦
        omega (arith, pair-le-sum f n i j (omega (arith, more)) (omega (arith, others)) ne)
  ]
]
