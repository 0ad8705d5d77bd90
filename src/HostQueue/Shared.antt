-- ===== src/HostQueue/Shared.antt =====
-- `nvm_sq_enqueue_n`: `n` threads that take slots without a lock, one call after the other.
use native.Mathlib.Nat.{
  mod-lt, mod-eq_of_lt, div-add-mod', mul-sub, mul-le-mul_right, mul-lt-mul_of_pos_right,
  eq_of_mul-eq-mul_left, mod-add-mod,
}
use generic_asynchronous_io.Prelude.{
  ℕ, zero, suc, ◌+◌, ◌-◌, ◌*◌, ◌%◌, ◌^◌, ◌≤◌, ◌<◌, leb, if◌then◌else◌, Option, none, some, ◌≡◌,
  refl, arith, dec_lt, ap, ◌∙◌, sym, u32,
}
use generic_asynchronous_io.Completion.Phase.{eq_of_mod-eq}
use generic_asynchronous_io.HostQueue.{NvmQueue, sq_enqueue_n}

-- What thread `i` is given by its call number `k`, counted from 0, when it passes on the pointer
-- of the call before.
abbrev pub nth_call : NvmQueue → ℕ → ℕ → ℕ → Option ℕ
nth_call sq n i zero = (sq_enqueue_n sq none n i).0
nth_call sq n i (suc k) = (sq_enqueue_n sq (nth_call sq n i k) n i).0

-- The queue after `k` calls of thread 0.
abbrev pub after_calls : NvmQueue → ℕ → ℕ → NvmQueue
after_calls sq n zero = sq
after_calls sq n (suc k) = (sq_enqueue_n (after_calls sq n k) none n 0).1

step_below : (x n q : ℕ) → 0 < q → x % q + n < q → (x + n) % q ≡ x % q + n
step_below x n q p h = grind (arith, div-add-mod' x q, div-add-mod' (x + n) q)

step_over : (x n q : ℕ) → n < q → q ≤ x % q + n → (x + n) % q ≡ x % q + n - q
step_over x n q p h = grind (arith, div-add-mod' x q, div-add-mod' (x + n) q)

scaled_lt : (es x n q : ℕ) → 0 < es → x + n < q → es * x + n * es < q * es
scaled_lt es x n q p h = omega (arith, mul-lt-mul_of_pos_right {m = x + n} {n = q} {k = es} h p)

scaled_le : (es x n q : ℕ) → q ≤ x + n → q * es ≤ es * x + n * es
scaled_le es x n q h = omega (arith, mul-le-mul_right {m = q} {n = x + n} es h)

-- A call with the pointer `at` of the call before.
call_after :
    (sq : NvmQueue) (n i at : ℕ)
    → n < sq.qs
    → (sq_enqueue_n sq (some at) n i).0
      ≡ some (
          if leb (sq.qs * sq.es) (at + n * sq.es)
          then at + n * sq.es - sq.qs * sq.es
          else at + n * sq.es)
unfolding sq_enqueue_n
call_after sq n i at lt = ground arith

first_call : (sq : NvmQueue) (n i : ℕ) → n < sq.qs → (sq_enqueue_n sq none n i).0 ≡ some (sq.es * i)
unfolding sq_enqueue_n
first_call sq n i lt = ground arith

onward :
    (sq : NvmQueue) (n x : ℕ)
    → n < sq.qs
    → 0 < sq.es
    → let at = sq.es * (x % sq.qs) in
      (if leb (sq.qs * sq.es) (at + n * sq.es)
        then at + n * sq.es - sq.qs * sq.es
        else at + n * sq.es)
      ≡ sq.es * ((x + n) % sq.qs)
onward sq n x lt pos = elim (dec_lt (x % sq.qs + n) sq.qs) [
  | yes below ↦ ground (
    arith,
    scaled_lt sq.es (x % sq.qs) n sq.qs pos below,
    ap (λ t. sq.es * t) (step_below x n sq.qs (omega arith) below),
  )
  | no over ↦ ground (
    arith,
    scaled_le sq.es (x % sq.qs) n sq.qs (omega arith),
    ap (λ t. sq.es * t) (step_over x n sq.qs lt (omega arith)),
    mul-sub sq.es (x % sq.qs + n) sq.qs,
  )
]

-- In call `k`, thread `i` of `n < qs` gets slot `(k * n + i) % qs`.
pub nth_call_lem :
    (sq : NvmQueue) (n i k : ℕ)
    → n < sq.qs
    → 0 < sq.es
    → i < n
    → nth_call sq n i k ≡ some (sq.es * ((k * n + i) % sq.qs))
nth_call_lem sq n i zero lt pos below =
    first_call sq n i lt
    ∙ ap (λ t. some (sq.es * t))
        (sym (mod-eq_of_lt {n = i} {m = sq.qs} (omega arith)) ∙ ap (λ t. t % sq.qs) (omega arith))
nth_call_lem sq n i (suc k) lt pos below =
    ap (λ t. (sq_enqueue_n sq t n i).0) (nth_call_lem sq n i k lt pos below)
    ∙ call_after sq n i _ lt
    ∙ ap some (onward sq n (k * n + i) lt pos)
    ∙ ap (λ t. some (sq.es * (t % sq.qs))) (omega arith)

tail_step :
    (sq : NvmQueue) (n : ℕ)
    → n < sq.qs
    → (sq_enqueue_n sq none n 0).1.tail ≡ u32 (sq.tail + n) % sq.qs
unfolding sq_enqueue_n
tail_step sq n lt = ground arith

qs_step : (sq : NvmQueue) (n : ℕ) → (sq_enqueue_n sq none n 0).1.qs ≡ sq.qs
unfolding sq_enqueue_n
qs_step sq n = ground arith

after_calls-qs : (sq : NvmQueue) (n k : ℕ) → (after_calls sq n k).qs ≡ sq.qs
after_calls-qs sq n zero = refl
after_calls-qs sq n (suc k) = qs_step (after_calls sq n k) n ∙ after_calls-qs sq n k

after_calls-tail :
    (sq : NvmQueue) (n k : ℕ)
    → sq.tail ≡ 0
    → sq.qs ≤ 2 ^ 16
    → n < sq.qs
    → (after_calls sq n k).tail ≡ (k * n) % sq.qs
after_calls-tail sq n zero start small lt =
    start
    ∙ omega (
      arith,
      mod-eq_of_lt {n = 0} {m = sq.qs} (omega arith),
      ap (λ (t : ℕ). t % sq.qs) {x = 0 * n} {y = 0} (omega arith),
    )
after_calls-tail sq n (suc k) start small lt =
    tail_step (after_calls sq n k) n (omega (arith, after_calls-qs sq n k))
    ∙ ap (λ t. u32 ((after_calls sq n k).tail + n) % t) (after_calls-qs sq n k)
    ∙ ap (λ t. u32 (t + n) % sq.qs) (after_calls-tail sq n k start small lt)
    ∙ ap (λ t. t % sq.qs) (omega (arith, mod-lt (k * n) {m = sq.qs} (omega arith)))
    ∙ mod-add-mod (k * n) sq.qs n
    ∙ ap (λ t. t % sq.qs) (omega arith)

-- From a queue of at most 2^16 entries of positive size whose tail is 0, `n < qs` threads of which each makes its `k`-th call take
-- the slots from the queue's tail on, thread `i` the `i`-th of them; no two threads get the same
-- slot.
pub sq_enqueue_n_lem :
    (sq : NvmQueue) (n k i j : ℕ)
    → sq.tail ≡ 0
    → sq.qs ≤ 2 ^ 16
    → 0 < sq.es
    → n < sq.qs
    → i < n
    → j < n
    → (nth_call sq n i k ≡ some (sq.es * (((after_calls sq n k).tail + i) % sq.qs)))
      × (nth_call sq n i k ≡ nth_call sq n j k → i ≡ j)
sq_enqueue_n_lem sq n k i j start small pos lt bi bj = (
  nth_call_lem sq n i k lt pos bi
      ∙ ap (λ t. some (sq.es * t))
          (sym (mod-add-mod (k * n) sq.qs i)
            ∙ ap (λ t. (t + i) % sq.qs) (sym (after_calls-tail sq n k start small lt))),
  λ same.
      let slots : sq.es * ((k * n + i) % sq.qs) ≡ sq.es * ((k * n + j) % sq.qs) =
        ground (arith, same, nth_call_lem sq n i k lt pos bi, nth_call_lem sq n j k lt pos bj) in
      omega (
        arith,
        eq_of_mod-eq sq.qs (k * n + i) (k * n + j) (eq_of_mul-eq-mul_left sq.es pos _ _ slots)
            (omega arith) (omega arith),
      ),
)
