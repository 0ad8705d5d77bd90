-- ===== src/HostQueue/Submission.antt =====
-- A submission queue of `qs` slots is a queue of the commands `h` to `t` of an endless sequence:
-- command `a` lies in slot `a % qs`.
use native.Mathlib.Nat.{mod-eq_of_lt, div-add-mod', eq_of_mul-eq-mul_left}
use generic_asynchronous_io.Prelude.{
  ℕ, ◌+◌, ◌-◌, ◌*◌, ◌/◌, ◌%◌, ◌^◌, ◌≤◌, ◌<◌, ◌==◌, false, not, none, some, ◌≡◌, ◌≢◌, ◌⊎◌, inl, inr,
  arith, dec_lt, ℕ_discrete, ap, ◌∙◌, sym, u16, sub32,
}
use generic_asynchronous_io.Completion.{tag}
use generic_asynchronous_io.Completion.Phase.{eq_of_mod-eq}
use generic_asynchronous_io.HostQueue.{NvmQueue, is_null, sq_enqueue, sq_submit, sq_update}

pub record Holds (h t : ℕ) (q : NvmQueue) : Type 0 where
  pub ordered : h ≤ t
  pub bounded : t < h + q.qs
  pub front : q.head ≡ h % q.qs
  pub back : q.tail ≡ t % q.qs
  pub round : q.phase ≡ tag q.qs t

-- The sizes for which the test for a full queue is right.
pub record IsSize (qs : ℕ) : Type 0 where
  pub at_least : 2 ≤ qs
  pub at_most : qs ≤ 2 ^ 16
  pub divides : 2 ^ 16 % qs ≡ 0

apart_ahead : (h t qs : ℕ) → 0 < qs → h ≤ t → t < h + qs → h % qs ≤ t % qs → t - h ≡ t % qs - h % qs
apart_ahead h t qs p o b le = grind (arith, div-add-mod' t qs, div-add-mod' h qs)

apart_behind :
    (h t qs : ℕ) → 0 < qs → h ≤ t → t < h + qs → t % qs < h % qs → t - h ≡ t % qs + qs - h % qs
apart_behind h t qs p o b lt = grind (arith, div-add-mod' t qs, div-add-mod' h qs)

below_multiple : (n d qs : ℕ) → n % qs ≡ 0 → 0 < d → d < qs → qs ≤ n → (n - d) % qs ≡ qs - d
below_multiple n d qs e p q le = grind (arith, div-add-mod' n qs, div-add-mod' (n - d) qs)

-- The test of `nvm_sq_enqueue` computes how many commands the queue holds.
used_lem :
    (h t qs : ℕ) → IsSize qs → h ≤ t → t < h + qs → u16 (sub32 (t % qs) (h % qs)) % qs ≡ t - h
used_lem h t qs s o b = elim (dec_lt (t % qs) (h % qs)) [
  | yes behind ↦
      ap (λ t. t % qs) {x = u16 (sub32 (t % qs) (h % qs))} {y = 2 ^ 16 - (h % qs - t % qs)}
        (omega arith)
      ∙ below_multiple (2 ^ 16) (h % qs - t % qs) qs s.divides (omega arith) (omega arith) s.at_most
      ∙ omega (arith, apart_behind h t qs (omega arith) o b behind)
  | no ahead ↦
      ap (λ t. t % qs) {x = u16 (sub32 (t % qs) (h % qs))} {y = t % qs - h % qs} (omega arith)
      ∙ mod-eq_of_lt (omega arith)
      ∙ sym (apart_ahead h t qs (omega arith) o b (omega arith))
]

pub wrap_mod : (t qs : ℕ) → 0 < qs → t % qs + 1 ≡ qs → (t + 1) % qs ≡ 0
wrap_mod t qs p e = grind (arith, div-add-mod' t qs, div-add-mod' (t + 1) qs)

pub next_mod : (t qs : ℕ) → 0 < qs → t % qs + 1 ≢ qs → (t + 1) % qs ≡ t % qs + 1
next_mod t qs p e = grind (arith, div-add-mod' t qs, div-add-mod' (t + 1) qs)

pub tag_wrap : (t qs : ℕ) → 0 < qs → t % qs + 1 ≡ qs → tag qs (t + 1) ≡ not (tag qs t)
tag_wrap t qs p e = ground (arith, onward)
  where
    onward : (t + 1) / qs ≡ t / qs + 1
    onward = grind (arith, div-add-mod' t qs, div-add-mod' (t + 1) qs)

pub tag_same : (t qs : ℕ) → 0 < qs → t % qs + 1 ≢ qs → tag qs (t + 1) ≡ tag qs t
tag_same t qs p e = ap (λ k. k % 2 == 0) onward
  where
    onward : (t + 1) / qs ≡ t / qs
    onward = grind (arith, div-add-mod' t qs, div-add-mod' (t + 1) qs)

-- In a queue whose size is 2 to 2^16 and divides 2^16, `nvm_sq_enqueue` refuses exactly when `qs - 1` commands are in the queue, and then changes
-- nothing; otherwise it hands out the slot of the next command and the queue holds one more.
pub sq_enqueue-Holds :
    (h t : ℕ) (q : NvmQueue)
    → IsSize q.qs
    → Holds h t q
    → ((t - h ≡ q.qs - 1) × (sq_enqueue q ≡ (none, q)))
      ⊎ ((t - h < q.qs - 1)
          × ((sq_enqueue q).0 ≡ some (q.es * (t % q.qs)))
          × Holds h (t + 1) (sq_enqueue q).1)
unfolding sq_enqueue
sq_enqueue-Holds h t q s v = elim (ℕ_discrete (t - h) (q.qs - 1)) [
  | yes full ↦ inl (full, ground (arith, used, back, front))
  | no more ↦ inr (
    omega arith,
    ground (arith, used, back, front),
    elim (ℕ_discrete (t % q.qs + 1) q.qs) [
      | yes wraps ↦
          let w = wrap_mod t q.qs (omega arith) wraps in
          let r = tag_wrap t q.qs (omega arith) wraps in
          record {
            ordered = omega arith;
            bounded = ground (arith, used, back, front);
            front = ground (arith, used, back, front);
            back = ground (arith, used, back, front, w);
            round = ground (arith, used, back, front, r);
          }
      | no stays ↦
          let w = next_mod t q.qs (omega arith) stays in
          let r = tag_same t q.qs (omega arith) stays in
          record {
            ordered = omega arith;
            bounded = ground (arith, used, back, front);
            front = ground (arith, used, back, front);
            back = ground (arith, used, back, front, w);
            round = ground (arith, used, back, front, r);
          }
    ],
  )
]
  where
    open v use {front, back}

    used : u16 (sub32 (t % q.qs) (h % q.qs)) % q.qs ≡ t - h
    used = used_lem h t q.qs s v.ordered v.bounded

-- In a queue whose size is 2 to 2^16 and divides 2^16, with entries of positive size, the slot that `nvm_sq_enqueue` hands out holds none of the commands that are in the queue.
pub sq_enqueue_fresh :
    (h t a : ℕ) (q : NvmQueue) {slot : ℕ}
    → IsSize q.qs
    → 0 < q.es
    → Holds h t q
    → (sq_enqueue q).0 ≡ some slot
    → h ≤ a
    → a < t
    → slot ≢ q.es * (a % q.qs)
sq_enqueue_fresh h t a q s pos v e le lt same = elim (sq_enqueue-Holds h t q s v) [
  | inl full ↦ cc (ap (λ r. r.0) full.1)
  | inr more ↦
      let same_slot : q.es * (t % q.qs) ≡ q.es * (a % q.qs) = ground (arith, more.1) in
      let same_mod = eq_of_mul-eq-mul_left q.es pos (t % q.qs) (a % q.qs) same_slot in
      absurd (omega (arith, eq_of_mod-eq q.qs t a same_mod (omega arith) (omega arith)))
]

-- In a queue whose size is 2 to 2^16 and divides 2^16, which holds a command and has its doorbell
-- register mapped, `nvm_sq_update`
-- takes the oldest command out.
pub sq_update-Holds :
    (h t : ℕ) (q : NvmQueue)
    → IsSize q.qs
    → Holds h t q
    → h < t
    → is_null q.db ≡ false
    → Holds (h + 1) t (sq_update q)
unfolding sq_update
sq_update-Holds h t q s v more mapped = elim (ℕ_discrete (h % q.qs + 1) q.qs) [
  | yes wraps ↦
      let w = wrap_mod h q.qs (omega arith) wraps in
      record {
        ordered = omega arith;
        bounded = ground (arith, v.front);
        front = ground (arith, v.front, w);
        back = ground (arith, v.back);
        round = ground (arith, v.round);
      }
  | no stays ↦
      let w = next_mod h q.qs (omega arith) stays in
      record {
        ordered = omega arith;
        bounded = ground (arith, v.front);
        front = ground (arith, v.front, w);
        back = ground (arith, v.back);
        round = ground (arith, v.round);
      }
]

-- Where the doorbell register is mapped and shows what `last` records, `nvm_sq_submit` leaves the
-- commands in the queue as they are, and the doorbell at the slot behind
-- the newest command, with `last` recording it.
pub sq_submit-Holds :
    (h t : ℕ) (q : NvmQueue)
    → Holds h t q
    → (q.db ≡ some q.last)
    → Holds h t (sq_submit q)
      × ((sq_submit q).db ≡ some (t % q.qs))
      × ((sq_submit q).last ≡ t % q.qs)
unfolding sq_submit
sq_submit-Holds h t q v mapped = elim (ℕ_discrete q.last q.tail) [
  | yes e ↦ ground (arith, v.back)
  | no ne ↦ ground (arith, v.back)
]

-- Where the size is 2 to 2^16 and does not divide 2^16, a full queue whose free slot lies just below its head is
-- not recognised: the slot is handed out, and then the queue looks empty.
pub sq_enqueue_overrun :
    (q : NvmQueue)
    → 2 ≤ q.qs
    → q.qs ≤ 2 ^ 16
    → 2 ^ 16 % q.qs ≢ 0
    → q.head < q.qs
    → q.tail + 1 ≡ q.head
    → ((sq_enqueue q).0 ≡ some (q.es * q.tail)) × ((sq_enqueue q).1.tail ≡ (sq_enqueue q).1.head)
unfolding sq_enqueue
sq_enqueue_overrun q two small odd h e = ground (arith, wraps, missed)
  where
    wraps : u16 (sub32 q.tail q.head) ≡ 2 ^ 16 - 1
    wraps = omega arith

    missed : (2 ^ 16 - 1) % q.qs + 1 ≢ q.qs
    missed full = odd (wrap_mod (2 ^ 16 - 1) q.qs (omega arith) full)
