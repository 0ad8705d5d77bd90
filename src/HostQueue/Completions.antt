-- ===== src/HostQueue/Completions.antt =====
-- A completion queue that one thread drives hands out the controller's entries, each once and in
-- order.
use native.Mathlib.Nat.{mod-lt}
use generic_asynchronous_io.Prelude.{
  ℕ, ◌+◌, ◌/◌, ◌%◌, ◌^◌, ◌≤◌, ◌<◌, ◌==◌, if◌then◌else◌, Bool, true, not, none, some, ◌≡◌, ◌⊎◌, inl,
  inr, arith, dec_lt, ℕ_discrete, ◌↔◌, ap, ◌∙◌,
}
use generic_asynchronous_io.Command.{read_bits}
use generic_asynchronous_io.Command.Fields.{read_bits_lem}
use generic_asynchronous_io.Completion.{NvmCpl, phase, tag, written, IsTagged}
use generic_asynchronous_io.Completion.Phase.{phase_lem, phase_stale, written_lem, phase-eq}
use generic_asynchronous_io.HostQueue.{NvmQueue, same_flag, cq_poll, cq_dequeue}
use generic_asynchronous_io.HostQueue.Submission.{wrap_mod, next_mod, tag_wrap, tag_same}

-- The driver has taken `c` entries.
pub record Taken (c : ℕ) (q : NvmQueue) : Type 0 where
  pub front : q.head ≡ c % q.qs
  pub round : q.phase ≡ tag q.qs c

-- The test of `nvm_cq_poll` compares the entry's tag with the queue's phase.
poll_flag :
    (entry : NvmCpl) (b : Bool)
    → same_flag (read_bits (entry.dword3 / 2 ^ 16) 0 0 == 0) (not b) ≡ same_flag (phase entry) b
poll_flag entry b =
    ground (arith, read_bits_lem (entry.dword3 / 2 ^ 16) 0 0 (omega arith), phase-eq entry)

same_flag_iff : (a b : Bool) → (same_flag a b ≡ true) ↔ (a ≡ b)
same_flag_iff a b = ground arith

cq_poll_test :
    (q : NvmQueue) (entries : ℕ → NvmCpl)
    → cq_poll q entries ≡ (if same_flag (phase (entries q.head)) q.phase then some q.head else none)
unfolding cq_poll
cq_poll_test q entries =
    ap (λ t. if t then some q.head else none) (poll_flag (entries q.head) q.phase)

module _ (posts : ℕ → NvmCpl) (c p : ℕ) (q : NvmQueue) (pos : 0 < q.qs)
    (tagged : IsTagged q.qs posts) (v : Taken c q) (o : c ≤ p) (b : p ≤ c + q.qs) where
  abbrev entries : ℕ → NvmCpl
  entries = written q.qs posts p

  -- In a queue that the controller tags by rounds and never overruns, `nvm_cq_poll` finds an entry exactly when the controller has posted one that the driver has
  -- not taken, and it is the oldest of those.
  pub cq_poll_lem :
      ((c < p) × (cq_poll q entries ≡ some (c % q.qs)) × (entries (c % q.qs) ≡ posts c))
      ⊎ ((c ≡ p) × (cq_poll q entries ≡ none))
  cq_poll_lem = elim (dec_lt c p) [
    | yes more ↦ inl (
      more,
      cq_poll_test q entries
          ∙ ground (
            arith,
            v.front,
            v.round,
            ap entries v.front,
            (phase_lem q.qs pos posts tagged p c b (omega arith)).1 more,
          ),
      written_lem q.qs pos posts tagged p c b more,
    )
    | no empty ↦ inr (
      omega arith,
      cq_poll_test q entries
          ∙ ground (
            arith,
            v.round,
            ap phase (ap entries v.front),
            phase_stale q.qs pos posts tagged p c (omega arith) (omega arith),
          ),
    )
  ]

  -- In a queue that the controller tags by rounds and never overruns, and of at most 2^16 entries, `nvm_cq_dequeue` takes the oldest entry out where there is one, and otherwise changes nothing.
  pub cq_dequeue_lem :
      q.qs ≤ 2 ^ 16
      → let (found, q') = cq_dequeue q entries in
        ((c < p) × (found ≡ some (c % q.qs)) × (entries (c % q.qs) ≡ posts c) × Taken (c + 1) q')
        ⊎ ((c ≡ p) × (found ≡ none) × (q' ≡ q))
  unfolding cq_dequeue
  cq_dequeue_lem small = elim cq_poll_lem [
    | inl taken ↦ inl (
      taken.0,
      ground (arith, taken.1),
      taken.2,
      elim (ℕ_discrete (c % q.qs + 1) q.qs) [
        | yes wraps ↦
            let w = wrap_mod c q.qs pos wraps in
            let t = tag_wrap c q.qs pos wraps in
            record {
              front = ground (arith, v.front, taken.1, w);
              round = ground (arith, v.front, v.round, taken.1, t);
            }
        | no stays ↦
            let w = next_mod c q.qs pos stays in
            let t = tag_same c q.qs pos stays in
            record {
              front = ground (arith, v.front, taken.1, w, mod-lt c pos);
              round = ground (arith, v.front, v.round, taken.1, t, mod-lt c pos);
            }
      ],
    )
    | inr empty ↦ inr (empty.0, ground (arith, empty.1), ground (arith, empty.1))
  ]
