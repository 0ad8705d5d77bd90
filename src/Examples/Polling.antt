-- ===== src/Examples/Polling.antt =====
-- A completion queue of eight entries, of which ten have been taken; entry `a` reports command `a`.
use generic_asynchronous_io.Prelude.{
  ℕ, ◌+◌, ◌/◌, ◌%◌, ◌≤◌, ◌≡◌, ◌⊎◌, Bool, true, false, refl, arith, ltb, ◌==◌, if◌then◌else◌,
}
use generic_asynchronous_io.Completion.{NvmCpl, cid, tag, IsTagged}
use generic_asynchronous_io.Completion.Phase.{phase-eq}
use generic_asynchronous_io.Poll.{cq_try_poll, cq_poll}
use generic_asynchronous_io.Poll.Search.{Growing, pass, Hit, Miss, cq_try_poll_lem, cq_poll_returns}

abbrev flag : Bool → ℕ
flag true = 65536
flag false = 0

abbrev posts : ℕ → NvmCpl
posts a = record { dword2 = 0; dword3 = flag (tag 8 a) + a % 65536 }

flag_phase : (b : Bool) (a : ℕ) → ((flag b + a % 65536) / 65536 % 2 == 1) ≡ b
flag_phase true a = ground arith
flag_phase false a = ground arith

posts-IsTagged : IsTagged 8 posts
posts-IsTagged a = ground (arith, phase-eq (posts a), flag_phase (tag 8 a) a)

-- Three entries are there when the pass starts. After its first read others move the head on by two,
-- and the controller posts over entries 10 and 11.
abbrev posted : ℕ → ℕ
posted i = if ltb i 1 then 13 else 20

posted-Growing : Growing 8 10 posted
posted-Growing = record {
  from = omega arith;
  grows = λ i. ground arith;
  within = λ i. ground arith;
}

cq_try_poll_lem_example :
    Hit 3 posts 10 posted 11 0 (cq_try_poll 3 (pass 8 posts 10 posted) 11)
    ⊎ Miss 3 posts 10 posted 11 0 7 (cq_try_poll 3 (pass 8 posts 10 posted) 11)
cq_try_poll_lem_example =
    cq_try_poll_lem 3 (omega arith) posts posts-IsTagged 10 posted posted-Growing 11

-- The first pass comes too early.
abbrev heads : ℕ → ℕ
heads j = 10

abbrev arriving : ℕ → ℕ → ℕ
arriving j i = if ltb j 1 then 10 else 12

arriving-Growing : (j : ℕ) → Growing 8 (heads j) (arriving j)
arriving-Growing j = record {
  from = ground arith;
  grows = λ i. omega arith;
  within = λ i. ground arith;
}

cq_poll_returns_example :
    (h : ℕ) × (h ≤ 1)
    × Hit 3 posts 10 (arriving h) 11 0 (cq_poll 3 (λ j. pass 8 posts 10 (arriving j)) 11 0 2)
unfolding cid
cq_poll_returns_example =
    cq_poll_returns 3 (omega arith) posts posts-IsTagged heads arriving arriving-Growing 11 1 11 2
      (omega arith) (omega arith) (omega arith) (omega arith) refl (omega arith)
