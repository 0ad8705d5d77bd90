-- ===== src/Poll.antt =====
-- bam/include/nvm_parallel_queue.h, `cq_poll`, `cq_poll_async`, `cq_try_poll` and
-- `cq_try_peek_head`: threads that look for their own entry behind the head of a completion queue
-- that the controller fills at the same time.
pub mod Phases
pub mod Search
use generic_asynchronous_io.Prelude.{
  ℕ, zero, suc, ◌+◌, ◌-◌, ◌^◌, ◌==◌, if◌then◌else◌, Bool, true, false, not, ◌&&◌, Option, none,
  some, bit_and, u32, ◌>>>◌,
}
use generic_asynchronous_io.Completion.{NvmCpl, cid, phase}

-- `cur_head & cq->qs_minus_1` in a queue of `2 ^ log` entries
unfoldable pub place : ℕ → ℕ → ℕ
place log cur_head = bit_and cur_head (2 ^ log - 1)

-- `(~(cur_head >> cq->qs_log2)) & 0x01`; `~` on 32 bits
unfoldable pub search_phase : ℕ → ℕ → Bool
search_phase log cur_head = bit_and (2 ^ 32 - 1 - (cur_head >>> log)) 0x01 == 1

abbrev pub same_phase : Bool → Bool → Bool
same_phase true b = b
same_phase false b = not b

-- What a pass over the queue sees: the head that it loads, and the memory of the queue when it
-- reads its `i`-th entry.
pub record View : Type 0 where
  pub head : ℕ
  pub reads : ℕ → ℕ → NvmCpl

-- The return value and what is stored through `loc_` and `cq_head`.
pub record Found : Type 0 where
  pub loc : ℕ
  pub cur_head : ℕ
  pub cq_head : ℕ

-- The `for` loop, from its index `i` on, with `n` iterations left.
unfoldable pub scan : ℕ → View → ℕ → ℕ → ℕ → Option Found
unfolding place search_phase
scan log v search_cid zero i = none
scan log v search_cid (suc n) i =
    let cur_head = u32 (v.head + i) in
    let loc = place log cur_head in
    let cpl = v.reads i loc in
    let rest = scan log v search_cid n (i + 1) in
    if (cid cpl == search_cid) && same_phase (phase cpl) (search_phase log cur_head)
    then some (record { loc = loc; cur_head = cur_head; cq_head = v.head })
    else if not (same_phase (phase cpl) (search_phase log cur_head))
    then none
    else rest

-- `cq_try_poll`: one pass over `qs - 1` entries.
unfoldable pub cq_try_poll : ℕ → View → ℕ → Option Found
unfolding scan
cq_try_poll log v search_cid = scan log v search_cid (2 ^ log - 1) 0

-- `cq_poll` and `cq_poll_async`, which differ only in comments: passes until one finds the entry,
-- at most `fuel` of them. `views j` is what pass `j` sees.
unfoldable pub cq_poll : ℕ → (ℕ → View) → ℕ → ℕ → ℕ → Option Found
unfolding cq_try_poll
cq_poll log views search_cid j zero = none
cq_poll log views search_cid j (suc fuel) =
    let rest = cq_poll log views search_cid (j + 1) fuel in
    elim (cq_try_poll log (views j) search_cid) [ some found ↦ some found | none ↦ rest ]

-- `cq_try_peek_head`: the identifier at the head, with its place and the head.
pub record Peeked : Type 0 where
  pub head_cid : ℕ
  pub at : Found

unfoldable pub cq_try_peek_head : ℕ → View → Option Peeked
unfolding place search_phase
cq_try_peek_head log v =
    let loc = place log v.head in
    let cpl = v.reads 0 loc in
    if not (same_phase (phase cpl) (search_phase log v.head))
    then none
    else some (record {
      head_cid = cid cpl;
      at = record { loc = loc; cur_head = v.head; cq_head = v.head };
    })
