-- ===== src/PageState/Safety.antt =====
-- What holds of a page at every state that up to 2^23 threads can bring it to.
use generic_asynchronous_io.Prelude.{
  ℕ, ◌/◌, ◌%◌, ◌^◌, ◌≤◌, ◌<◌, ◌≡◌, ◌≢◌, arith, true, sum, pair-le-sum, ℕ_discrete, update,
}
use generic_asynchronous_io.PageState.{Page, Pc, writing, System, Reach}
use generic_asynchronous_io.PageState.Owners.{held, owned, harmless, Reach-Inv}

module _ {threads : ℕ} {s : System} (room : threads ≤ 2 ^ 23) (r : Reach threads s) where
  -- In every state that at most 2^23 threads can reach: the low 29 bits of the state word are the sum of the references that the threads hold, so
  -- that none is lost and none is dropped twice.
  pub count_lem : s.page.state % 2 ^ 29 ≡ sum (λ j. held (s.pc j)) threads
  count_lem = let inv = Reach-Inv room r in inv.counts

  -- In every state that at most 2^23 threads can reach: at most one thread at a time loads the page or evicts it, from setting `BUSY` to clearing it;
  -- and `BUSY` is clear exactly when there is none.
  pub owner_lem :
      ((i j : ℕ) → i < threads → j < threads → owned (s.pc i) ≡ 1 → owned (s.pc j) ≡ 1 → i ≡ j)
      × (s.page.state / 2 ^ 30 % 2 ≡ sum (λ j. owned (s.pc j)) threads)
  owner_lem =
      let inv = Reach-Inv room r in
      (
        λ i j li lj oi oj. elim (ℕ_discrete i j) [
          | yes same ↦ same
          | no apart ↦ absurd (
              omega (
                arith,
                oi,
                oj,
                inv.flag,
                pair-le-sum (λ k. owned (s.pc k)) threads i j li lj apart,
              ))
        ],
        inv.flag,
      )

  -- In every state that at most 2^23 threads can reach: while a thread writes the page back to evict it, no other thread holds the page, loads it or
  -- is about to return it: all others are outside or will have to look at the state again.
  pub evictor_lem : (i j : ℕ) → s.pc i ≡ writing → j ≢ i → harmless (s.pc j) ≡ true
  evictor_lem i j e ne = let inv = Reach-Inv room r in inv.alone i j e ne

-- Thread `i` makes a step.
abbrev after : ℕ → System → Page → Pc → System
after i s m p = record { page = m; pc = update s.pc i p }
