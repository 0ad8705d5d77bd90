-- ===== src/CqDequeue/Safety.antt =====
-- What `cq_dequeue` promises, at every state that is reached before 2^31 entries are posted.
use generic_asynchronous_io.Prelude.{
  ℕ, ◌+◌, ◌^◌, ◌≤◌, ◌<◌, ◌≡◌, ◌≢◌, arith, ap, sym, subst, ◌∙◌, true, false, not, dec_lt,
}
use generic_asynchronous_io.CqHead.{locked, head_passed}
use generic_asynchronous_io.CqDequeue.{Shared, Pc, unlocking, finishing, System, Reach}
use generic_asynchronous_io.CqDequeue.Defs.{Entry, before, Nums}
use generic_asynchronous_io.CqDequeue.Reachable.{Reach-Inv}

module _ {log : ℕ} {s : System} (le : log ≤ 32) (r : Reach log s)
    (small : s.mem.posted < 2 ^ 31) where
  -- In every state that is reached before 2^31 entries are posted, in a queue of 2^log entries, at
  -- most 2^32, where each entry is found by one thread at most: while a thread has not marked the entry that it has found, neither the head nor the
  -- doorbell has passed that entry, and the controller has not come round to its slot.
  pub unmarked_kept :
      (i a : ℕ)
      → Entry a (s.pc i)
      → before (s.pc i) ≡ true
      → (s.mem.head ≤ a) × (s.mem.rung ≤ a) × (a < s.mem.posted) × (s.mem.posted < a + 2 ^ log)
  unmarked_kept i a e b =
      let inv = Reach-Inv le r small in
      let least : s.mem.front ≤ a = elim (dec_lt a s.mem.front) [
        | no least ↦ omega (arith, least)
        | yes less ↦
            let clash : true ≡ false =
              sym (inv.passed_marked a less) ∙ inv.is_marked i a e ∙ ap not b in
            absurd (cc clash)
      ] in
      omega
        (arith, inv.head-le, inv.rung-le, inv.room, least, inv.found_posted a (inv.is_found i a e))

unlocking-Nums : (m : Shared) (a h : ℕ) (p : Pc) → p ≡ unlocking a h → Nums m p → a < m.head
unlocking-Nums m a h p e n = let k : Nums m (unlocking a h) = subst (Nums m) e n in k

finishing_passed :
    (m : Shared) (a h : ℕ) (p : Pc)
    → p ≡ finishing a h
    → Nums m p
    → m.front ≡ m.head
    → head_passed a h m.head ≡ true
unfolding head_passed
finishing_passed m a h p e n all_stored =
    let k : Nums m (finishing a h) = subst (Nums m) e n in ground (arith, k.0, k.1, k.2, all_stored)

module _ {log : ℕ} {s : System} (le : log ≤ 32) (r : Reach log s)
    (small : s.mem.posted < 2 ^ 31) where
  -- In every state that is reached before 2^31 entries are posted, in a queue of 2^log entries, at
  -- most 2^32, where each entry is found by one thread at most: a thread that has left the last loop of `cq_dequeue` has its entry behind the head.
  pub leaves_behind : (i a h : ℕ) → s.pc i ≡ unlocking a h → a < s.mem.head
  leaves_behind i a h e = unlocking-Nums s.mem a h (s.pc i) e ((Reach-Inv le r small).nums i)

  -- In every state that is reached before 2^31 entries are posted, in a queue of 2^log entries, at
  -- most 2^32, where each entry is found by one thread at most: while nobody holds `head_lock`, a thread in the last loop of `cq_dequeue` finds its test
  -- true, so that the loop ends.
  pub loop_ends :
      (i a h : ℕ)
      → s.pc i ≡ finishing a h
      → s.mem.head_lock ≢ locked
      → head_passed a h s.mem.head ≡ true
  loop_ends i a h e open_lock =
      let inv = Reach-Inv le r small in
      finishing_passed s.mem a h (s.pc i) e (inv.nums i) (inv.at_rest open_lock).0
