-- ===== src/CqDequeue/Reachable.antt =====
-- Every state that the queue can reach satisfies the invariant.
use native.Mathlib.Nat.{one-le-pow, zero-mod, add-mod_right}
use generic_asynchronous_io.Prelude.{
  ℕ, ◌+◌, ◌^◌, ◌%◌, ◌≤◌, ◌<◌, ◌≡◌, ◌≢◌, refl, arith, ap, sym, ◌∙◌,
}
use generic_asynchronous_io.CqDequeue.{
  Shared, Pc, outside, waiting, grabbing, marking, testing, locking, loading, scanning, moved,
  storing, releasing, finishing, unlocking, Move, enter, System, thread, post, Reach, start, later,
  initial,
}
use generic_asynchronous_io.CqDequeue.Defs.{Nums, Inv}
use generic_asynchronous_io.CqDequeue.Invariant.{Move-Inv}

Nums-post : (m : Shared) (p : Pc) (k : ℕ) → Nums m p → Nums (record m { posted = k }) p
Nums-post m outside k n = n
Nums-post m (waiting _ _) k n = n
Nums-post m (grabbing _ _) k n = n
Nums-post m (marking _ _) k n = n
Nums-post m (testing _ _) k n = n
Nums-post m (locking _ _) k n = n
Nums-post m (loading _ _) k n = n
Nums-post m (scanning _ _ _ _) k n = n
Nums-post m (moved _ _ _ _) k n = n
Nums-post m (storing _ _ _ _) k n = n
Nums-post m (releasing _ _) k n = n
Nums-post m (finishing _ _) k n = n
Nums-post m (unlocking _ _) k n = n

-- The controller posts one more entry.
post-Inv :
    (log : ℕ) {m : Shared} {pc : ℕ → Pc}
    → Inv log m pc
    → (m.posted + 1) % 2 ^ log ≢ m.db
    → Inv log (record m { posted = m.posted + 1 }) pc
post-Inv log {m} {pc} inv free = record {
  head-le = inv.head-le;
  rung-le = inv.rung-le;
  front-le = omega (arith, inv.front-le);
  room = omega (arith, inv.room, λ (e : m.posted + 1 ≡ m.rung + 2 ^ log). full e);
  doorbell = inv.doorbell;
  of_mark = λ s e.
      let (a, at, least, less, is) = inv.of_mark s e in (a, at, least, omega (arith, less), is);
  has_mark = inv.has_mark;
  passed_marked = inv.passed_marked;
  marked_found = inv.marked_found;
  found_posted = λ a e. omega (arith, inv.found_posted a e);
  nums = λ i. Nums-post m (pc i) (m.posted + 1) (inv.nums i);
  is_found = inv.is_found;
  is_marked = inv.is_marked;
  distinct = inv.distinct;
  lock_bit = inv.lock_bit;
  lock_set = inv.lock_set;
  one_head = inv.one_head;
  at_rest = inv.at_rest;
  slot_set = inv.slot_set;
  one_slot = inv.one_slot;
}
  where
    full : m.posted + 1 ≡ m.rung + 2 ^ log → ⊥
    full e = free (ap (λ t. t % 2 ^ log) e ∙ add-mod_right m.rung (2 ^ log) ∙ sym inv.doorbell)

initial-Inv : (log : ℕ) → Inv log initial.mem initial.pc
initial-Inv log = record {
  head-le = omega arith;
  rung-le = omega arith;
  front-le = omega arith;
  room = omega (arith, one-le-pow log 2 (omega arith));
  doorbell = sym (zero-mod (2 ^ log));
  of_mark = λ s e. absurd (omega (arith, e));
  has_mark = λ a e _. absurd (cc e);
  passed_marked = λ a less. absurd (omega (arith, less));
  marked_found = λ a e. e;
  found_posted = λ a e. absurd (cc e);
  nums = λ i. tt;
  is_found = λ i a e. absurd e;
  is_marked = λ i a e. absurd e;
  distinct = λ i j a e _. absurd e;
  lock_bit = omega arith;
  lock_set = λ i e. cc e;
  one_head = λ i j e _. cc e;
  at_rest = λ _. (refl, refl);
  slot_set = λ i a e _. absurd e;
  one_slot = λ i j a b e _ _ _ _. absurd e;
}

Move-posted : {log : ℕ} {m m' : Shared} {p p' : Pc} → Move log m p m' p' → m'.posted ≡ m.posted
Move-posted (enter _ _ _ _ _ _) = refl
Move-posted mv = refl

pub Reach-Inv :
    {log : ℕ} {s : System} → log ≤ 32 → Reach log s → s.mem.posted < 2 ^ 31 → Inv log s.mem s.pc
Reach-Inv {log} le start small = initial-Inv log
Reach-Inv {log} le (later {s} r (thread i mv)) small =
    let before_small : s.mem.posted < 2 ^ 31 = omega (arith, Move-posted mv, small) in
    Move-Inv log le (Reach-Inv le r before_small) before_small i mv
Reach-Inv {log} le (later {s} r (post free)) small =
    post-Inv log (Reach-Inv le r (omega (arith, small))) free
