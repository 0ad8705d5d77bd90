-- ===== src/CqDequeue/Threads.antt =====
-- What one step does to where the threads stand and to the locks.
use generic_asynchronous_io.Prelude.{
  ℕ, ◌^◌, ◌≤◌, ◌<◌, ◌≡◌, ◌≢◌, ◌⊎◌, inl, inr, refl, arith, ap, sym, ◌∙◌, true, false, not,
  ℕ_discrete, dec_lt, update, update_self, update_ne, bit_or-one,
}
use generic_asynchronous_io.CqHead.{locked, head_passed}
use generic_asynchronous_io.CqDequeue.{
  Shared, Pc, outside, waiting, grabbing, marking, testing, locking, loading, scanning, moved,
  storing, releasing, finishing, unlocking, Move, enter, wait, seen, wait_again, grab, mark, again,
  gone, lost, won, load, take, stop, nothing, ring, store, release, spin, passed, unlock,
}
use generic_asynchronous_io.CqDequeue.Defs.{Entry, before, has_head, Nums, Inv}
use generic_asynchronous_io.CqDequeue.Moves.{slot_is}

-- The last test of `cq_dequeue`, once the head is not before the one that the poll saw.
passed_below : (a h head : ℕ) → h ≤ head → head_passed a h head ≡ true → a < head
unfolding head_passed
passed_below a h head le e = ground arith

pub record Frame (m : Shared) (p : Pc) (m' : Shared) : Type 0 where
  pub head_grows : m.head ≤ m'.head
  pub front_grows : m.front ≤ m'.front
  pub found_kept : (a : ℕ) → m.found a ≡ true → m'.found a ≡ true
  pub marked_kept : (a : ℕ) → (Entry a p → ⊥) → m'.marked a ≡ m.marked a
  pub still : has_head p ≡ false → (m'.head ≡ m.head) × (m'.front ≡ m.front) × (m'.rung ≡ m.rung)

pub Nums-Frame :
    {m m' : Shared} {p : Pc} (q : Pc)
    → Frame m p m'
    → (has_head q ≡ true → has_head p ≡ false)
    → Nums m q
    → Nums m' q
Nums-Frame outside f apart n = tt
Nums-Frame (waiting a h) f apart n = omega (arith, f.head_grows, n)
Nums-Frame (grabbing a h) f apart n = omega (arith, f.head_grows, n)
Nums-Frame (marking a h) f apart n = omega (arith, f.head_grows, n)
Nums-Frame (testing a h) f apart n = omega (arith, f.head_grows, n)
Nums-Frame (locking a h) f apart n = omega (arith, f.head_grows, n)
Nums-Frame (loading a h) f apart n = omega (arith, f.still (apart refl), n)
Nums-Frame (scanning a h cur c) f apart n = omega (arith, f.still (apart refl), n)
Nums-Frame (moved a h cur c) f apart n = omega (arith, f.still (apart refl), n)
Nums-Frame (storing a h cur c) f apart n = omega (arith, f.still (apart refl), n)
Nums-Frame (releasing a h) f apart n = omega (arith, f.still (apart refl), n)
Nums-Frame (finishing a h) f apart n = omega (arith, f.head_grows, f.front_grows, n)
Nums-Frame (unlocking a h) f apart n = omega (arith, f.head_grows, n)

module _ (log : ℕ) (le : log ≤ 32) {m : Shared} {pc : ℕ → Pc} (inv : Inv log m pc)
    (small : m.posted < 2 ^ 31) where
  same_fields :
      (p : Pc) (m' : Shared)
      → m'.head ≡ m.head
      → m'.front ≡ m.front
      → m'.rung ≡ m.rung
      → m'.found ≡ m.found
      → m'.marked ≡ m.marked
      → Frame m p m'
  same_fields p m' h f r k t = record {
    head_grows = omega (arith, h);
    front_grows = omega (arith, f);
    found_kept = λ a e. ap (λ g. g a) k ∙ e;
    marked_kept = λ a _. ap (λ g. g a) t;
    still = λ _. (h, f, r);
  }

  pub Move-Frame : {p p' : Pc} {m' : Shared} → Move log m p m' p' → Nums m p → Frame m p m'
  Move-Frame {m' = m'} (enter b h _ _ _ _) n = record {
    head_grows = omega arith;
    front_grows = omega arith;
    found_kept = λ a e. elim (ℕ_discrete b a) [
      | yes same ↦ ap (update m.found b true) (sym same) ∙ update_self m.found b true
      | no ne ↦ update_ne m.found b a true ne ∙ e
    ];
    marked_kept = λ a _. refl;
    still = λ _. (refl, refl, refl);
  }
  Move-Frame (mark {a = b}) n = record {
    head_grows = omega arith;
    front_grows = omega arith;
    found_kept = λ a e. e;
    marked_kept = λ a other. update_ne m.marked b a true other;
    still = λ _. (refl, refl, refl);
  }
  Move-Frame (take _) n = record {
    head_grows = omega arith;
    front_grows = omega arith;
    found_kept = λ a e. e;
    marked_kept = λ a _. refl;
    still = λ e. cc e;
  }
  Move-Frame (ring _) n = record {
    head_grows = omega arith;
    front_grows = omega arith;
    found_kept = λ a e. e;
    marked_kept = λ a _. refl;
    still = λ e. cc e;
  }
  Move-Frame (store {a} {h} {cur} {c}) n = record {
    head_grows = omega (arith, n.2, n.3, inv.front-le, small);
    front_grows = omega arith;
    found_kept = λ a e. e;
    marked_kept = λ a _. refl;
    still = λ e. cc e;
  }
  Move-Frame {p} {p'} {m'} mv n = same_fields p m' refl refl refl refl refl

  pub Move-Nums :
      {p p' : Pc} {m' : Shared}
      → Move log m p m' p'
      → Nums m p
      → ((a : ℕ) → Entry a p → m.marked a ≡ not (before p))
      → Nums m' p'
  Move-Nums (enter a h old least _ _) n own = (least, old)
  Move-Nums (wait _) n own = n
  Move-Nums (seen _) n own = n
  Move-Nums (wait_again _) n own = n
  Move-Nums (grab _) n own = n
  Move-Nums mark n own = n
  Move-Nums (again _) n own = n
  Move-Nums (gone {a} {h} open_mark) n own = (
    n.0,
    n.1,
    elim (dec_lt a m.front) [
      | yes less ↦ less
      | no least ↦ absurd (
          open_mark (
            ap m.head_mark (slot_is log le inv small a)
            ∙ inv.has_mark a (own a refl) (omega (arith, least))))
    ],
  )
  Move-Nums (lost _) n own = n
  Move-Nums (won open_lock) n own = (n.0, n.1, (inv.at_rest open_lock).0, (inv.at_rest open_lock).1)
  Move-Nums load n own = omega (arith, n)
  Move-Nums (take _) n own = omega (arith, n)
  Move-Nums (stop _) n own = n
  Move-Nums (nothing none) n own = omega (arith, n, none)
  Move-Nums (ring _) n own = omega (arith, n)
  Move-Nums (store {a} {h} {cur} {c}) n own = omega (arith, n, inv.front-le, small)
  Move-Nums release n own = omega (arith, n)
  Move-Nums (spin _) n own = n
  Move-Nums (passed {a} {h} e) n own = passed_below a h m.head n.1 e
  Move-Nums unlock n own = tt

  pub record Locks (p : Pc) (m' : Shared) (p' : Pc) : Type 0 where
    pub of_head : has_head p' ≡ true → (has_head p ≡ true) ⊎ (m.head_lock ≢ locked)
    pub now : has_head p' ≡ true → m'.head_lock ≡ locked
    pub kept : m.head_lock ≡ locked → has_head p ≡ false → m'.head_lock ≡ locked
    pub rest : m'.head_lock ≢ locked → (m'.front ≡ m'.head) × (m'.rung ≡ m'.head)

  pub Move-Locks :
      {p p' : Pc} {m' : Shared}
      → Move log m p m' p'
      → Nums m p
      → (has_head p ≡ true → m.head_lock ≡ locked)
      → Locks p m' p'
  Move-Locks (lost e) n held = record {
    of_head = λ h. cc;
    now = λ h. cc;
    kept = λ k _. omega (arith, bit_or-one m.head_lock, inv.lock_bit, k);
    rest = λ open_lock. absurd (open_lock (omega (arith, bit_or-one m.head_lock, inv.lock_bit)));
  }
  Move-Locks (won e) n held = record {
    of_head = λ h. inr e;
    now = λ h. omega (arith, bit_or-one m.head_lock, inv.lock_bit);
    kept = λ k _. omega (arith, bit_or-one m.head_lock, inv.lock_bit);
    rest = λ open_lock. absurd (open_lock (omega (arith, bit_or-one m.head_lock, inv.lock_bit)));
  }
  Move-Locks release n held = record {
    of_head = λ h. cc h;
    now = λ h. cc h;
    kept = λ _ h. cc h;
    rest = λ _. (n.2, n.3);
  }
  Move-Locks (take _) n held = record {
    of_head = λ h. inl refl;
    now = λ _. held refl;
    kept = λ k _. k;
    rest = λ open_lock. absurd (open_lock (held refl));
  }
  Move-Locks (ring _) n held = record {
    of_head = λ h. inl refl;
    now = λ _. held refl;
    kept = λ k _. k;
    rest = λ open_lock. absurd (open_lock (held refl));
  }
  Move-Locks store n held = record {
    of_head = λ h. inl refl;
    now = λ _. held refl;
    kept = λ k _. k;
    rest = λ open_lock. absurd (open_lock (held refl));
  }
  Move-Locks {p} {p'} {m'} mv n held = record {
    of_head = λ h. ground arith;
    now = λ h. ground arith;
    kept = λ k _. k;
    rest = inv.at_rest;
  }
