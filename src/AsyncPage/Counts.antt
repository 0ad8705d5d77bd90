-- ===== src/AsyncPage/Counts.antt =====
-- Both counts of a page are the sums of what its users have added to them.
use generic_asynchronous_io.Prelude.{
  ℕ, ◌+◌, ◌%◌, ◌^◌, ◌≤◌, ◌<◌, ◌≡◌, refl, arith, ap, sym, ◌∙◌, ℕ_discrete, update, update_self,
  update_ne, sum, sum_change, sum-le, sum_pairs, le-sum,
}
use generic_asynchronous_io.PageState.Flags.{count_of, or_busy, or_dirty, flip_flags}
use generic_asynchronous_io.AsyncPage.{
  Page, Pc, outside, counting, looking, reloading, claiming, clearing, marking, assigning, sending,
  dirtying, hit, following, waiting, polling, unflagging, electing, rechecking, completing,
  finishing, flipping, unlocking, resolved, subtracting, Submit, enter, count_ref, claim_won,
  claim_lost, set_dirty, Wait, wait, Poll, finish_write, flip, Move, submit, awaiting, poll,
  release, release_ref, System, step, Reach, start, later, initial,
}

-- How many references a thread has added to the state.
abbrev pub held : Pc → ℕ
held outside = 0
held (counting n _ _) = n
held (looking n _ _) = n
held (reloading n _) = n
held (claiming n _) = n
held (clearing n) = n
held (marking n) = n
held (assigning n) = n
held (sending n _) = n
held (dirtying n) = n
held (hit n) = n
held (following n) = n
held (waiting n _ _) = n
held (polling n _ _ _ _) = n
held (unflagging n _ _) = n
held (electing n _ _ _) = n
held (rechecking n _ _) = n
held (completing n _ _ _) = n
held (finishing n _ _) = n
held (flipping n _) = n
held (unlocking n _) = n
held (resolved n _) = n
held (subtracting _) = 0

-- And to `ref_count`.
abbrev pub counted : Pc → ℕ
counted (counting _ _ _) = 0
counted (subtracting n) = n
counted p = held p

-- References that are in the state alone, and those that are in `ref_count` alone.
abbrev pub state_only : Pc → ℕ
state_only (counting n _ _) = n
state_only p = 0

abbrev pub ref_only : Pc → ℕ
ref_only (subtracting n) = n
ref_only p = 0

counted-held : (p : Pc) → counted p + state_only p ≡ held p + ref_only p
counted-held (counting n w r) = omega arith
counted-held (subtracting n) = omega arith
counted-held p = omega arith

pub record Inv (threads : ℕ) (m : Page) (pc : ℕ → Pc) : Type 0 where
  pub fits : m.state < 2 ^ 32
  pub counts : count_of m.state ≡ sum (λ j. held (pc j)) threads
  pub refs : m.ref_count ≡ sum (λ j. counted (pc j)) threads
  pub small : (j : ℕ) → held (pc j) ≤ 32
  pub small_refs : (j : ℕ) → counted (pc j) ≤ 32

-- What one access does to the counts.
record Counted (m m' : Page) (p p' : Pc) : Type 0 where
  in_state : count_of m'.state + held p ≡ count_of m.state + held p'
  in_refs : m'.ref_count + counted p ≡ m.ref_count + counted p'
  fits : m'.state < 2 ^ 32
  small : held p' ≤ 32
  small_refs : counted p' ≤ 32

-- What is known of a thread that is about to move.
record Room (m : Page) (p : Pc) : Type 0 where
  word : m.state < 2 ^ 32
  le : held p ≤ count_of m.state
  le_refs : counted p ≤ m.ref_count
  few : held p ≤ 32
  few_refs : counted p ≤ 32
  room : count_of m.state + 32 < 2 ^ 29
  room_refs : m.ref_count + 32 < 2 ^ 32

Submit-Counted : {m m' : Page} {p p' : Pc} → Submit m p m' p' → Room m p → Counted m m' p p'
Submit-Counted (enter n w least most) r = record {
  in_state = omega (arith, most, r.room, r.word);
  in_refs = refl;
  fits = omega arith;
  small = most;
  small_refs = omega arith;
}
Submit-Counted (count_ref {n}) r = record {
  in_state = refl;
  in_refs = omega (arith, r.room_refs, r.few);
  fits = r.word;
  small = r.few;
  small_refs = r.few;
}
Submit-Counted {m} (claim_won _) r =
    let k = or_busy m.state r.word in
    record {
      in_state = omega (arith, k.same_count);
      in_refs = refl;
      fits = k.fits;
      small = r.few;
      small_refs = r.few_refs;
    }
Submit-Counted {m} (claim_lost _) r =
    let k = or_busy m.state r.word in
    record {
      in_state = omega (arith, k.same_count);
      in_refs = refl;
      fits = k.fits;
      small = r.few;
      small_refs = r.few_refs;
    }
Submit-Counted {m} set_dirty r =
    let k = or_dirty m.state r.word in
    record {
      in_state = omega (arith, k.same_count);
      in_refs = refl;
      fits = k.fits;
      small = r.few;
      small_refs = r.few_refs;
    }
Submit-Counted other r = record {
  in_state = refl;
  in_refs = refl;
  fits = r.word;
  small = r.few;
  small_refs = r.few_refs;
}

Wait-Counted : {m m' : Page} {p p' : Pc} → Wait m p m' p' → Room m p → Counted m m' p p'
Wait-Counted (wait w) r = record {
  in_state = refl;
  in_refs = refl;
  fits = r.word;
  small = r.few;
  small_refs = r.few_refs;
}
Wait-Counted other r = record {
  in_state = refl;
  in_refs = refl;
  fits = r.word;
  small = r.few;
  small_refs = r.few_refs;
}

Poll-Counted : {m m' : Page} {p p' : Pc} → Poll m p m' p' → Room m p → Counted m m' p p'
Poll-Counted {m} finish_write r =
    let k = or_dirty m.state r.word in
    record {
      in_state = omega (arith, k.same_count);
      in_refs = refl;
      fits = k.fits;
      small = r.few;
      small_refs = r.few_refs;
    }
Poll-Counted {m} flip r =
    let k = flip_flags m.state r.word in
    record {
      in_state = omega (arith, k.same_count);
      in_refs = refl;
      fits = k.fits;
      small = r.few;
      small_refs = r.few_refs;
    }
Poll-Counted other r = record {
  in_state = refl;
  in_refs = refl;
  fits = r.word;
  small = r.few;
  small_refs = r.few_refs;
}

Move-Counted : {m m' : Page} {p p' : Pc} → Move m p m' p' → Room m p → Counted m m' p p'
Move-Counted (submit s) r = Submit-Counted s r
Move-Counted (awaiting w) r = Wait-Counted w r
Move-Counted (poll p) r = Poll-Counted p r
Move-Counted release r = record {
  in_state = omega (arith, r.le, r.word, r.few);
  in_refs = refl;
  fits = omega arith;
  small = omega arith;
  small_refs = r.few_refs;
}
Move-Counted release_ref r = record {
  in_state = refl;
  in_refs = omega (arith, r.le_refs, r.room_refs);
  fits = r.word;
  small = omega arith;
  small_refs = omega arith;
}

module _ (threads : ℕ) (enough : threads ≤ 2 ^ 23) {m : Page} {pc : ℕ → Pc} (inv : Inv threads m pc)
    (i : ℕ) (lt : i < threads) where
  mover-Room : Room m (pc i)
  mover-Room = record {
    word = inv.fits;
    le = omega (arith, inv.counts, le-sum (λ j. held (pc j)) threads i lt);
    le_refs = omega (arith, inv.refs, le-sum (λ j. counted (pc j)) threads i lt);
    few = inv.small i;
    few_refs = inv.small_refs i;
    room = omega (arith, inv.counts, enough, sum-le (λ j. held (pc j)) 32 threads inv.small);
    room_refs =
        omega (arith, inv.refs, enough, sum-le (λ j. counted (pc j)) 32 threads inv.small_refs);
  }

  sum-update :
      (f : Pc → ℕ) (p' : Pc)
      → sum (λ j. f (update pc i p' j)) threads + f (pc i) ≡ sum (λ j. f (pc j)) threads + f p'
  sum-update f p' = omega (
    arith,
    sum_change (λ j. f (update pc i p' j)) (λ j. f (pc j)) i threads lt
        (λ j ne. ap f (update_ne pc i j p' (λ e. ne (sym e)))),
    ap f (update_self pc i p'),
  )

  Move-Inv : {p' : Pc} {m' : Page} → Move m (pc i) m' p' → Inv threads m' (update pc i p')
  Move-Inv {p'} mv =
      let c = Move-Counted mv mover-Room in
      record {
        fits = c.fits;
        counts = omega (arith, c.in_state, inv.counts, sum-update held p');
        refs = omega (arith, c.in_refs, inv.refs, sum-update counted p');
        small = λ j. elim (ℕ_discrete i j) [
          | yes e ↦
              omega (arith, ap held (ap (update pc i p') (sym e) ∙ update_self pc i p'), c.small)
          | no ne ↦ omega (arith, ap held (update_ne pc i j p' ne), inv.small j)
        ];
        small_refs = λ j. elim (ℕ_discrete i j) [
          | yes e ↦
              omega (
                arith,
                ap counted (ap (update pc i p') (sym e) ∙ update_self pc i p'),
                c.small_refs,
              )
          | no ne ↦ omega (arith, ap counted (update_ne pc i j p' ne), inv.small_refs j)
        ];
      }

initial-Inv : (threads : ℕ) → Inv threads initial.page initial.pc
initial-Inv threads = record {
  fits = omega arith;
  counts = omega (arith, sum-le (λ _. 0) 0 threads (λ _. omega arith));
  refs = omega (arith, sum-le (λ _. 0) 0 threads (λ _. omega arith));
  small = λ j. omega arith;
  small_refs = λ j. omega arith;
}

Reach-Inv :
    {threads : ℕ} {s : System} → threads ≤ 2 ^ 23 → Reach threads s → Inv threads s.page s.pc
Reach-Inv {threads} enough start = initial-Inv threads
Reach-Inv {threads} enough (later r (step i lt mv)) =
    Move-Inv threads enough (Reach-Inv enough r) i lt mv

-- In every state that at most 2^23 threads can reach, the low 29 bits of the state word are the sum
-- of the references that the threads have added to it and not yet subtracted from it, `ref_count`
-- is the sum of those that they have added to it and not yet subtracted, and both are at most 2^28.
-- With what is in the state alone, because a thread has not come to the second addition yet,
-- `ref_count` is as much as the state's count with what is in `ref_count` alone, because a release
-- has not come to its second subtraction.
pub async_count_lem :
    {threads : ℕ} {s : System}
    → threads ≤ 2 ^ 23
    → Reach threads s
    → (s.page.state % 2 ^ 29 ≡ sum (λ j. held (s.pc j)) threads)
      × (s.page.ref_count ≡ sum (λ j. counted (s.pc j)) threads)
      × (s.page.state % 2 ^ 29 ≤ 2 ^ 28)
      × (s.page.ref_count ≤ 2 ^ 28)
      × (s.page.ref_count + sum (λ j. state_only (s.pc j)) threads
          ≡ s.page.state % 2 ^ 29 + sum (λ j. ref_only (s.pc j)) threads)
async_count_lem {threads} {s} enough r =
    let inv = Reach-Inv enough r in
    (
      inv.counts,
      inv.refs,
      omega (arith, enough, inv.counts, sum-le (λ j. held (s.pc j)) 32 threads inv.small),
      omega (arith, enough, inv.refs, sum-le (λ j. counted (s.pc j)) 32 threads inv.small_refs),
      omega (
        arith,
        inv.counts,
        inv.refs,
        sum_pairs (λ j. counted (s.pc j)) (λ j. state_only (s.pc j)) (λ j. held (s.pc j))
            (λ j. ref_only (s.pc j)) threads (λ j. counted-held (s.pc j)),
      ),
    )
