-- ===== src/ParallelQueue/Invariant/Devices.antt =====
-- A step of `move_head_cq` or of the controller keeps the invariant.
use native.Mathlib.Nat.{mod-add-mod}
use generic_asynchronous_io.Prelude.{
  ℕ, ◌+◌, ◌%◌, ◌^◌, ◌≤◌, ◌<◌, ◌≡◌, ◌≢◌, ◌⊎◌, inl, inr, refl, arith, ◌∙◌, sym, ap, u32, ℕ_discrete,
  update, update_ne, update_self, subst,
}
use generic_asynchronous_io.ParallelQueue.{
  Shared, Pc, Mover, resting, passing, adding, slot, Device, report, give_back, arrived, add, fetch,
}
use generic_asynchronous_io.ParallelQueue.Rounds.{
  slot-eq, rounds, rounds_at, rounds_step, rounds_other, rounds_mono, rounds_before, rounds-le,
}
use generic_asynchronous_io.ParallelQueue.Invariant.Defs.{
  Ghost, Early, given_back, passed, MoverAt, Inv,
}
use generic_asynchronous_io.ParallelQueue.Invariant.Frame.{Frame-Local}
use generic_asynchronous_io.ParallelQueue.Invariant.Facts.{size_pos, below_size, scanned_issued}
use generic_asynchronous_io.ParallelQueue.Invariant.Threads.{ended-le}

abbrev pub heading : {log : ℕ} {m m' : Shared} → Device log m m' → Ghost → Ghost
heading (report goal _ _ _) g = record g { goal = goal }
heading _ g = g

module _ (log : ℕ) {g : Ghost} {m : Shared} {pc : ℕ → Pc} (inv : Inv (2 ^ log) g m pc) where
  open inv use {
    few, ticks, marks, in_turn, given_fetched, fetched_rung, tail_rung, rung_scanned, fits,
    doorbell, mover,
  }

  mover_at : {k : Mover} → m.mover ≡ k → MoverAt (2 ^ log) g m k
  mover_at e = subst (MoverAt (2 ^ log) g m) e mover

  passed_at : {k : Mover} → m.mover ≡ k → passed m ≡ m.head + given_back k
  passed_at e = ap (λ k. m.head + given_back k) e

  -- There is a command to go before the slot is given back.
  more_to_go : {at c new : ℕ} → m.mover ≡ passing at c new → at ≢ new → m.head + c < g.goal
  more_to_go {c = c} e ne =
      let w = mover_at e in
      let further : m.head + c ≢ g.goal = λ same. ne (w.0 ∙ ap (λ t. t % 2 ^ log) same ∙ sym w.1) in
      omega (arith, w.2, further)

  -- No thread is between its wait and its mark at the slot that comes next.
  next_free :
      (t : ℕ) → passed m < m.fetched → Early (2 ^ log) g m t → t % 2 ^ log ≢ passed m % 2 ^ log
  next_free t more early same = omega (
    arith,
    early.unmarked,
    early.back,
    marks (t % 2 ^ log) (below_size log t),
    rounds_before (2 ^ log) (size_pos log) (passed m) g.scanned
        (omega (arith, fetched_rung, rung_scanned)),
    rounds_at (2 ^ log) (size_pos log) (passed m),
    ap (λ k. rounds (2 ^ log) k g.scanned) same,
    ap (λ k. rounds (2 ^ log) k (passed m)) same,
  )

  -- What a step of the device has to show: only these fields of the state change.
  record Settles (goal head : ℕ) (tickets : ℕ → ℕ) (k : Mover) (fetched : ℕ) : Type 0 where
    forward :
        (head + given_back k ≡ passed m)
        ⊎ ((head + given_back k ≡ passed m + 1) × (passed m < m.fetched))
    counts :
        (p : ℕ) → p < 2 ^ log → tickets p ≡ g.ended p + rounds (2 ^ log) p (head + given_back k)
    head_on : m.head ≤ head
    read_on : m.fetched ≤ fetched
    passed_read : head + given_back k ≤ fetched
    read_rung : fetched ≤ g.rung
    target :
        MoverAt
          (2 ^ log)
          (record g { goal = goal })
          (record m { head = head; tickets = tickets; mover = k; fetched = fetched })
          k

  settled :
      (goal head : ℕ) (tickets : ℕ → ℕ) (k : Mover) (fetched : ℕ)
      → Settles goal head tickets k fetched
      → Inv
          (2 ^ log)
          (record g { goal = goal })
          (record m { head = head; tickets = tickets; mover = k; fetched = fetched })
          pc
  settled goal head tickets k fetched s = record {
    few = few;
    counted = inv.counted;
    ticks = s.counts;
    marks = marks;
    marker = λ p lt. elim (inv.marker p lt) [
      | inl level ↦ inl level
      | inr (j, t, e, h, at, ahead) ↦ inr (j, t, e, h, at, ahead)
    ];
    in_turn = λ p lt. omega (
      arith,
      in_turn p lt,
      rounds_mono (2 ^ log) (size_pos log) p (passed m) (head + given_back k) onward,
    );
    only_issued = inv.only_issued;
    unique = inv.unique;
    range = inv.range;
    content = λ a le e. inv.content a (omega (arith, le, s.read_on)) e;
    given_fetched = s.passed_read;
    fetched_rung = s.read_rung;
    tail_rung = tail_rung;
    rung_scanned = rung_scanned;
    fits = omega (arith, fits, s.head_on);
    doorbell = doorbell;
    lock_bit = inv.lock_bit;
    holds_lock = inv.holds_lock;
    one_holder = inv.one_holder;
    quiet = inv.quiet;
    local = λ j.
        Frame-Local (pc j)
          (record {
            same_post = λ t e. refl;
            early = λ t e early. record {
              turn = early.turn;
              unmarked = early.unmarked;
              back = same_back t early ∙ early.back;
            };
            late = λ t e late. record { turn = late.turn; published = late.published };
            same_entry = λ t e early. refl;
            under_lock = λ h. (refl, refl, refl, s.head_on);
          })
          (inv.local j);
    mover = s.target;
  }
    where
      onward : passed m ≤ head + given_back k
      onward = elim s.forward [ inl same ↦ omega (arith, same) | inr next ↦ omega (arith, next.0) ]

      same_back :
          (t : ℕ)
          → Early (2 ^ log) g m t
          → rounds (2 ^ log) (t % 2 ^ log) (head + given_back k)
            ≡ rounds (2 ^ log) (t % 2 ^ log) (passed m)
      same_back t early = elim s.forward [
        | inl same ↦ ap (rounds (2 ^ log) (t % 2 ^ log)) same
        | inr next ↦
            ap (rounds (2 ^ log) (t % 2 ^ log)) next.0
            ∙ rounds_other (2 ^ log) (size_pos log) (t % 2 ^ log) (passed m)
                (λ e. next_free t next.1 early (sym e))
      ]

  same_counts :
      (to : ℕ)
      → to ≡ passed m
      → (p : ℕ) → p < 2 ^ log
      → m.tickets p ≡ g.ended p + rounds (2 ^ log) p to
  same_counts to e p lt = omega (arith, ticks p lt, ap (rounds (2 ^ log) p) e)

  given_counts :
      {at c new : ℕ}
      → m.mover ≡ passing at c new
      → at ≢ new
      → (p : ℕ) → p < 2 ^ log
      → update m.tickets at (u32 (m.tickets at + 1)) p
        ≡ g.ended p + rounds (2 ^ log) p (m.head + (c + 1))
  given_counts {at} {c} e ne p lt = elim (ℕ_discrete at p) [
    | yes here ↦
        ap (update m.tickets at (u32 (m.tickets at + 1))) (sym here)
        ∙ update_self m.tickets at (u32 (m.tickets at + 1))
        ∙ ap (λ k. u32 (m.tickets k + 1)) here
        ∙ omega (
          arith,
          ticks p lt,
          ap (rounds (2 ^ log) p) (passed_at e),
          ended-le log inv p lt,
          rounds-le (2 ^ log) (size_pos log) p m.issued,
          rounds-le (2 ^ log) (size_pos log) p (m.head + c),
          few,
          given_fetched,
          fetched_rung,
          rung_scanned,
          scanned_issued log inv,
          passed_at e,
          ap (λ k. rounds (2 ^ log) k (m.head + c + 1)) (is_slot here),
          ap (λ k. rounds (2 ^ log) k (m.head + c)) (is_slot here),
          rounds_step (2 ^ log) (size_pos log) (m.head + c),
          rounds_at (2 ^ log) (size_pos log) (m.head + c),
          grow,
        )
    | no elsewhere ↦
        update_ne m.tickets at p (u32 (m.tickets at + 1)) elsewhere
        ∙ omega (
          arith,
          ticks p lt,
          ap (rounds (2 ^ log) p) (passed_at e),
          rounds_other (2 ^ log) (size_pos log) p (m.head + c)
              (λ here. elsewhere ((mover_at e).0 ∙ here)),
          grow,
        )
  ]
    where
      grow : rounds (2 ^ log) p (m.head + (c + 1)) ≡ rounds (2 ^ log) p (m.head + c + 1)
      grow = ap (rounds (2 ^ log) p) (omega arith)

      is_slot : at ≡ p → (m.head + c) % 2 ^ log ≡ p
      is_slot here = sym (mover_at e).0 ∙ here

  mover_on :
      (k : Mover)
      → MoverAt (2 ^ log) g m k
      → MoverAt (2 ^ log) (record g { goal = g.goal }) (record m { fetched = m.fetched + 1 }) k
  mover_on resting w = tt
  mover_on (passing at c new) w = (w.0, w.1, w.2, omega (arith, w.3))
  mover_on (adding c) w = tt

  pub Device-Inv : {m' : Shared} (d : Device log m m') → Inv (2 ^ log) (heading d g) m' pc
  Device-Inv (report goal e from to) = settled goal m.head m.tickets _ m.fetched (record {
    forward = inl (omega (arith, passed_at e));
    counts = same_counts _ (omega (arith, passed_at e));
    head_on = omega arith;
    read_on = omega arith;
    passed_read = omega (arith, from, to);
    read_rung = fetched_rung;
    target = (
      slot-eq log m.head ∙ ap (λ t. t % 2 ^ log) (omega arith),
      slot-eq log goal,
      omega (arith, from),
      to,
    );
  })
  Device-Inv (give_back {at} {c} {new} e ne) =
      let w = mover_at e in
      let go = more_to_go e ne in
      settled g.goal m.head (update m.tickets at (u32 (m.tickets at + 1)))
        (passing (slot log (at + 1)) (c + 1) new) m.fetched
        (record {
          forward = inr (omega (arith, passed_at e), omega (arith, passed_at e, go, w.3));
          counts = given_counts e ne;
          head_on = omega arith;
          read_on = omega arith;
          passed_read = omega (arith, go, w.3);
          read_rung = fetched_rung;
          target = (
            slot-eq log (at + 1)
                ∙ ap (λ t. (t + 1) % 2 ^ log) w.0
                ∙ mod-add-mod (m.head + c) (2 ^ log) 1
                ∙ ap (λ t. t % 2 ^ log) (omega arith),
            w.1,
            omega (arith, go),
            w.3,
          );
        })
  Device-Inv (arrived {c = c} e same) =
      settled g.goal m.head m.tickets (adding c) m.fetched (record {
        forward = inl (omega (arith, passed_at e));
        counts = same_counts _ (omega (arith, passed_at e));
        head_on = omega arith;
        read_on = omega arith;
        passed_read = omega (arith, passed_at e, given_fetched);
        read_rung = fetched_rung;
        target = tt;
      })
  Device-Inv (add {c} e) =
      let small : u32 (m.head + c) ≡ m.head + c = omega (
        arith,
        passed_at e,
        few,
        given_fetched,
        fetched_rung,
        rung_scanned,
        scanned_issued log inv,
      ) in
      settled g.goal (u32 (m.head + c)) m.tickets resting m.fetched (record {
        forward = inl (omega (arith, small, passed_at e));
        counts = same_counts _ (omega (arith, small, passed_at e));
        head_on = omega (arith, small);
        read_on = omega arith;
        passed_read = omega (arith, small, passed_at e, given_fetched);
        read_rung = fetched_rung;
        target = tt;
      })
  Device-Inv (fetch differs) = settled g.goal m.head m.tickets m.mover (m.fetched + 1) (record {
    forward = inl refl;
    counts = ticks;
    head_on = omega arith;
    read_on = omega arith;
    passed_read = omega (arith, given_fetched);
    read_rung = omega (arith, fetched_rung, behind);
    target = mover_on m.mover mover;
  })
    where
      behind : m.fetched ≢ g.rung
      behind same = differs (ap (λ t. t % 2 ^ log) same ∙ sym doorbell)
