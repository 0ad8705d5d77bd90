-- ===== src/ParallelQueue/Safety.antt =====
-- What the queue promises, at every state that it can reach with fewer than 2^31 tickets drawn.
use native.Mathlib.Nat.{add-div_right, add-mod_right}
use generic_asynchronous_io.Prelude.{
  ℕ, ◌+◌, ◌-◌, ◌/◌, ◌%◌, ◌^◌, ◌≤◌, ◌<◌, ◌≡◌, ◌≢◌, inl, inr, true, some, arith, sym, ap, ◌∙◌, dec_lt,
}
use generic_asynchronous_io.Command.{NvmCmd}
use generic_asynchronous_io.ParallelQueue.{Shared, System, Reach, Pc, slot}
use generic_asynchronous_io.ParallelQueue.Rounds.{
  slot-eq, rounds, rounds_at, rounds_before, rounds_mono, before_of_rounds,
}
use generic_asynchronous_io.ParallelQueue.Invariant.{
  ticket, owns_slot, has_lock, Ghost, Inv, passed, size_pos, below_size, scanned_issued,
  same_thread, owner_turn, Reach-Inv,
}

-- A command that has been counted into the tail and not been read lies in its slot.
in_slot :
    (log : ℕ) {g : Ghost} {m : Shared} {pc : ℕ → Pc} (inv : Inv (2 ^ log) g m pc) (a : ℕ)
    → m.fetched ≤ a
    → a < g.scanned
    → m.entries (a % 2 ^ log) ≡ m.posted a
in_slot log {g} {m} inv a read counted = inv.content a read (
    omega (
      arith,
      rounds_at (2 ^ log) (size_pos log) a,
      rounds_before (2 ^ log) (size_pos log) a g.scanned counted,
      inv.marks (a % 2 ^ log) (below_size log a),
      inv.in_turn (a % 2 ^ log) (below_size log a),
      rounds_mono (2 ^ log) (size_pos log) (a % 2 ^ log) (passed m) a
          (omega (arith, read, inv.given_fetched)),
    ))

module _ {log : ℕ} {blank : NvmCmd} {s : System} (r : Reach log blank s)
    (small : s.mem.issued < 2 ^ 31) where
  -- In every reachable state with fewer than 2^31 tickets drawn: while the controller's head differs from the doorbell, which is when the controller reads,
  -- the slot at that head holds the command that was posted with the ticket of that number, and
  -- that ticket has been drawn.
  pub fetch_lem :
      s.mem.fetched % 2 ^ log ≢ s.mem.db
      → (s.mem.entries (s.mem.fetched % 2 ^ log) ≡ s.mem.posted s.mem.fetched)
        × (s.mem.fetched < s.mem.issued)
  fetch_lem differs =
      let (g, inv) = Reach-Inv r small in
      let more : s.mem.fetched ≢ g.rung =
        λ same. differs (ap (λ t. t % 2 ^ log) same ∙ sym inv.doorbell) in
      (
        in_slot log inv s.mem.fetched (omega arith)
            (omega (arith, more, inv.fetched_rung, inv.rung_scanned)),
        omega (arith, more, inv.fetched_rung, inv.rung_scanned, scanned_issued log inv),
      )

  -- In every reachable state with fewer than 2^31 tickets drawn: every command from the controller's head up to the tail lies untouched in its slot.
  pub pending_lem :
      (a : ℕ) → s.mem.fetched ≤ a → a < s.mem.tail → s.mem.entries (a % 2 ^ log) ≡ s.mem.posted a
  pending_lem a read before =
      let (g, inv) = Reach-Inv r small in
      in_slot log inv a read (omega (arith, inv.tail_rung, inv.rung_scanned))

  -- In every reachable state with fewer than 2^31 tickets drawn: the head is never ahead of the controller, and the tail and the controller are less than a
  -- round ahead of the head; while nobody holds `tail_lock` the doorbell stands at the tail.
  pub window_lem :
      (s.mem.head ≤ s.mem.fetched)
      × (s.mem.fetched < s.mem.head + 2 ^ log)
      × (s.mem.tail < s.mem.head + 2 ^ log)
      × (s.mem.tail ≤ s.mem.issued)
      × (s.mem.tail_lock ≡ 0 → s.mem.db ≡ s.mem.tail % 2 ^ log)
  window_lem =
      let (g, inv) = Reach-Inv r small in
      (
        omega (arith, inv.given_fetched),
        omega (arith, inv.fetched_rung, inv.rung_scanned, inv.fits),
        omega (arith, inv.tail_rung, inv.rung_scanned, inv.fits),
        omega (arith, inv.tail_rung, inv.rung_scanned, scanned_issued log inv),
        λ idle.
            inv.doorbell
            ∙ ap (λ t. t % 2 ^ log)
                (omega (arith, inv.quiet idle, inv.tail_rung, inv.rung_scanned)),
      )

  -- In every reachable state with fewer than 2^31 tickets drawn: between the end of its wait and its last access to `tickets`, a thread has its slot for
  -- itself: two threads there whose tickets fall on one slot are the same thread.
  pub owner_unique :
      (i j t u : ℕ)
      → ticket (s.pc i) ≡ some t
      → ticket (s.pc j) ≡ some u
      → owns_slot (s.pc i) ≡ true
      → owns_slot (s.pc j) ≡ true
      → slot log t ≡ slot log u
      → i ≡ j
  owner_unique i j t u e f h k same =
      let (g, inv) = Reach-Inv r small in
      let at : t % 2 ^ log ≡ u % 2 ^ log = sym (slot-eq log t) ∙ same ∙ slot-eq log u in
      same_thread log inv i j t u e f at (
        sym (owner_turn (s.pc i) t (inv.local i) h e).0
        ∙ ap g.ended at
        ∙ (owner_turn (s.pc j) u (inv.local j) k f).0)

  -- In every reachable state with fewer than 2^31 tickets drawn: a thread gets past its wait only when the controller has read the command that was in the
  -- slot a round before.
  pub owner_behind :
      (i t : ℕ) → ticket (s.pc i) ≡ some t → owns_slot (s.pc i) ≡ true → t < s.mem.fetched + 2 ^ log
  owner_behind i t e h =
      let (g, inv) = Reach-Inv r small in
      let back : t / 2 ^ log ≤ rounds (2 ^ log) (t % 2 ^ log) (passed s.mem) =
        elim (owner_turn (s.pc i) t (inv.local i) h e).1 [
          | inl early ↦ omega (arith, early.back)
          | inr late ↦ omega (arith, late.published, inv.in_turn (t % 2 ^ log) (below_size log t))
        ] in
      elim (dec_lt t (2 ^ log)) [
        | yes first_round ↦ omega arith
        | no later ↦
            let a = t - 2 ^ log in
            let is_t : a + 2 ^ log ≡ t = omega arith in
            omega (
              arith,
              inv.given_fetched,
              before_of_rounds (2 ^ log) (size_pos log) a (passed s.mem) (
                  omega (
                    arith,
                    back,
                    ap (λ k. k / 2 ^ log) is_t,
                    add-div_right a (size_pos log),
                    ap (λ k. rounds (2 ^ log) k (passed s.mem))
                        (sym (add-mod_right a (2 ^ log)) ∙ ap (λ k. k % 2 ^ log) is_t),
                  )),
            )
      ]

  -- In every reachable state with fewer than 2^31 tickets drawn: at most one thread is between taking `tail_lock` and releasing it.
  pub lock_unique : (i j : ℕ) → has_lock (s.pc i) ≡ true → has_lock (s.pc j) ≡ true → i ≡ j
  lock_unique i j h k = let (g, inv) = Reach-Inv r small in inv.one_holder i j h k
