-- ===== src/CqDequeue/Invariant.antt =====
-- A step of a thread keeps the invariant.
use generic_asynchronous_io.Prelude.{
  ℕ, ◌^◌, ◌%◌, ◌≤◌, ◌<◌, ◌≡◌, ◌≢◌, inl, inr, ap, sym, subst, ◌∙◌, true, false, not, Bool-cases,
  ℕ_discrete, update, update_self, update_ne,
}
use generic_asynchronous_io.CqHead.{locked}
use generic_asynchronous_io.CqDequeue.{Shared, Pc, Move}
use generic_asynchronous_io.CqDequeue.Defs.{Entry, before, in_slot, has_head, Nums, Inv}
use generic_asynchronous_io.CqDequeue.Moves.{Order, Move-Order, Marks, Move-Marks}
use generic_asynchronous_io.CqDequeue.Threads.{
  Frame, Nums-Frame, Move-Frame, Move-Nums, Locks, Move-Locks,
}
use generic_asynchronous_io.CqDequeue.Slots.{Move-Entry, Move-own, SlotLocks, Move-SlotLocks}

module _ (log : ℕ) (le : log ≤ 32) {m : Shared} {pc : ℕ → Pc} (inv : Inv log m pc)
    (small : m.posted < 2 ^ 31) (i : ℕ) {p' : Pc} {m' : Shared} (mv : Move log m (pc i) m' p') where
  own : (a : ℕ) → Entry a (pc i) → (m.found a ≡ true) × (m.marked a ≡ not (before (pc i)))
  own a e = (inv.is_found i a e, inv.is_marked i a e)

  frame : Frame m (pc i) m'
  frame = Move-Frame log le inv small mv (inv.nums i)

  locks : Locks log le inv small (pc i) m' p'
  locks = Move-Locks log le inv small mv (inv.nums i) (inv.lock_set i)

  slots : SlotLocks log le inv small (pc i) m' p'
  slots = Move-SlotLocks log le inv small mv (inv.slot_set i)

  marks : Marks log le inv small m'
  marks = Move-Marks log le inv small mv (inv.nums i) own

  order : Order log le inv small m'
  order = Move-Order log le inv small mv (inv.nums i)

  is_moved : (j : ℕ) → i ≡ j → update pc i p' j ≡ p'
  is_moved j e = ap (update pc i p') (sym e) ∙ update_self pc i p'

  others : (j : ℕ) → i ≢ j → update pc i p' j ≡ pc j
  others j ne = update_ne pc i j p' ne

  -- Of two threads only one can hold `head_lock`.
  no_head : (j : ℕ) → i ≢ j → has_head (pc j) ≡ true → has_head (pc i) ≡ false
  no_head j ne h = elim (Bool-cases (has_head (pc i))) [
    | inl mine ↦ absurd (ne (inv.one_head i j mine h))
    | inr open_head ↦ open_head
  ]

  new_own : (a : ℕ) → Entry a p' → (m'.found a ≡ true) × (m'.marked a ≡ not (before p'))
  new_own = Move-own log le inv small mv own

  kept-Nums : (j : ℕ) → Nums m' (update pc i p' j)
  kept-Nums j = elim (ℕ_discrete i j) [
    | yes e ↦
        subst (Nums m') (sym (is_moved j e))
          (Move-Nums log le inv small mv (inv.nums i) (inv.is_marked i))
    | no ne ↦
        subst (Nums m') (sym (others j ne)) (Nums-Frame (pc j) frame (no_head j ne) (inv.nums j))
  ]

  kept_found : (j a : ℕ) → Entry a (update pc i p' j) → m'.found a ≡ true
  kept_found j a h = elim (ℕ_discrete i j) [
    | yes e ↦ (new_own a (subst (Entry a) (is_moved j e) h)).0
    | no ne ↦ frame.found_kept a (inv.is_found j a (subst (Entry a) (others j ne) h))
  ]

  kept_marked :
      (j a : ℕ) → Entry a (update pc i p' j) → m'.marked a ≡ not (before (update pc i p' j))
  kept_marked j a h = elim (ℕ_discrete i j) [
    | yes e ↦
        (new_own a (subst (Entry a) (is_moved j e) h)).1
        ∙ ap (λ t. not (before t)) (sym (is_moved j e))
    | no ne ↦
        let was : Entry a (pc j) = subst (Entry a) (others j ne) h in
        frame.marked_kept a (λ mine. ne (inv.distinct i j a mine was))
        ∙ inv.is_marked j a was
        ∙ ap (λ t. not (before t)) (sym (others j ne))
  ]

  -- The mover's entry is no other thread's.
  mover_distinct : (j a : ℕ) → i ≢ j → Entry a p' → Entry a (pc j) → ⊥
  mover_distinct j a ne h k = elim (Move-Entry log le inv small mv a h) [
    | inl was ↦ ne (inv.distinct i j a was k)
    | inr free ↦ let clash : true ≡ false = sym (inv.is_found j a k) ∙ free in cc clash
  ]

  kept_distinct : (j k a : ℕ) → Entry a (update pc i p' j) → Entry a (update pc i p' k) → j ≡ k
  kept_distinct j k a hj hk = elim (ℕ_discrete i j) [
    | yes ej ↦ elim (ℕ_discrete i k) [
      | yes ek ↦ sym ej ∙ ek
      | no nk ↦ absurd (
          mover_distinct k a nk (subst (Entry a) (is_moved j ej) hj)
            (subst (Entry a) (others k nk) hk))
    ]
    | no nj ↦ elim (ℕ_discrete i k) [
      | yes ek ↦ absurd (
          mover_distinct j a nj (subst (Entry a) (is_moved k ek) hk)
            (subst (Entry a) (others j nj) hj))
      | no nk ↦
          inv.distinct j k a (subst (Entry a) (others j nj) hj) (subst (Entry a) (others k nk) hk)
    ]
  ]

  Has : Pc → Type 0
  Has p = has_head p ≡ true

  kept_lock : (j : ℕ) → has_head (update pc i p' j) ≡ true → m'.head_lock ≡ locked
  unfolding Has
  kept_lock j h = elim (ℕ_discrete i j) [
    | yes e ↦ locks.now (subst Has (is_moved j e) h)
    | no ne ↦
        let was : has_head (pc j) ≡ true = subst Has (others j ne) h in
        locks.kept (inv.lock_set j was) (no_head j ne was)
  ]

  mover_head : (j : ℕ) → i ≢ j → has_head p' ≡ true → has_head (pc j) ≡ true → ⊥
  mover_head j ne h k = elim (locks.of_head h) [
    | inl was ↦ ne (inv.one_head i j was k)
    | inr open_lock ↦ open_lock (inv.lock_set j k)
  ]

  kept_head :
      (j k : ℕ) → has_head (update pc i p' j) ≡ true → has_head (update pc i p' k) ≡ true → j ≡ k
  unfolding Has
  kept_head j k hj hk = elim (ℕ_discrete i j) [
    | yes ej ↦ elim (ℕ_discrete i k) [
      | yes ek ↦ sym ej ∙ ek
      | no nk ↦ absurd (mover_head k nk (subst Has (is_moved j ej) hj) (subst Has (others k nk) hk))
    ]
    | no nj ↦ elim (ℕ_discrete i k) [
      | yes ek ↦
          absurd (mover_head j nj (subst Has (is_moved k ek) hk) (subst Has (others j nj) hj))
      | no nk ↦ inv.one_head j k (subst Has (others j nj) hj) (subst Has (others k nk) hk)
    ]
  ]

  -- A thread that has the slot of entry `a`.
  Holds : ℕ → Pc → Type 0
  Holds a p = Entry a p × (in_slot p ≡ true)

  kept_slot :
      (j a : ℕ)
      → Entry a (update pc i p' j)
      → in_slot (update pc i p' j) ≡ true
      → m'.pos_locks (a % 2 ^ log) ≢ 0
  unfolding Holds
  kept_slot j a h k = elim (ℕ_discrete i j) [
    | yes e ↦ let (h', k') = subst (Holds a) (is_moved j e) (h, k) in slots.now a h' k'
    | no ne ↦
        let (h', k') = subst (Holds a) (others j ne) (h, k) in
        slots.kept (a % 2 ^ log) (inv.slot_set j a h' k')
          (λ b eb ib same. ne (inv.one_slot i j b a eb h' ib k' same))
  ]

  mover_slot : (j a b : ℕ) → i ≢ j → Holds a p' → Holds b (pc j) → a % 2 ^ log ≡ b % 2 ^ log → ⊥
  unfolding Holds
  mover_slot j a b ne h k same = elim (slots.of_slot a h.0 h.1) [
    | inl was ↦ ne (inv.one_slot i j a b was.0 k.0 was.1 k.1 same)
    | inr free ↦ inv.slot_set j b k.0 k.1 (ap m.pos_locks (sym same) ∙ free)
  ]

  kept_slots :
      (j k a b : ℕ)
      → Entry a (update pc i p' j)
      → Entry b (update pc i p' k)
      → in_slot (update pc i p' j) ≡ true
      → in_slot (update pc i p' k) ≡ true
      → a % 2 ^ log ≡ b % 2 ^ log
      → j ≡ k
  unfolding Holds
  kept_slots j k a b ea eb ia ib same = elim (ℕ_discrete i j) [
    | yes ej ↦ elim (ℕ_discrete i k) [
      | yes ek ↦ sym ej ∙ ek
      | no nk ↦ absurd (
          mover_slot k a b nk (subst (Holds a) (is_moved j ej) (ea, ia))
            (subst (Holds b) (others k nk) (eb, ib)) same)
    ]
    | no nj ↦ elim (ℕ_discrete i k) [
      | yes ek ↦ absurd (
          mover_slot j b a nj (subst (Holds b) (is_moved k ek) (eb, ib))
            (subst (Holds a) (others j nj) (ea, ia)) (sym same))
      | no nk ↦
          let (ea', ia') = subst (Holds a) (others j nj) (ea, ia) in
          let (eb', ib') = subst (Holds b) (others k nk) (eb, ib) in
          inv.one_slot j k a b ea' eb' ia' ib' same
    ]
  ]

  pub Move-Inv : Inv log m' (update pc i p')
  Move-Inv = record {
    head-le = order.head-le;
    rung-le = order.rung-le;
    front-le = order.front-le;
    room = order.room;
    doorbell = order.doorbell;
    of_mark = marks.of_mark;
    has_mark = marks.has_mark;
    passed_marked = marks.passed_marked;
    marked_found = marks.marked_found;
    found_posted = marks.found_posted;
    nums = kept-Nums;
    is_found = kept_found;
    is_marked = kept_marked;
    distinct = kept_distinct;
    lock_bit = order.lock_bit;
    lock_set = kept_lock;
    one_head = kept_head;
    at_rest = locks.rest;
    slot_set = kept_slot;
    one_slot = kept_slots;
  }
