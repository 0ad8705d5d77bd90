-- ===== src/CommandIds/Returns.antt =====
-- `get_cid` finds an id that is free.
use generic_asynchronous_io.Prelude.{
  ℕ, zero, suc, ◌+◌, ◌-◌, ◌%◌, ◌^◌, ◌≤◌, ◌<◌, ◌≡◌, ◌≢◌, inl, inr, arith, sym, ap, ◌∙◌, some, ◌==◌,
  ==_iff, if_true, if_false, Bool-cases, bit_and_ones, ℕ_discrete, update, update_self, update_ne,
}
use generic_asynchronous_io.CommandIds.{
  Ids, locked, unlocked, Pc, drawing, holding, Move, draw, lost, won, get_cid, put_cid, drawn,
  next_id, grabbed, System, Reach,
}
use generic_asynchronous_io.CommandIds.Held.{grabbed_at, grabbed_same, Reach-bits}

-- A call by itself, without a step of another.
pub data Runs : Ids → Pc → Ids → Pc → Type 0 where
  here : {m : Ids} {p : Pc} → Runs m p m p
  onward : {m m1 m2 : Ids} {p p1 p2 : Pc} → Move m p m1 p1 → Runs m1 p1 m2 p2 → Runs m p m2 p2

-- A call that has got `id`, between the fields `m` and `m'`.
pub record Got (m : Ids) (id : ℕ) (m' : Ids) : Type 0 where
  pub small : id < 2 ^ 16
  pub was_free : m.cid id ≡ unlocked
  pub now_held : m'.cid id ≡ locked
  pub others : (k : ℕ) → id ≢ k → m'.cid k ≡ m.cid k
  pub steps : Runs m drawing m' (holding id)

next_id_lem : (m : Ids) → next_id m ≡ m.cid_ticket % 2 ^ 16
next_id_lem m = bit_and_ones 16 m.cid_ticket

-- How many ids the ticket is before `u`.
abbrev ahead : ℕ → ℕ → ℕ
ahead u t = (u + 2 ^ 16 - t % 2 ^ 16) % 2 ^ 16

module _ (m : Ids) (bits : (k : ℕ) → m.cid k ≤ 1) where
  -- The fields after one round.
  abbrev round : Ids
  round = grabbed (next_id m) (drawn m)

  round-Got : m.cid (next_id m) ≢ locked → Got m (next_id m) round
  round-Got free = record {
    small = omega (arith, next_id_lem m);
    was_free = omega (arith, bits (next_id m), free);
    now_held = grabbed_at (drawn m) bits (next_id m);
    others = λ k. update_ne m.cid (next_id m) k _;
    steps = onward draw (onward (won free) here);
  }

  module _ (taken : m.cid (next_id m) ≡ locked) where
    round_same : (k : ℕ) → round.cid k ≡ m.cid k
    round_same = grabbed_same (drawn m) bits (next_id m) taken

    rest-Got : (id : ℕ) (m' : Ids) → Got round id m' → Got m id m'
    rest-Got id m' g = record {
      small = g.small;
      was_free = sym (round_same id) ∙ g.was_free;
      now_held = g.now_held;
      others = λ k ne. g.others k ne ∙ round_same k;
      steps = onward draw (onward (lost taken) g.steps);
    }

    nearer :
        (u fuel : ℕ)
        → u < 2 ^ 16
        → m.cid u ≡ unlocked
        → ahead u m.cid_ticket < suc fuel
        → ahead u round.cid_ticket < fuel
    nearer u fuel small free near =
        let ne : m.cid_ticket % 2 ^ 16 ≢ u =
          λ e. omega (arith, taken, free, ap m.cid (next_id_lem m ∙ e)) in
        omega (arith, ne, near, small)

search_lem :
    (fuel : ℕ) (m : Ids) (u : ℕ)
    → ((k : ℕ) → m.cid k ≤ 1)
    → u < 2 ^ 16
    → m.cid u ≡ unlocked
    → ahead u m.cid_ticket < fuel
    → (id : ℕ) × (m' : Ids) × (get_cid fuel m ≡ some (id, m')) × Got m id m'
unfolding get_cid
search_lem zero m u bits small free near = absurd (omega (arith, near))
search_lem (suc fuel) m u bits small free near = elim (Bool-cases (m.cid (next_id m) == locked)) [
  | inl e ↦
      let taken : m.cid (next_id m) ≡ locked = (==_iff (m.cid (next_id m)) locked).0 e in
      let same = round_same m bits taken in
      let (id, m', eq, g) =
        search_lem fuel (round m bits) u (λ k. omega (arith, same k, bits k)) small (same u ∙ free)
          (nearer m bits taken u fuel small free near) in
      (id, m', if_true _ _ e ∙ eq, rest-Got m bits taken id m' g)
  | inr e ↦ (next_id m, round m bits, if_false _ _ e, round-Got m bits (λ t. ground (arith, t, e)))
]

-- In every reachable state in which an id below 2^16 is marked `UNLOCKED`: while no other thread moves, `get_cid` returns
-- within 2^16 rounds of its loop, by steps of its own. The id that it returns is below 2^16 and was
-- `UNLOCKED`, it is `LOCKED` then, every other mark is as before, and `put_cid` of it restores every mark.
pub get_cid_lem :
    {s : System} (fuel u : ℕ)
    → Reach s
    → u < 2 ^ 16
    → s.ids.cid u ≡ unlocked
    → 2 ^ 16 ≤ fuel
    → (id : ℕ) × (m' : Ids) × (get_cid fuel s.ids ≡ some (id, m'))
      × Got s.ids id m'
      × ((k : ℕ) → (put_cid id m').cid k ≡ s.ids.cid k)
unfolding put_cid
get_cid_lem {s} fuel u r small free enough =
    let (id, m', eq, g) = search_lem fuel s.ids u (Reach-bits r) small free (omega arith) in
    (
      id,
      m',
      eq,
      g,
      λ k. elim (ℕ_discrete id k) [
        | yes same ↦
            ap (update m'.cid id unlocked) (sym same)
            ∙ update_self m'.cid id unlocked
            ∙ sym g.was_free
            ∙ ap s.ids.cid same
        | no ne ↦ update_ne m'.cid id k unlocked ne ∙ g.others k ne
      ],
    )
