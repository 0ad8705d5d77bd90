-- ===== src/CommandIds/Held.antt =====
-- A command id is marked exactly while one call holds it.
use generic_asynchronous_io.Prelude.{
  ℕ, ◌≤◌, ◌≡◌, ◌≢◌, ◌⊎◌, inl, inr, refl, arith, sym, ap, ◌∙◌, subst, ℕ_discrete, update,
  update_self, update_ne, bit_or, bit_or-one,
}
use generic_asynchronous_io.CommandIds.{
  Ids, locked, unlocked, Pc, outside, drawing, trying, holding, Move, enter, draw, lost, won, put,
  System, step, Reach, start, later, initial, put_cid, grabbed,
}

-- The id that a call holds is `id`.
abbrev pub HasId : ℕ → Pc → Type 0
HasId id (holding k) = k ≡ id
HasId id outside = ⊥
HasId id drawing = ⊥
HasId id (trying _) = ⊥

record Inv (m : Ids) (pc : ℕ → Pc) : Type 0 where
  bits : (id : ℕ) → m.cid id ≤ 1
  marked : (id i : ℕ) → HasId id (pc i) → m.cid id ≡ locked
  holder : (id : ℕ) → m.cid id ≡ locked → (i : ℕ) × HasId id (pc i)
  unique : (id i j : ℕ) → HasId id (pc i) → HasId id (pc j) → i ≡ j

pub grabbed_locked : (x : ℕ) → x ≤ 1 → bit_or x locked ≡ 1
grabbed_locked x h = omega (arith, bit_or-one x)

module _ {m : Ids} {pc : ℕ → Pc} (inv : Inv m pc) (i : ℕ) where
  -- What is known of call `j` after call `i` has come to `p`.
  holds_now :
      (p : Pc) (k j : ℕ)
      → HasId k (update pc i p j)
      → ((i ≡ j) × HasId k p) ⊎ ((i ≢ j) × HasId k (pc j))
  holds_now p k j h = elim (ℕ_discrete i j) [
    | yes e ↦ inl (e, subst (HasId k) (ap (update pc i p) (sym e) ∙ update_self pc i p) h)
    | no ne ↦ inr (ne, subst (HasId k) (update_ne pc i j p ne) h)
  ]

  holds_still : (p : Pc) (k j : ℕ) → i ≢ j → HasId k (pc j) → HasId k (update pc i p j)
  holds_still p k j ne h = subst (HasId k) (sym (update_ne pc i j p ne)) h

  -- The call holds nothing before and after, and the marks stay.
  idle-Inv :
      (p : Pc) (m' : Ids)
      → ((k : ℕ) → HasId k (pc i) → ⊥)
      → ((k : ℕ) → HasId k p → ⊥)
      → ((k : ℕ) → m'.cid k ≡ m.cid k)
      → Inv m' (update pc i p)
  idle-Inv p m' before after same = record {
    bits = λ k. omega (arith, same k, inv.bits k);
    marked = λ k j h. elim (holds_now p k j h) [
      | inl (_, x) ↦ absurd (after k x)
      | inr (_, x) ↦ same k ∙ inv.marked k j x
    ];
    holder = λ k e.
        let (j, h) = inv.holder k (sym (same k) ∙ e) in
        (j, holds_still p k j (λ eq. before k (subst (λ t. HasId k (pc t)) (sym eq) h)) h);
    unique = λ k a b ha hb. elim (holds_now p k a ha) [
      | inl (_, x) ↦ absurd (after k x)
      | inr (_, x) ↦ elim (holds_now p k b hb) [
        | inl (_, y) ↦ absurd (after k y)
        | inr (_, y) ↦ inv.unique k a b x y
      ]
    ];
  }

  -- The call takes the id `id`, which was free.
  taken-Inv :
      (id : ℕ) (m' : Ids)
      → ((k : ℕ) → HasId k (pc i) → ⊥)
      → m.cid id ≢ locked
      → m'.cid id ≡ locked
      → ((k : ℕ) → id ≢ k → m'.cid k ≡ m.cid k)
      → Inv m' (update pc i (holding id))
  taken-Inv id m' before free mark same = record {
    bits = λ k. elim (ℕ_discrete id k) [
      | yes e ↦ omega (arith, ap (λ t. m'.cid t) e, mark)
      | no ne ↦ omega (arith, same k ne, inv.bits k)
    ];
    marked = λ k j h. elim (holds_now (holding id) k j h) [
      | inl (_, x) ↦ ap (λ t. m'.cid t) (sym x) ∙ mark
      | inr (_, x) ↦ same k (λ e. others k j x e) ∙ inv.marked k j x
    ];
    holder = λ k e. elim (ℕ_discrete id k) [
      | yes eq ↦ (i, subst (HasId k) (sym (update_self pc i (holding id))) eq)
      | no ne ↦
          let (j, h) = inv.holder k (sym (same k ne) ∙ e) in
          (
            j,
            holds_still (holding id) k j (λ eq. before k (subst (λ t. HasId k (pc t)) (sym eq) h))
                h,
          )
    ];
    unique = λ k a b ha hb. elim (holds_now (holding id) k a ha) [
      | inl (e, x) ↦ elim (holds_now (holding id) k b hb) [
        | inl (f, y) ↦ sym e ∙ f
        | inr (_, y) ↦ absurd (others k b y x)
      ]
      | inr (_, x) ↦ elim (holds_now (holding id) k b hb) [
        | inl (_, y) ↦ absurd (others k a x y)
        | inr (_, y) ↦ inv.unique k a b x y
      ]
    ];
  }
    where
      others : (k j : ℕ) → HasId k (pc j) → id ≢ k
      others k j h e = free (ap (λ t. m.cid t) e ∙ inv.marked k j h)

  -- The call gives the id `id` back.
  put-Inv :
      (id : ℕ) (m' : Ids)
      → HasId id (pc i)
      → ((k : ℕ) → HasId k (pc i) → id ≡ k)
      → m'.cid id ≡ unlocked
      → ((k : ℕ) → id ≢ k → m'.cid k ≡ m.cid k)
      → Inv m' (update pc i outside)
  put-Inv id m' had only mark same = record {
    bits = λ k. elim (ℕ_discrete id k) [
      | yes e ↦ omega (arith, ap (λ t. m'.cid t) e, mark)
      | no ne ↦ omega (arith, same k ne, inv.bits k)
    ];
    marked = λ k j h. elim (holds_now outside k j h) [
      | inl (_, x) ↦ absurd x
      | inr (ne, x) ↦
          same k (λ e. ne (inv.unique k i j (subst (λ t. HasId t (pc i)) e had) x))
          ∙ inv.marked k j x
    ];
    holder = λ k e.
        let ne : id ≢ k = λ eq. omega (arith, ap (λ t. m'.cid t) eq, mark, e) in
        let (j, h) = inv.holder k (sym (same k ne) ∙ e) in
        (j, holds_still outside k j (λ eq. ne (only k (subst (λ t. HasId k (pc t)) (sym eq) h))) h);
    unique = λ k a b ha hb. elim (holds_now outside k a ha) [
      | inl (_, x) ↦ absurd x
      | inr (_, x) ↦ elim (holds_now outside k b hb) [
        | inl (_, y) ↦ absurd y
        | inr (_, y) ↦ inv.unique k a b x y
      ]
    ];
  }

-- What `fetch_or` does to the marks.
module _ (m : Ids) (bits : (k : ℕ) → m.cid k ≤ 1) (id : ℕ) where
  pub grabbed_at : (grabbed id m).cid id ≡ locked
  grabbed_at = update_self m.cid id _ ∙ grabbed_locked (m.cid id) (bits id)

  pub grabbed_same : m.cid id ≡ locked → (k : ℕ) → (grabbed id m).cid k ≡ m.cid k
  grabbed_same e k = elim (ℕ_discrete id k) [
    | yes eq ↦ ap (grabbed id m).cid (sym eq) ∙ grabbed_at ∙ sym e ∙ ap m.cid eq
    | no ne ↦ update_ne m.cid id k _ ne
  ]

Move-Inv :
    {m m' : Ids} {pc : ℕ → Pc} {p p' : Pc} (i : ℕ)
    → Inv m pc
    → pc i ≡ p
    → Move m p m' p'
    → Inv m' (update pc i p')
unfolding put_cid
Move-Inv {m} {pc = pc} i inv at enter =
    idle-Inv inv i drawing m (λ k h. subst (HasId k) at h) (λ k h. h) (λ k. refl)
Move-Inv {m} {m'} {pc} {p' = p'} i inv at draw =
    idle-Inv inv i p' m' (λ k h. subst (HasId k) at h) (λ k h. h) (λ k. refl)
Move-Inv {m} {m'} {pc} i inv at (lost {id} e) =
    idle-Inv inv i drawing m' (λ k h. subst (HasId k) at h) (λ k h. h)
      (grabbed_same m inv.bits id e)
Move-Inv {m} {m'} {pc} i inv at (won {id} ne) =
    taken-Inv inv i id m' (λ k h. subst (HasId k) at h) ne (grabbed_at m inv.bits id)
      (λ k. update_ne m.cid id k _)
Move-Inv {m} {m'} {pc} i inv at (put {id}) =
    put-Inv inv i id m' (subst (HasId id) (sym at) refl) (λ k h. subst (HasId k) at h)
      (update_self m.cid id _) (λ k. update_ne m.cid id k _)

initial-Inv : Inv initial.ids initial.pc
initial-Inv = record {
  bits = λ k. omega arith;
  marked = λ k i h. absurd h;
  holder = λ k e. absurd (omega (arith, e));
  unique = λ k i j h _. absurd h;
}

Reach-Inv : {s : System} → Reach s → Inv s.ids s.pc
Reach-Inv start = initial-Inv
Reach-Inv (later r (step i mv)) = Move-Inv i (Reach-Inv r) refl mv

pub Reach-bits : {s : System} → Reach s → (id : ℕ) → s.ids.cid id ≤ 1
Reach-bits r = (Reach-Inv r).bits

-- In every state that any number of calls can reach, whatever the order of their steps: an id that
-- one call holds is held by no other call.
pub held_unique :
    {s : System} (id i j : ℕ) → Reach s → i ≢ j → HasId id (s.pc i) → ¬ HasId id (s.pc j)
held_unique {s} id i j r ne hi hj = ne ((Reach-Inv r).unique id i j hi hj)

-- In every state that any number of calls can reach, whatever the order of their steps: an id is
-- either marked `LOCKED` and held by a call, or marked `UNLOCKED` and held by none.
pub held_marks :
    {s : System} (id : ℕ)
    → Reach s
    → ((s.ids.cid id ≡ locked) × (i : ℕ) × HasId id (s.pc i))
      ⊎ ((s.ids.cid id ≡ unlocked) × ((i : ℕ) → ¬ HasId id (s.pc i)))
held_marks {s} id r =
    let inv = Reach-Inv r in
    elim (ℕ_discrete (s.ids.cid id) locked) [
      | yes e ↦ let (i, h) = inv.holder id e in inl (e, i, h)
      | no ne ↦ inr (omega (arith, inv.bits id, ne), λ i h. ne (inv.marked id i h))
    ]
