-- ===== src/ParallelQueue/Invariant/Frame.antt =====
-- What a step must leave alone for a thread that does not move.
use native.Mathlib.Nat.{div-add-mod'}
use generic_asynchronous_io.Prelude.{
  ℕ, ◌/◌, ◌%◌, ◌≤◌, ◌≡◌, true, ◌⊎◌, inl, inr, subst, some, refl, arith, ◌∙◌, sym,
}
use generic_asynchronous_io.ParallelQueue.{
  Shared, Pc, outside, waiting, waiting_again, copying, marking, testing, peeking, grabbing,
  holding, scanning, taking, moved, ringing, storing, releasing, finishing,
}
use generic_asynchronous_io.ParallelQueue.Invariant.Defs.{
  ticket, owns_slot, has_marked, has_lock, Ghost, Early, Late, Scan, Local,
}

pub same_ticket : (q t s : ℕ) → t % q ≡ s % q → t / q ≡ s / q → t ≡ s
same_ticket q t s e d = grind (arith, div-add-mod' t q, div-add-mod' s q)

module _ (q : ℕ) (g g' : Ghost) (m m' : Shared) where
  pub record Frame (p : Pc) : Type 0 where
    pub same_post : (t : ℕ) → ticket p ≡ some t → m'.posted t ≡ m.posted t
    pub early : (t : ℕ) → ticket p ≡ some t → Early q g m t → Early q g' m' t
    pub late : (t : ℕ) → ticket p ≡ some t → Late q g m t → Late q g' m' t
    pub same_entry :
        (t : ℕ) → ticket p ≡ some t → Early q g m t → m'.entries (t % q) ≡ m.entries (t % q)
    pub under_lock :
        has_lock p ≡ true
        → (m'.tail ≡ m.tail) × (g'.scanned ≡ g.scanned) × (g'.rung ≡ g.rung) × (m.head ≤ m'.head)

module _ {q : ℕ} {g g' : Ghost} {m m' : Shared} where
  Frame-Scan :
      (p : Pc) (t cur c : ℕ)
      → Frame q g g' m m' p
      → ticket p ≡ some t
      → has_lock p ≡ true
      → Scan q g m t cur c
      → Scan q g' m' t cur c
  Frame-Scan p t cur c f h k s = record {
    at = f.late t h s.at;
    loaded = s.loaded ∙ sym (f.under_lock k).0;
    counted = (f.under_lock k).1 ∙ s.counted;
  }

  pub Frame-Local : (p : Pc) → Frame q g g' m m' p → Local q g m p → Local q g' m' p
  Frame-Local outside f l = tt
  Frame-Local (waiting t cmd) f l = f.same_post t refl ∙ l
  Frame-Local (waiting_again t cmd) f l = f.same_post t refl ∙ l
  Frame-Local (copying t cmd) f l = (f.early t refl l.0, f.same_post t refl ∙ l.1)
  Frame-Local (marking t) f l =
      (f.early t refl l.0, f.same_entry t refl l.0 ∙ l.1 ∙ sym (f.same_post t refl))
  Frame-Local (testing t) f l = f.late t refl l
  Frame-Local (peeking t) f l = f.late t refl l
  Frame-Local (grabbing t) f l = f.late t refl l
  Frame-Local (finishing t) f l = f.late t refl l
  Frame-Local (holding t) f l = (f.late t refl l.0, omega (arith, f.under_lock refl, l.1))
  Frame-Local (releasing t) f l = (f.late t refl l.0, omega (arith, f.under_lock refl, l.1))
  Frame-Local (scanning t cur c) f l = Frame-Scan (scanning t cur c) t cur c f refl refl l
  Frame-Local (moved t cur c) f l = Frame-Scan (moved t cur c) t cur c f refl refl l
  Frame-Local (ringing t cur c) f l = Frame-Scan (ringing t cur c) t cur c f refl refl l
  Frame-Local (taking t cur c) f l =
      (Frame-Scan (taking t cur c) t cur c f refl refl l.0, omega (arith, f.under_lock refl, l.1))
  Frame-Local (storing t cur c) f l =
      (Frame-Scan (storing t cur c) t cur c f refl refl l.0, omega (arith, f.under_lock refl, l.1))

pub some_inj : (s t : ℕ) → some s ≡ some t → s ≡ t
some_inj s t e = cc

module _ {q : ℕ} {g : Ghost} {m : Shared} where
  Late-at : (s t : ℕ) → some s ≡ some t → Late q g m s → Late q g m t
  Late-at s t e l = rw (sym (some_inj s t e)) l

  pub marked-Late :
      (p : Pc) (t : ℕ) → Local q g m p → has_marked p ≡ true → ticket p ≡ some t → Late q g m t
  marked-Late outside t l h e = cc h
  marked-Late (waiting s cmd) t l h e = cc h
  marked-Late (waiting_again s cmd) t l h e = cc h
  marked-Late (copying s cmd) t l h e = cc h
  marked-Late (marking s) t l h e = cc h
  marked-Late (testing s) t l h e = Late-at s t e l
  marked-Late (peeking s) t l h e = Late-at s t e l
  marked-Late (grabbing s) t l h e = Late-at s t e l
  marked-Late (finishing s) t l h e = Late-at s t e l
  marked-Late (holding s) t l h e = Late-at s t e l.0
  marked-Late (releasing s) t l h e = Late-at s t e l.0
  marked-Late (scanning s cur c) t l h e = Late-at s t e l.at
  marked-Late (moved s cur c) t l h e = Late-at s t e l.at
  marked-Late (ringing s cur c) t l h e = Late-at s t e l.at
  marked-Late (taking s cur c) t l h e = Late-at s t e l.0.at
  marked-Late (storing s cur c) t l h e = Late-at s t e l.0.at

  -- It is the turn of a thread that owns its slot.
  pub owner_turn :
      (p : Pc) (t : ℕ)
      → Local q g m p
      → owns_slot p ≡ true
      → ticket p ≡ some t
      → (g.ended (t % q) ≡ t / q) × ((Early q g m t) ⊎ (Late q g m t))
  owner_turn outside t l h e = cc h
  owner_turn (waiting s cmd) t l h e = cc h
  owner_turn (waiting_again s cmd) t l h e = cc h
  owner_turn (copying s cmd) t l h e =
      let early = subst (Early q g m) (some_inj s t e) l.0 in (early.turn, inl early)
  owner_turn (marking s) t l h e =
      let early = subst (Early q g m) (some_inj s t e) l.0 in (early.turn, inl early)
  owner_turn p t l h e = let late = marked-Late p t l refl e in (late.turn, inr late)
