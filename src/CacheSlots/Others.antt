-- ===== src/CacheSlots/Others.antt =====
-- What a thread that relies on a page, or stores its slot, excludes of the others.
use generic_asynchronous_io.Prelude.{
  ℕ, ◌≡◌, ◌⊎◌, inl, inr, refl, arith, ap, sym, subst, ◌∙◌, Bool, true, false, ◌==◌, if◌then◌else◌,
  ℕ_discrete, update, update_self, update_ne,
}
use generic_asynchronous_io.PageState
use generic_asynchronous_io.PageState.{Page, st, v_nb}
use generic_asynchronous_io.PageState.Owners.{owned, harmless}
use generic_asynchronous_io.CacheSlots.{
  Cache, Find, ousting, Pc, on, finding, with_page, Search, Oust, used, go_on, fail, oust, Move,
  turn, access, call, search, evict, settle, draw, see, drawing, acquires,
}
use generic_asynchronous_io.CacheSlots.Seen.{Apart, seen_from, from_self, from_other}
use generic_asynchronous_io.CacheSlots.Claims.{AtSlot, Stored, Hitting, Uses, Hits, Stores}
use generic_asynchronous_io.CacheSlots.PageStep.{PageStep, Evict-offset}
use generic_asynchronous_io.CacheSlots.Locks.{Writes}

Hitting-harmful : (x : PageState.Pc) → Hitting x → harmless x ≡ false
Hitting-harmful (PageState.looking n w r) h = ground (arith, h)
Hitting-harmful (PageState.dirtying _) h = refl
Hitting-harmful (PageState.hit _) h = refl
Hitting-harmful PageState.outside h = absurd h
Hitting-harmful (PageState.reloading _ _) h = absurd h
Hitting-harmful (PageState.claiming _ _) h = absurd h
Hitting-harmful PageState.evicting h = absurd h
Hitting-harmful x h = refl

AtSlot-harmful : (x : PageState.Pc) (s : ℕ) → AtSlot x s → harmless x ≡ false
AtSlot-harmful (PageState.looking n w r) s h = absurd h
AtSlot-harmful PageState.outside s h = absurd h
AtSlot-harmful (PageState.reloading _ _) s h = absurd h
AtSlot-harmful (PageState.claiming _ _) s h = absurd h
AtSlot-harmful PageState.evicting s h = absurd h
AtSlot-harmful x s h = refl

Stored-owned : (x : PageState.Pc) (s : ℕ) → Stored x s → owned x ≡ 1
Stored-owned (PageState.loaded _ _ _) s h = refl
Stored-owned (PageState.flipping _ _) s h = refl
Stored-owned PageState.outside s h = absurd h
Stored-owned x s h = absurd h

-- A thread on page `p` is seen from `p` where it is.
seen_here : (q p : ℕ) (x : PageState.Pc) → q ≡ p → seen_from p (on q x) ≡ x
seen_here q p x e =
    ap (λ t. if t == p then x else PageState.outside) e ∙ from_self p x PageState.outside

pub seen_loading :
    (q p n : ℕ) (w : Bool) (f : Find)
    → q ≡ p
    → seen_from p (finding q n w f) ≡ PageState.loading n w
seen_loading q p n w f e =
    subst (λ t. seen_from t (finding q n w f) ≡ PageState.loading n w) e
      (from_self q (PageState.loading n w) _)

pub Hits-harmful : (p : ℕ) (x : Pc) → Hits p x → harmless (seen_from p x) ≡ false
Hits-harmful p (on q x) h = ap harmless (seen_here q p x h.0) ∙ Hitting-harmful x h.1
Hits-harmful p (finding _ _ _ _) h = absurd h

pub Uses-harmful : (p s : ℕ) (x : Pc) → Uses p s x → harmless (seen_from p x) ≡ false
Uses-harmful p s (on q x) h = ap harmless (seen_here q p x h.0) ∙ AtSlot-harmful x s h.1
Uses-harmful p s (finding q n w f) h = ap harmless (seen_loading q p n w f h.0)

pub Stores-owned : (p s : ℕ) (x : Pc) → Stores p s x → owned (seen_from p x) ≡ 1
Stores-owned p s (on q x) h = ap owned (seen_here q p x h.0) ∙ Stored-owned x s h.1
Stores-owned p s (finding _ _ _ _) h = absurd h

pub Writes-writing : (s p : ℕ) (x : Pc) → Writes s p x → Apart x → seen_from p x ≡ PageState.writing
Writes-writing s p (finding q n w (ousting t v e)) h apart =
    from_other q p _ _ (λ same.
      let clash : PageState.writing ≡ PageState.outside = sym h.2 ∙ apart (h.1 ∙ sym same) in
      cc clash)
    ∙ ap (λ k. if k == p then e else PageState.outside) h.1
    ∙ from_self p e PageState.outside
    ∙ h.2
Writes-writing s p (finding q n w drawing) h apart = absurd h
Writes-writing s p (on q x) h apart = absurd h
Writes-writing s p x h apart = absurd h

-- The thread is in `find_slot` for page `p`.
abbrev pub Loads : ℕ → Pc → Type 0
Loads p (finding q _ _ _) = q ≡ p
Loads p (on _ _) = ⊥

pub Loads-owned : (p : ℕ) (x : Pc) → Loads p x → owned (seen_from p x) ≡ 1
Loads-owned p (finding q n w f) h = ap owned (seen_loading q p n w f h)
Loads-owned p (on _ _) h = absurd h

-- What one step does to `offset`.
pub record OffsetStep (m : Cache) (x : Pc) (m' : Cache) (x' : Pc) : Type 0 where
  pub kept : (p : ℕ) → (Loads p x → ⊥) → (m'.pages p).offset ≡ (m.pages p).offset
  pub now :
      (p s : ℕ)
      → Stores p s x'
      → ((m'.pages p).offset ≡ s) ⊎ (Stores p s x × ((m'.pages p).offset ≡ (m.pages p).offset))

Search-OffsetStep :
    {n_pages : ℕ} {m : Cache} {q : ℕ} {m' : Cache} {f f' : Find} (n : ℕ) (w : Bool)
    → Search n_pages m q f m' f'
    → OffsetStep m (finding q n w f) m' (finding q n w f')
Search-OffsetStep n w draw = record { kept = λ p _. refl; now = λ p s h. absurd h }
Search-OffsetStep n w (see _) = record { kept = λ p _. refl; now = λ p s h. absurd h }
Search-OffsetStep n w sr = record { kept = λ p _. refl; now = λ p s h. absurd h }

module _ (m : Cache) (q : ℕ) (a : Page) where
  changed : (p : ℕ) → q ≡ p → (with_page m q a).pages p ≡ a
  changed p e = ap (update m.pages q a) (sym e) ∙ update_self m.pages q a

  same_offset :
      a.offset ≡ (m.pages q).offset
      → (p : ℕ) → ((with_page m q a).pages p).offset ≡ (m.pages p).offset
  same_offset e p = elim (ℕ_discrete q p) [
    | yes eq ↦ ap (λ t. t.offset) (changed p eq) ∙ e ∙ ap (λ t. (m.pages t).offset) eq
    | no ne ↦ ap (λ t. t.offset) (update_ne m.pages q p a ne)
  ]

Oust-OffsetStep :
    {m m' : Cache} {f f' : Find} (q n : ℕ) (w : Bool)
    → Oust m f m' f'
    → OffsetStep m (finding q n w f) m' (finding q n w f')
Oust-OffsetStep q n w (used _) = record { kept = λ p _. refl; now = λ p s h. absurd h }
Oust-OffsetStep {m} q n w (go_on {p = v} ev _) = record {
  kept = λ p _. same_offset m v _ (Evict-offset ev) p;
  now = λ p s h. absurd h;
}
Oust-OffsetStep {m} q n w (fail {p = v} ev _) = record {
  kept = λ p _. same_offset m v _ (Evict-offset ev) p;
  now = λ p s h. absurd h;
}
Oust-OffsetStep {m} q n w (oust {p = v} ev _) = record {
  kept = λ p _. same_offset m v _ (Evict-offset ev) p;
  now = λ p s h. absurd h;
}

pub Move-OffsetStep :
    {n_pages : ℕ} {m : Cache} {x : Pc} {m' : Cache} {x' : Pc}
    → Move n_pages m x m' x'
    → ((q : ℕ) (y y' : PageState.Pc) (a : Page)
        → x ≡ on q y
        → PageState.Move (m.pages q) y a y'
        → acquires y y' ≡ true
        → PageStep (m.pages q) y a y')
    → OffsetStep m x m' x'
Move-OffsetStep turn steps = record { kept = λ p _. refl; now = λ p s h. absurd (h.1) }
Move-OffsetStep {m = m} (access {page = q} {x} {x'} {q = a} mv ok) steps =
    let k = steps q x x' a refl mv ok in
    record {
      kept = λ p _. same_offset m q a k.same_offset p;
      now = λ p s h. inr ((h.0, k.stored_before s h.1), same_offset m q a k.same_offset p);
    }
Move-OffsetStep call steps = record { kept = λ p _. refl; now = λ p s h. absurd h }
Move-OffsetStep (search {n = n} {w} sr) steps = Search-OffsetStep n w sr
Move-OffsetStep (evict {page = q} {n} {w} o) steps = Oust-OffsetStep q n w o
Move-OffsetStep {m = m} (settle {page = q} {n} {s = t} {w}) steps = record {
  kept = λ p not_mine. ap (λ k. k.offset) (update_ne m.pages q p _ not_mine);
  now = λ p s h. inl (ap (λ k. k.offset) (changed m q _ p h.0) ∙ h.1);
}
