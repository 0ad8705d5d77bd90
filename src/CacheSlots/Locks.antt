-- ===== src/CacheSlots/Locks.antt =====
-- What one step does to the locks and the translations of the slots.
use generic_asynchronous_io.Prelude.{
  ℕ, ◌≡◌, ◌≢◌, ◌⊎◌, inl, inr, refl, arith, ap, sym, subst, ◌∙◌, Bool, ℕ_discrete, update,
  update_self, update_ne,
}
use generic_asynchronous_io.PageState
use generic_asynchronous_io.CacheSlots.{
  Cache, Find, ousting, Pc, finding, locked, unlocked, free, with_lock, Search, Oust, used, go_on,
  fail, oust, Move, turn, access, call, search, evict, settle, draw, see, see_locked, lock_lost,
  lock_free, lock_taken, peek, assign, unlock_found, unlock_failed,
}
use generic_asynchronous_io.CacheSlots.Claims.{IsValid, Locks, Takes, Ousts}
use generic_asynchronous_io.CacheSlots.PageStep.{Evict-invalid}

-- The thread has set `BUSY` of page `p`, to give its slot `s` to another.
abbrev pub Writes : ℕ → ℕ → Pc → Type 0
Writes s p (finding _ _ _ (ousting t v e)) = (t ≡ s) × (v ≡ p) × (e ≡ PageState.writing)
Writes s p _ = ⊥

pub record LockStep (m : Cache) (x : Pc) (m' : Cache) (x' : Pc) : Type 0 where
  pub of_lock : (s : ℕ) → Locks s x' → Locks s x ⊎ (m.page_take_lock s ≢ locked)
  pub marked : (s : ℕ) → Locks s x' → m'.page_take_lock s ≡ locked
  pub kept : (s : ℕ) → m.page_take_lock s ≡ locked → (Locks s x → ⊥) → m'.page_take_lock s ≡ locked
  pub in_use : (s : ℕ) → m.page_take_lock s ≢ free → m'.page_take_lock s ≢ free
  pub of_victim : (s p : ℕ) → Ousts s p x' → Ousts s p x ⊎ (m'.page_translation s ≡ p)
  pub same : (s : ℕ) → (Takes s x → ⊥) → m'.page_translation s ≡ m.page_translation s
  pub of_take :
      (s : ℕ)
      → Takes s x'
      → (m.page_take_lock s ≡ free) ⊎ ((p : ℕ) × Writes s p x × (IsValid (m'.pages p).state → ⊥))

-- A step that leaves both alone.
quiet :
    (m : Cache) (x : Pc) (m' : Cache) (x' : Pc)
    → m'.page_take_lock ≡ m.page_take_lock
    → m'.page_translation ≡ m.page_translation
    → ((s : ℕ) → Locks s x → m.page_take_lock s ≡ locked)
    → ((s : ℕ) → Locks s x' → Locks s x)
    → ((s p : ℕ) → Ousts s p x' → Ousts s p x ⊎ (m'.page_translation s ≡ p))
    → ((s : ℕ) → Takes s x' → (p : ℕ) × Writes s p x × (IsValid (m'.pages p).state → ⊥))
    → LockStep m x m' x'
quiet m x m' x' locks trans marks less ousts takes = record {
  of_lock = λ s h. inl (less s h);
  marked = λ s h. ap (λ l. l s) locks ∙ marks s (less s h);
  kept = λ s e _. ap (λ l. l s) locks ∙ e;
  in_use = λ s ne e. ne (sym (ap (λ l. l s) locks) ∙ e);
  of_victim = ousts;
  same = λ s _. ap (λ t. t s) trans;
  of_take = λ s h. inr (takes s h);
}

-- The compare-exchange takes the lock of a slot that was not locked.
taken :
    (m : Cache) (x : Pc) (x' : Pc) (t : ℕ)
    → m.page_take_lock t ≢ locked
    → ((s : ℕ) → Locks s x' → t ≡ s)
    → ((s p : ℕ) → Ousts s p x' → ⊥)
    → ((s : ℕ) → Takes s x' → m.page_take_lock s ≡ free)
    → LockStep m x (with_lock m t locked) x'
taken m x x' t open_lock its no_oust takes = record {
  of_lock = λ s h. inr (λ e. open_lock (ap m.page_take_lock (its s h) ∙ e));
  marked = λ s h. at s (its s h);
  kept = λ s e _. elim (ℕ_discrete t s) [
    | yes eq ↦ at s eq
    | no ne ↦ update_ne m.page_take_lock t s locked ne ∙ e
  ];
  in_use = λ s ne e. elim (ℕ_discrete t s) [
    | yes eq ↦ absurd (omega (arith, at s eq, e))
    | no other ↦ ne (sym (update_ne m.page_take_lock t s locked other) ∙ e)
  ];
  of_victim = λ s p h. absurd (no_oust s p h);
  same = λ s _. refl;
  of_take = λ s h. inl (takes s h);
}
  where
    at : (s : ℕ) → t ≡ s → update m.page_take_lock t locked s ≡ locked
    at s eq = ap (update m.page_take_lock t locked) (sym eq) ∙ update_self m.page_take_lock t locked

-- Its holder opens the lock.
opened :
    (m : Cache) (x : Pc) (x' : Pc) (t : ℕ)
    → Locks t x
    → ((s : ℕ) → Locks s x' → ⊥)
    → ((s p : ℕ) → Ousts s p x' → ⊥)
    → ((s : ℕ) → Takes s x' → ⊥)
    → LockStep m x (with_lock m t unlocked) x'
opened m x x' t mine no_lock no_oust no_take = record {
  of_lock = λ s h. absurd (no_lock s h);
  marked = λ s h. absurd (no_lock s h);
  kept = λ s e not_mine. elim (ℕ_discrete t s) [
    | yes eq ↦ absurd (not_mine (subst (λ k. Locks k x) eq mine))
    | no ne ↦ update_ne m.page_take_lock t s unlocked ne ∙ e
  ];
  in_use = λ s ne e. elim (ℕ_discrete t s) [
    | yes eq ↦ absurd (
        omega (
          arith,
          ap (update m.page_take_lock t unlocked) eq,
          update_self m.page_take_lock t unlocked,
          e,
        ))
    | no other ↦ ne (sym (update_ne m.page_take_lock t s unlocked other) ∙ e)
  ];
  of_victim = λ s p h. absurd (no_oust s p h);
  same = λ s _. refl;
  of_take = λ s h. absurd (no_take s h);
}

Search-LockStep :
    {n_pages : ℕ} {m : Cache} {q : ℕ} {m' : Cache} {f f' : Find} (n : ℕ) (w : Bool)
    → Search n_pages m q f m' f'
    → ((s : ℕ) → Locks s (finding q n w f) → m.page_take_lock s ≡ locked)
    → LockStep m (finding q n w f) m' (finding q n w f')
Search-LockStep {m = m} {q} {m'} {f} {f'} n w draw marks =
    quiet m _ m' (finding q n w f') refl refl marks (λ s h. absurd h) (λ s p h. absurd h)
      (λ s h. absurd h)
Search-LockStep {m = m} {q} {m'} {f} {f'} n w (see _) marks =
    quiet m _ m' (finding q n w f') refl refl marks (λ s h. absurd h) (λ s p h. absurd h)
      (λ s h. absurd h)
Search-LockStep {m = m} {q} {m'} {f} {f'} n w (see_locked _) marks =
    quiet m _ m' (finding q n w f') refl refl marks (λ s h. absurd h) (λ s p h. absurd h)
      (λ s h. absurd h)
Search-LockStep {m = m} {q} {m'} {f} {f'} n w lock_lost marks =
    quiet m _ m' (finding q n w f') refl refl marks (λ s h. absurd h) (λ s p h. absurd h)
      (λ s h. absurd h)
Search-LockStep {m = m} {q} {m'} {f} {f'} n w (lock_free {s} {v} at is) marks =
    taken m (finding q n w f) (finding q n w f') s (omega (arith, at, is)) (λ t h. h) (λ t p h. h)
      (λ t e. ap m.page_take_lock (sym e) ∙ at ∙ is)
Search-LockStep {m = m} {q} {m'} {f} {f'} n w (lock_taken {s} {v} at is) marks =
    taken m (finding q n w f) (finding q n w f') s (omega (arith, at, is)) (λ t h. h) (λ t p h. h)
      (λ t e. absurd e)
Search-LockStep {m = m} {q} {m'} {f} {f'} n w (peek {s}) marks =
    quiet m (finding q n w f) m' (finding q n w f') refl refl marks (λ t h. h)
      (λ t p h. inr (ap m.page_translation (sym h.0) ∙ h.1)) (λ t h. absurd h)
Search-LockStep {m = m} {q} {m'} {f} {f'} n w (assign {s}) marks = record {
  of_lock = λ t h. inl h;
  marked = marks;
  kept = λ t e _. e;
  in_use = λ t ne. ne;
  of_victim = λ t p h. absurd h;
  same = λ t no_take. update_ne m.page_translation s t q no_take;
  of_take = λ t h. absurd h;
}
Search-LockStep {m = m} {q} {m'} {f} {f'} n w (unlock_found {s}) marks =
    opened m (finding q n w f) (finding q n w f') s refl (λ t h. h) (λ t p h. h) (λ t h. h)
Search-LockStep {m = m} {q} {m'} {f} {f'} n w (unlock_failed {s}) marks =
    opened m (finding q n w f) (finding q n w f') s refl (λ t h. h) (λ t p h. h) (λ t h. h)

Oust-LockStep :
    {m m' : Cache} {f f' : Find} (q n : ℕ) (w : Bool)
    → Oust m f m' f'
    → ((s : ℕ) → Locks s (finding q n w f) → m.page_take_lock s ≡ locked)
    → LockStep m (finding q n w f) m' (finding q n w f')
Oust-LockStep {m} {m'} {f} {f'} q n w (used _) marks =
    quiet m (finding q n w f) m' (finding q n w f') refl refl marks (λ s h. h) (λ s p h. absurd h)
      (λ s h. absurd h)
Oust-LockStep {m} {m'} {f} {f'} q n w (go_on _ _) marks =
    quiet m (finding q n w f) m' (finding q n w f') refl refl marks (λ s h. h) (λ s p h. inl h)
      (λ s h. absurd h)
Oust-LockStep {m} {m'} {f} {f'} q n w (fail _ _) marks =
    quiet m (finding q n w f) m' (finding q n w f') refl refl marks (λ s h. h) (λ s p h. absurd h)
      (λ s h. absurd h)
Oust-LockStep {m} {m'} {f} {f'} q n w (oust {s} {p = v} {e} {q = a} ev is) marks =
    quiet m (finding q n w f) m' (finding q n w f') refl refl marks (λ t h. h) (λ t p h. absurd h)
      (λ t h. (
        v,
        (h, refl, is),
        λ k. Evict-invalid ev is (subst (λ g. IsValid g.state) (update_self m.pages v a) k),
      ))

pub Move-LockStep :
    {n_pages : ℕ} {m : Cache} {x : Pc} {m' : Cache} {x' : Pc}
    → Move n_pages m x m' x'
    → ((s : ℕ) → Locks s x → m.page_take_lock s ≡ locked)
    → LockStep m x m' x'
Move-LockStep {m = m} {x} {m'} {x'} turn marks =
    quiet m x m' x' refl refl marks (λ s h. h) (λ s p h. absurd h) (λ s h. absurd h)
Move-LockStep {m = m} {x} {m'} {x'} (access _ _) marks =
    quiet m x m' x' refl refl marks (λ s h. h) (λ s p h. absurd h) (λ s h. absurd h)
Move-LockStep {m = m} {x} {m'} {x'} call marks =
    quiet m x m' x' refl refl marks (λ s h. h) (λ s p h. absurd h) (λ s h. absurd h)
Move-LockStep (search {n = n} {w} sr) marks = Search-LockStep n w sr marks
Move-LockStep (evict {page = q} {n} {w} o) marks = Oust-LockStep q n w o marks
Move-LockStep {m = m} {x} {m'} {x'} settle marks =
    quiet m x m' x' refl refl marks (λ s h. h) (λ s p h. absurd h) (λ s h. absurd h)
