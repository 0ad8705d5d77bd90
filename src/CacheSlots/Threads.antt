-- ===== src/CacheSlots/Threads.antt =====
-- How what a thread has of a slot hangs together.
use generic_asynchronous_io.Prelude.{ℕ, ◌≡◌, ◌⊎◌, inl, inr, refl, Bool}
use generic_asynchronous_io.CacheSlots.{ousting, assigning, Pc, on, finding, drawing}
use generic_asynchronous_io.CacheSlots.Claims.{Uses, Hits, Locks, Takes, Ousts}
use generic_asynchronous_io.CacheSlots.Locks.{Writes}

abbrev pub Gives : ℕ → ℕ → Pc → Type 0
Gives s p (finding q _ _ (assigning t)) = (q ≡ p) × (t ≡ s)
Gives s p _ = ⊥

pub Takes-cases :
    (x : Pc)
    → ((q : ℕ) × (n : ℕ) × (w : Bool) × (t : ℕ) × (x ≡ finding q n w (assigning t)))
      ⊎ ((s : ℕ) → Takes s x → ⊥)
Takes-cases (finding q n w (assigning t)) = inl (q, n, w, t, refl)
Takes-cases (finding q n w drawing) = inr (λ s h. h)
Takes-cases (on q x) = inr (λ s h. h)
Takes-cases x = inr (λ s h. h)

pub Gives-Takes : (s p : ℕ) (x : Pc) → Gives s p x → Takes s x
Gives-Takes s p (finding q n w (assigning t)) h = h.1
Gives-Takes s p (finding q n w drawing) h = absurd h
Gives-Takes s p (on q x) h = absurd h
Gives-Takes s p x h = absurd h

pub Takes-Locks : (s : ℕ) (x : Pc) → Takes s x → Locks s x
Takes-Locks s (finding q n w (assigning t)) h = h
Takes-Locks s (finding q n w drawing) h = absurd h
Takes-Locks s (on q x) h = absurd h
Takes-Locks s x h = absurd h

pub Ousts-Locks : (s p : ℕ) (x : Pc) → Ousts s p x → Locks s x
Ousts-Locks s p (finding q n w (ousting t v e)) h = h.0
Ousts-Locks s p (finding q n w drawing) h = absurd h
Ousts-Locks s p (on q x) h = absurd h
Ousts-Locks s p x h = absurd h

pub Ousts-Takes : (s p t : ℕ) (x : Pc) → Ousts s p x → Takes t x → ⊥
Ousts-Takes s p t (finding q n w (ousting _ v e)) h k = k
Ousts-Takes s p t (finding q n w drawing) h k = h
Ousts-Takes s p t (on q x) h k = h
Ousts-Takes s p t x h k = h

pub Writes-Ousts : (s p : ℕ) (x : Pc) → Writes s p x → Ousts s p x
Writes-Ousts s p (finding q n w (ousting t v e)) h = (h.0, h.1)
Writes-Ousts s p (finding q n w drawing) h = absurd h
Writes-Ousts s p (on q x) h = absurd h
Writes-Ousts s p x h = absurd h

pub Takes-Hits : (s p : ℕ) (x : Pc) → Takes s x → Hits p x → ⊥
Takes-Hits s p (finding q n w f) h k = k
Takes-Hits s p (on q x) h k = h

pub Takes-Uses : (s t p : ℕ) (x : Pc) → Takes s x → Uses p t x → ⊥
Takes-Uses s t p (finding q n w (assigning k)) h u = u.1
Takes-Uses s t p (finding q n w drawing) h u = h
Takes-Uses s t p (on q x) h u = h
Takes-Uses s t p x h u = h
