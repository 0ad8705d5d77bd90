-- ===== src/CacheSlots/PageStep.antt =====
-- What one step of `acquire_page`, `release_page` or the eviction does to the threads that have the
-- slot of the page, or will take it from `offset`.
use generic_asynchronous_io.Prelude.{
  ℕ, ◌+◌, ◌^◌, ◌≤◌, ◌<◌, ◌≡◌, ◌⊎◌, inl, inr, refl, arith, true, bit_or_bit,
}
use generic_asynchronous_io.PageState
use generic_asynchronous_io.PageState.{Page, st, v_nb, Evict, busy, dirty}
use generic_asynchronous_io.PageState.Flags.{count_of, st_lem, clear_busy_word, test_count}
use generic_asynchronous_io.PageState.Owners.{held}
use generic_asynchronous_io.CacheSlots.{acquires}
use generic_asynchronous_io.CacheSlots.Claims.{IsValid, AtSlot, Stored, Hitting}

pub record PageStep (a : Page) (x : PageState.Pc) (b : Page) (x' : PageState.Pc) : Type 0 where
  pub same_offset : b.offset ≡ a.offset
  pub valid_before : IsValid b.state → IsValid a.state ⊎ ((s : ℕ) × Stored x s)
  pub hits_before : Hitting x' → Hitting x ⊎ IsValid a.state
  pub slot_before : (s : ℕ) → AtSlot x' s → AtSlot x s ⊎ (Hitting x × (a.offset ≡ s))
  pub stored_before : (s : ℕ) → Stored x' s → Stored x s

-- A step to where the thread neither has a slot nor has seen the page valid.
plain :
    (a : Page) (x : PageState.Pc) (b : Page) (x' : PageState.Pc)
    → b.offset ≡ a.offset
    → (IsValid b.state → IsValid a.state)
    → (Hitting x' → ⊥)
    → ((s : ℕ) → AtSlot x' s → ⊥)
    → ((s : ℕ) → Stored x' s → ⊥)
    → PageStep a x b x'
plain a x b x' same keep no_hit no_slot no_store = record {
  same_offset = same;
  valid_before = λ v. inl (keep v);
  hits_before = λ h. absurd (no_hit h);
  slot_before = λ s h. absurd (no_slot s h);
  stored_before = λ s h. absurd (no_store s h);
}

pub Move-PageStep :
    {a b : Page} {x x' : PageState.Pc}
    → PageState.Move a x b x'
    → acquires x x' ≡ true
    → a.state < 2 ^ 32
    → held x ≤ count_of a.state
    → count_of a.state + 32 < 2 ^ 29
    → PageStep a x b x'
Move-PageStep {a} (PageState.enter n w least most) ok fits le room = record {
  same_offset = refl;
  valid_before = λ v. inl (omega (arith, v, most, room));
  hits_before = λ h. inr (omega (arith, st_lem a.state, h, fits));
  slot_before = λ s h. absurd h;
  stored_before = λ s h. absurd h;
}
Move-PageStep {a} {b} {x} {x'} (PageState.miss _) ok fits le room =
    plain a x b x' refl (λ v. v) (λ h. h) (λ s h. h) (λ s h. h)
Move-PageStep {a} {b} {x} {x'} (PageState.hit_dirty e _) ok fits le room = record {
  same_offset = refl;
  valid_before = λ v. inl v;
  hits_before = λ h. inl e;
  slot_before = λ s h. absurd h;
  stored_before = λ s h. absurd h;
}
Move-PageStep {a} {b} {x} {x'} (PageState.hit_clean e _) ok fits le room = record {
  same_offset = refl;
  valid_before = λ v. inl v;
  hits_before = λ h. inl e;
  slot_before = λ s h. absurd h;
  stored_before = λ s h. absurd h;
}
Move-PageStep {a} {b} {x} {x'} (PageState.spin _ _) ok fits le room =
    plain a x b x' refl (λ v. v) (λ h. h) (λ s h. h) (λ s h. h)
Move-PageStep {a} PageState.reload ok fits le room = record {
  same_offset = refl;
  valid_before = λ v. inl v;
  hits_before = λ h. inr (omega (arith, st_lem a.state, h, fits));
  slot_before = λ s h. absurd h;
  stored_before = λ s h. absurd h;
}
Move-PageStep {a} {b} {x} {x'} (PageState.claim_won _) ok fits le room =
    plain a x b x' refl (λ v. omega (arith, bit_or_bit 30 a.state, v)) (λ h. h) (λ s h. h)
      (λ s h. h)
Move-PageStep {a} {b} {x} {x'} (PageState.claim_lost _) ok fits le room =
    plain a x b x' refl (λ v. omega (arith, bit_or_bit 30 a.state, v)) (λ h. h) (λ s h. h)
      (λ s h. h)
Move-PageStep (PageState.store_offset _) ok fits le room = absurd (cc ok)
Move-PageStep {a} PageState.loaded_write ok fits le room = record {
  same_offset = refl;
  valid_before = λ v. inl (omega (arith, bit_or_bit 29 a.state, v));
  hits_before = λ h. absurd h;
  slot_before = λ s h. inl h;
  stored_before = λ s h. h;
}
Move-PageStep {a} PageState.loaded_read ok fits le room = record {
  same_offset = refl;
  valid_before = λ v. inl v;
  hits_before = λ h. absurd h;
  slot_before = λ s h. inl h;
  stored_before = λ s h. h;
}
Move-PageStep {a} (PageState.flip {t = t}) ok fits le room = record {
  same_offset = refl;
  valid_before = λ v. inr (t, refl);
  hits_before = λ h. absurd h;
  slot_before = λ s h. inl h;
  stored_before = λ s h. absurd h;
}
Move-PageStep {a} PageState.set_dirty ok fits le room = record {
  same_offset = refl;
  valid_before = λ v. inl (omega (arith, bit_or_bit 29 a.state, v));
  hits_before = λ h. inl h;
  slot_before = λ s h. absurd h;
  stored_before = λ s h. absurd h;
}
Move-PageStep {a} PageState.load_offset ok fits le room = record {
  same_offset = refl;
  valid_before = λ v. inl v;
  hits_before = λ h. absurd h;
  slot_before = λ s h. inr (tt, h);
  stored_before = λ s h. absurd h;
}
Move-PageStep {a} {b} {x} {x'} (PageState.releasing PageState.release_one) ok fits le room =
    plain a x b x' refl (λ v. omega (arith, v, le, fits)) (λ h. h) (λ s h. h) (λ s h. h)
Move-PageStep {a} {b} {x} {x'} (PageState.releasing PageState.release) ok fits le room =
    plain a x b x' refl (λ v. omega (arith, v, le, fits)) (λ h. h) (λ s h. h) (λ s h. h)
Move-PageStep (PageState.eviction (PageState.evict _ _)) ok fits le room = absurd (cc ok)
Move-PageStep (PageState.eviction (PageState.evict_won _ _)) ok fits le room = absurd (cc ok)
Move-PageStep (PageState.eviction (PageState.evict_used _ _)) ok fits le room = absurd (cc ok)
Move-PageStep (PageState.eviction (PageState.evict_lost _)) ok fits le room = absurd (cc ok)
Move-PageStep (PageState.eviction PageState.evicted) ok fits le room = absurd (cc ok)
Move-PageStep (PageState.eviction PageState.undo) ok fits le room = absurd (cc ok)

pub Evict-offset : {a b : Page} {e e' : PageState.Pc} → Evict a e b e' → b.offset ≡ a.offset
Evict-offset (PageState.evict _ _) = refl
Evict-offset (PageState.evict_won _ _) = refl
Evict-offset (PageState.evict_used _ _) = refl
Evict-offset (PageState.evict_lost _) = refl
Evict-offset PageState.evicted = refl
Evict-offset PageState.undo = refl

pub Evict-IsValid :
    {a b : Page} {e e' : PageState.Pc}
    → Evict a e b e'
    → a.state < 2 ^ 32
    → IsValid b.state
    → IsValid a.state
Evict-IsValid (PageState.evict _ _) fits v = v
Evict-IsValid {a} (PageState.evict_won _ _) fits v = omega (arith, bit_or_bit 30 a.state, v)
Evict-IsValid {a} (PageState.evict_used _ _) fits v = omega (arith, bit_or_bit 30 a.state, v)
Evict-IsValid {a} (PageState.evict_lost _) fits v = omega (arith, bit_or_bit 30 a.state, v)
Evict-IsValid {a} PageState.evicted fits v = absurd (omega (arith, test_count a.state, v))
Evict-IsValid {a} PageState.undo fits v = omega (arith, clear_busy_word a.state fits, v)

pub Evict-invalid :
    {a b : Page} {e e' : PageState.Pc}
    → Evict a e b e'
    → e ≡ PageState.writing
    → IsValid b.state
    → ⊥
Evict-invalid {a} PageState.evicted e v = omega (arith, test_count a.state, v)
Evict-invalid (PageState.evict _ _) e v = cc e
Evict-invalid (PageState.evict_won _ _) e v = cc e
Evict-invalid (PageState.evict_used _ _) e v = cc e
Evict-invalid (PageState.evict_lost _) e v = cc e
Evict-invalid PageState.undo e v = cc e
