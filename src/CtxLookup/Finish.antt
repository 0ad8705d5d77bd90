-- ===== src/CtxLookup/Finish.antt =====
-- What a completion makes of the page that it loads and of the context that waited for it.
use generic_asynchronous_io.Prelude.{
  ℕ, ◌/◌, ◌^◌, ◌<◌, ◌≡◌, ◌≢◌, ◌⊎◌, inl, inr, refl, sym, ap, ◌∙◌, subst, arith, Bool, true, false,
  not, ◌||◌, ◌==◌, Bool-cases, if_true, if_false, bit_xor,
}
use generic_asynchronous_io.PageState.{st, v_nb, disable_busy_enable_valid}
use generic_asynchronous_io.PageState.Flags.{count_of, st_lem, flip_word}
use generic_asynchronous_io.CtxLookup.{
  CacheView, Load, nv_b, has_range, at_valid, at_busy, finalize_registered_ctx_completion,
}

-- The page is valid and not busy with the same count, and the context points to it.
pub record Finished (l l' : Load) : Type 0 where
  pub hit : l'.ctx.is_hit ≡ true
  pub nothing_pending : l'.ctx.has_pending_io ≡ 0
  pub not_polled : l'.page.polling_flag ≡ 0
  pub same_place : l'.page.offset ≡ l'.ctx.page_trans
  pub is_valid : st l'.page.state ≡ v_nb
  pub same_count : count_of l'.page.state ≡ count_of l.page.state

abbrev pub Unfinished : Load → Type 0
Unfinished l =
    ((l.ctx.is_hit || not (has_range l.ctx.r)) ≡ true)
    ⊎ ((st l.page.state ≢ v_nb) × (st l.page.state ≢ nv_b))

abbrev pub FinishResult : Load → Bool × Load → Type 0
FinishResult l r = ((r.0 ≡ true) × Finished l r.1) ⊎ ((r ≡ (false, l)) × Unfinished l)

flip_busy :
    (w : ℕ)
    → w < 2 ^ 32
    → st w ≡ nv_b
    → (st (bit_xor w disable_busy_enable_valid) ≡ v_nb)
      × (count_of (bit_xor w disable_busy_enable_valid) ≡ count_of w)
flip_busy w h e =
    let top : w / 2 ^ 30 ≡ 1 = omega (arith, st_lem w, e, h) in
    (st_lem _ ∙ omega (arith, flip_word w h, top), omega (arith, flip_word w h, top))

module _ (c : CacheView) (l : Load) (small : l.page.state < 2 ^ 32) where
  valid-Finished : st l.page.state ≡ v_nb → Finished l (at_valid c l)
  valid-Finished e = record {
    hit = refl;
    nothing_pending = refl;
    not_polled = refl;
    same_place = refl;
    is_valid = e;
    same_count = refl;
  }

  busy-Finished : st l.page.state ≡ nv_b → Finished l (at_busy c l)
  busy-Finished e = record {
    hit = refl;
    nothing_pending = refl;
    not_polled = refl;
    same_place = refl;
    is_valid = (flip_busy l.page.state small e).0;
    same_count = (flip_busy l.page.state small e).1;
  }

  equal : (a b : ℕ) → (a == b) ≡ true → a ≡ b
  equal a b e = ground (arith, e)

  unequal : (a b : ℕ) → (a == b) ≡ false → a ≢ b
  unequal a b e = λ q. ground (arith, e, q)

  -- For a state word of 32 bits, ending a load does one of two things. It returns true, and the
  -- context is a hit with no I/O pending that points where the page lies, and the page is valid,
  -- not busy and not polled, with the count of its users as it was. Or it returns false and nothing
  -- changes, and the context was a hit or has no range, or the page is neither valid and not busy
  -- nor busy and not valid.
  pub finalize_lem : FinishResult l (finalize_registered_ctx_completion c l)
  unfolding finalize_registered_ctx_completion
  finalize_lem = elim (Bool-cases (l.ctx.is_hit || not (has_range l.ctx.r))) [
    | inl skip ↦ inr (if_true _ _ skip, inl skip)
    | inr miss ↦ elim (Bool-cases (st l.page.state == v_nb)) [
      | inl valid ↦
          done (at_valid c l) (if_false _ _ miss ∙ if_true _ _ valid)
            (valid-Finished (equal _ _ valid))
      | inr not_valid ↦ elim (Bool-cases (st l.page.state == nv_b)) [
        | inl busy ↦
            done (at_busy c l)
              (if_false _ _ miss ∙ if_false _ _ not_valid ∙ if_false _ _ (ap not busy))
              (busy-Finished (equal _ _ busy))
        | inr other ↦ inr (
          if_false _ _ miss ∙ if_false _ _ not_valid ∙ if_true _ _ (ap not other),
          inr (unequal _ _ not_valid, unequal _ _ other),
        )
      ]
    ]
  ]
    where
      done : {r : Bool × Load} (l' : Load) → r ≡ (true, l') → Finished l l' → FinishResult l r
      done l' e f =
          inl
            (ap (λ (r : Bool × Load). r.0) e, subst (λ (r : Bool × Load). Finished l r.1) (sym e) f)
