-- ===== src/CacheSlots/Project.antt =====
-- Seen from one page, the threads move as in PageState: its invariant holds of every page.
use mathlib.Core.Path.{fun_ext}
use generic_asynchronous_io.Prelude.{
  ℕ, ◌^◌, ◌≤◌, ◌<◌, ◌≡◌, inl, inr, refl, arith, ap, sym, subst, ◌∙◌, ℕ_discrete, dec_lt, update,
  update_self, update_ne, pair-le-sum, le-sum,
}
use generic_asynchronous_io.PageState
use generic_asynchronous_io.PageState.{Page, Evict}
use generic_asynchronous_io.PageState.Owners
use generic_asynchronous_io.PageState.Owners.{owned}
use generic_asynchronous_io.CacheSlots.{Cache, Pc, on, finding, Move}
use generic_asynchronous_io.CacheSlots.Seen.{
  ousts, seen_from, from_self, Apart, Seen, BusyFor, Move-Seen,
}

-- The invariant of one page, for a cache and its threads.
abbrev pub PageInv : ℕ → Cache → (ℕ → Pc) → ℕ → Type 0
PageInv threads m pc p = Owners.Inv threads (m.pages p) (λ j. seen_from p (pc j))

pub Inv-same :
    {threads : ℕ} {a b : Page} {f g : ℕ → PageState.Pc}
    → a ≡ b
    → ((j : ℕ) → f j ≡ g j)
    → Owners.Inv threads a f
    → Owners.Inv threads b g
Inv-same {threads} {a} {b} {f} {g} e h inv =
    subst (λ t. Owners.Inv threads b t) (fun_ext h) (subst (λ t. Owners.Inv threads t f) e inv)

module _ (threads : ℕ) (m : Cache) (pc : ℕ → Pc) (inv : (p : ℕ) → PageInv threads m pc p) where
  -- A thread that is in `find_slot` has set `BUSY` of its page.
  pub is_busy : (i : ℕ) → i < threads → (x : Pc) → pc i ≡ x → BusyFor m x
  is_busy i lt (on q x) at = tt
  is_busy i lt (finding q n w f) at =
      let v = inv q in
      omega (
        arith,
        v.flag,
        le-sum (λ j. owned (seen_from q (pc j))) threads i lt,
        ap (λ t. owned (seen_from q t)) at,
        ap owned (from_self q (PageState.loading n w) (ousts q f)),
      )

  -- Only one thread at a time has set `BUSY` of a page.
  pub one_owner :
      (p i j : ℕ) → owned (seen_from p (pc i)) ≡ 1 → owned (seen_from p (pc j)) ≡ 1 → i ≡ j
  one_owner p i j oi oj = elim (ℕ_discrete i j) [
    | yes same ↦ same
    | no apart ↦ absurd (
        omega (
          arith,
          oi,
          oj,
          (inv p).flag,
          pair-le-sum (λ k. owned (seen_from p (pc k))) threads i j (runs i oi) (runs j oj) apart,
        ))
  ]
    where
      runs : (k : ℕ) → owned (seen_from p (pc k)) ≡ 1 → k < threads
      runs k o = elim (dec_lt k threads) [
        | yes lt ↦ lt
        | no over ↦ absurd (omega (arith, o, ap owned ((inv p).beyond k (omega (arith, over)))))
      ]

  pub Move-PageInv :
      {n_pages : ℕ} {m' : Cache} {x' : Pc} (i : ℕ)
      → threads ≤ 2 ^ 23
      → i < threads
      → Apart (pc i)
      → Move n_pages m (pc i) m' x'
      → (p : ℕ) → PageInv threads m' (update pc i x') p
  unfolding Seen
  Move-PageInv {m' = m'} {x'} i room lt apart mv p =
      elim (Move-Seen mv (is_busy i lt (pc i) refl) apart p) [
        | inl (same, e) ↦
            Inv-same (sym same)
              (λ j. elim (ℕ_discrete i j) [
                | yes eq ↦
                    ap (λ t. seen_from p (pc t)) (sym eq)
                    ∙ sym e
                    ∙ sym (ap (seen_from p) (ap (update pc i x') (sym eq) ∙ update_self pc i x'))
                | no ne ↦ ap (seen_from p) (sym (update_ne pc i j x' ne))
              ])
              (inv p)
        | inr one ↦
            Inv-same refl
              (λ j. elim (ℕ_discrete i j) [
                | yes eq ↦
                    ap (update (λ k. seen_from p (pc k)) i (seen_from p x')) (sym eq)
                    ∙ update_self (λ k. seen_from p (pc k)) i (seen_from p x')
                    ∙ sym (ap (seen_from p) (ap (update pc i x') (sym eq) ∙ update_self pc i x'))
                | no ne ↦
                    update_ne (λ k. seen_from p (pc k)) i j (seen_from p x') ne
                    ∙ ap (seen_from p) (sym (update_ne pc i j x' ne))
              ])
              (Owners.Move-Inv threads room (inv p) i lt one)
      ]
