-- ===== src/CacheSlots/Back.antt =====
-- After a step that stores no slot, a claim is one that there was before.
use generic_asynchronous_io.Prelude.{
  ℕ, ◌^◌, ◌≤◌, ◌<◌, ◌≡◌, inl, inr, refl, arith, ap, sym, subst, ◌∙◌, Bool, true, ℕ_discrete, update,
  update_self, update_ne,
}
use generic_asynchronous_io.PageState
use generic_asynchronous_io.PageState.{Page, Evict}
use generic_asynchronous_io.PageState.Owners
use generic_asynchronous_io.PageState.Owners.{held, owned, harmless}
use generic_asynchronous_io.CacheSlots.{
  Cache, Find, found, Pc, on, finding, locked, acquires, with_page, Search, Oust, used, go_on, fail,
  oust, Move, turn, access, call, search, evict, settle, draw, see, see_locked, lock_lost,
  lock_free, lock_taken, peek, assign, unlock_found, unlock_failed,
}
use generic_asynchronous_io.CacheSlots.Seen.{Apart, seen_from, from_self}
use generic_asynchronous_io.CacheSlots.Project.{PageInv}
use generic_asynchronous_io.CacheSlots.Claims.{
  IsValid, AtSlot, Uses, Hits, Stores, Locks, Takes, Ousts, Claim, by_page, by_hit, by_user,
  Assigned, AtSlot-of_Stored,
}
use generic_asynchronous_io.CacheSlots.PageStep.{
  PageStep, Move-PageStep, Evict-offset, Evict-IsValid,
}

pub record Inv (threads : ℕ) (m : Cache) (pc : ℕ → Pc) : Type 0 where
  pub pages : (p : ℕ) → PageInv threads m pc p
  pub apart : (i : ℕ) → Apart (pc i)
  pub claims : (s p : ℕ) → Claim m pc s p → Assigned m s p
  pub stored : (i p s : ℕ) → Stores p s (pc i) → (m.pages p).offset ≡ s
  pub marks : (i s : ℕ) → Locks s (pc i) → m.page_take_lock s ≡ locked
  pub one : (i j s : ℕ) → Locks s (pc i) → Locks s (pc j) → i ≡ j
  pub victims : (i s p : ℕ) → Ousts s p (pc i) → m.page_translation s ≡ p
  pub untaken : (i s p : ℕ) → Takes s (pc i) → Claim m pc s p → ⊥

-- Where the claims after a step of thread `i` to `x'` come from.
pub record Back (m : Cache) (pc : ℕ → Pc) (i : ℕ) (m' : Cache) (x' : Pc) : Type 0 where
  pub of_page : (s p : ℕ) → IsValid (m'.pages p).state → (m'.pages p).offset ≡ s → Claim m pc s p
  pub of_other : (s p j : ℕ) → Hits p (pc j) → (m'.pages p).offset ≡ s → Claim m pc s p
  pub of_hit : (s p : ℕ) → Hits p x' → (m'.pages p).offset ≡ s → Claim m pc s p
  pub of_user : (s p : ℕ) → Uses p s x' → Claim m pc s p

pub Back-Claim :
    {m : Cache} {pc : ℕ → Pc} {i : ℕ} {m' : Cache} {x' : Pc} {s p : ℕ}
    → Back m pc i m' x'
    → Claim m' (update pc i x') s p
    → Claim m pc s p
Back-Claim {s = s} {p} b (by_page v e) = b.of_page s p v e
Back-Claim {pc = pc} {i} {x' = x'} {s} {p} b (by_hit j h e) = elim (ℕ_discrete i j) [
  | yes same ↦
      b.of_hit s p (subst (Hits p) (ap (update pc i x') (sym same) ∙ update_self pc i x') h) e
  | no ne ↦ b.of_other s p j (subst (Hits p) (update_ne pc i j x' ne) h) e
]
Back-Claim {pc = pc} {i} {x' = x'} {s} {p} b (by_user j u) = elim (ℕ_discrete i j) [
  | yes same ↦
      b.of_user s p (subst (Uses p s) (ap (update pc i x') (sym same) ∙ update_self pc i x') u)
  | no ne ↦ by_user j (subst (Uses p s) (update_ne pc i j x' ne) u)
]

-- A step after which no page is valid that was not, and no `offset` has changed.
still :
    (m : Cache) (pc : ℕ → Pc) (i : ℕ) (m' : Cache) (x' : Pc)
    → ((p : ℕ)
        → ((m'.pages p).offset ≡ (m.pages p).offset)
          × (IsValid (m'.pages p).state → IsValid (m.pages p).state))
    → ((p : ℕ) → Hits p x' → ⊥)
    → ((s p : ℕ) → Uses p s x' → Claim m pc s p)
    → Back m pc i m' x'
still m pc i m' x' same no_hit uses = record {
  of_page = λ s p v e. by_page ((same p).1 v) (sym (same p).0 ∙ e);
  of_other = λ s p j h e. by_hit j h (sym (same p).0 ∙ e);
  of_hit = λ s p h e. absurd (no_hit p h);
  of_user = uses;
}

Search-Back :
    {n_pages : ℕ} {m : Cache} {q : ℕ} {m' : Cache} {f f' : Find} (n : ℕ) (w : Bool) (pc : ℕ → Pc)
    (i : ℕ)
    → pc i ≡ finding q n w f
    → Search n_pages m q f m' f'
    → ((s : ℕ) → Takes s (finding q n w f) → ⊥)
    → Back m pc i m' (finding q n w f')
Search-Back {m = m} {q} {m'} {f} {f'} n w pc i at assign no_take = absurd (no_take _ refl)
Search-Back {m = m} {q} {m'} {f} {f'} n w pc i at unlock_found no_take =
    still m pc i m' (finding q n w f') (λ p. (refl, λ v. v)) (λ p h. h)
      (λ s p u. by_user i (subst (Uses p s) (sym at) u))
Search-Back {m = m} {q} {m'} {f} {f'} n w pc i at draw no_take =
    still m pc i m' (finding q n w f') (λ p. (refl, λ v. v)) (λ p h. h) (λ s p u. absurd (u.1))
Search-Back {m = m} {q} {m'} {f} {f'} n w pc i at (see _) no_take =
    still m pc i m' (finding q n w f') (λ p. (refl, λ v. v)) (λ p h. h) (λ s p u. absurd (u.1))
Search-Back {m = m} {q} {m'} {f} {f'} n w pc i at (see_locked _) no_take =
    still m pc i m' (finding q n w f') (λ p. (refl, λ v. v)) (λ p h. h) (λ s p u. absurd (u.1))
Search-Back {m = m} {q} {m'} {f} {f'} n w pc i at lock_lost no_take =
    still m pc i m' (finding q n w f') (λ p. (refl, λ v. v)) (λ p h. h) (λ s p u. absurd (u.1))
Search-Back {m = m} {q} {m'} {f} {f'} n w pc i at (lock_free _ _) no_take =
    still m pc i m' (finding q n w f') (λ p. (refl, λ v. v)) (λ p h. h) (λ s p u. absurd (u.1))
Search-Back {m = m} {q} {m'} {f} {f'} n w pc i at (lock_taken _ _) no_take =
    still m pc i m' (finding q n w f') (λ p. (refl, λ v. v)) (λ p h. h) (λ s p u. absurd (u.1))
Search-Back {m = m} {q} {m'} {f} {f'} n w pc i at peek no_take =
    still m pc i m' (finding q n w f') (λ p. (refl, λ v. v)) (λ p h. h) (λ s p u. absurd (u.1))
Search-Back {m = m} {q} {m'} {f} {f'} n w pc i at unlock_failed no_take =
    still m pc i m' (finding q n w f') (λ p. (refl, λ v. v)) (λ p h. h) (λ s p u. absurd (u.1))

-- What the eviction leaves of the pages.
Evict-still :
    (m : Cache) (v : ℕ) {e e' : PageState.Pc} {a : Page}
    → Evict (m.pages v) e a e'
    → (m.pages v).state < 2 ^ 32
    → (p : ℕ)
    → (((with_page m v a).pages p).offset ≡ (m.pages p).offset)
      × (IsValid ((with_page m v a).pages p).state → IsValid (m.pages p).state)
Evict-still m v {a = a} ev fits p = elim (ℕ_discrete v p) [
  | yes e ↦
      let now : (with_page m v a).pages p ≡ a =
        ap (update m.pages v a) (sym e) ∙ update_self m.pages v a in
      (
        ap (λ t. t.offset) now ∙ Evict-offset ev ∙ ap (λ t. (m.pages t).offset) e,
        λ k.
            subst (λ t. IsValid (m.pages t).state) e
              (Evict-IsValid ev fits (subst (λ t. IsValid t.state) now k)),
      )
  | no ne ↦
      let same : (with_page m v a).pages p ≡ m.pages p = update_ne m.pages v p a ne in
      (ap (λ t. t.offset) same, subst (λ t. IsValid t.state) same)
]

Oust-Back :
    {m m' : Cache} {f f' : Find} (q n : ℕ) (w : Bool) (pc : ℕ → Pc) (i : ℕ)
    → Oust m f m' f'
    → ((p : ℕ) → (m.pages p).state < 2 ^ 32)
    → Back m pc i m' (finding q n w f')
Oust-Back {m} {m'} {f} {f'} q n w pc i (used _) fits =
    still m pc i m' (finding q n w f') (λ p. (refl, λ v. v)) (λ p h. h) (λ s p u. absurd (u.1))
Oust-Back {m} {m'} {f} {f'} q n w pc i (go_on {p = v} ev _) fits =
    still m pc i m' (finding q n w f') (Evict-still m v ev (fits v)) (λ p h. h)
      (λ s p u. absurd (u.1))
Oust-Back {m} {m'} {f} {f'} q n w pc i (fail {p = v} ev _) fits =
    still m pc i m' (finding q n w f') (Evict-still m v ev (fits v)) (λ p h. h)
      (λ s p u. absurd (u.1))
Oust-Back {m} {m'} {f} {f'} q n w pc i (oust {p = v} ev _) fits =
    still m pc i m' (finding q n w f') (Evict-still m v ev (fits v)) (λ p h. h)
      (λ s p u. absurd (u.1))

module _ (threads : ℕ) (room : threads ≤ 2 ^ 23) (m : Cache) (pc : ℕ → Pc) (inv : Inv threads m pc)
    (i : ℕ) (lt : i < threads) where
  pub page_step :
      (q : ℕ) {x x' : PageState.Pc} {a : Page}
      → pc i ≡ on q x
      → PageState.Move (m.pages q) x a x'
      → acquires x x' ≡ true
      → PageStep (m.pages q) x a x'
  page_step q {x} at mv ok =
      let here : seen_from q (pc i) ≡ x = ap (seen_from q) at ∙ from_self q x PageState.outside in
      Move-PageStep mv ok (inv.pages q).fits
        (omega (arith, ap held here, Owners.held-le threads room (inv.pages q) i lt))
        (Owners.count_room threads room (inv.pages q) i lt)

  access-Back :
      (q : ℕ) {x x' : PageState.Pc} {a : Page}
      → pc i ≡ on q x
      → PageStep (m.pages q) x a x'
      → Back m pc i (with_page m q a) (on q x')
  access-Back q {x} {x'} {a} at k = record {
    of_page = λ s p v e. elim (ℕ_discrete q p) [
      | yes eq ↦
          let now : (with_page m q a).pages p ≡ a =
            ap (update m.pages q a) (sym eq) ∙ update_self m.pages q a in
          let off : (m.pages q).offset ≡ s = sym k.same_offset ∙ sym (ap (λ t. t.offset) now) ∙ e in
          subst (Claim m pc s) eq (elim (k.valid_before (subst (λ t. IsValid t.state) now v)) [
            | inl was ↦ by_page was off
            | inr (t, st) ↦
                let t_is : t ≡ s =
                  sym (inv.stored i q t (subst (Stores q t) (sym at) (refl, st))) ∙ off in
                by_user i (
                  subst (Uses q s) (sym at) (refl, subst (AtSlot x) t_is (AtSlot-of_Stored x t st)))
          ])
      | no ne ↦
          let same : (with_page m q a).pages p ≡ m.pages p = update_ne m.pages q p a ne in
          by_page (subst (λ t. IsValid t.state) same v) (sym (ap (λ t. t.offset) same) ∙ e)
    ];
    of_other = λ s p j h e. by_hit j h (sym (same_off p) ∙ e);
    of_hit = λ s p h e. elim (k.hits_before h.1) [
      | inl was ↦ by_hit i (subst (Hits p) (sym at) (h.0, was)) (sym (same_off p) ∙ e)
      | inr v ↦ by_page (subst (λ t. IsValid (m.pages t).state) h.0 v) (sym (same_off p) ∙ e)
    ];
    of_user = λ s p u. elim (k.slot_before s u.1) [
      | inl was ↦ by_user i (subst (Uses p s) (sym at) (u.0, was))
      | inr (h, off) ↦
          by_hit i (subst (Hits p) (sym at) (u.0, h)) (subst (λ t. (m.pages t).offset ≡ s) u.0 off)
    ];
  }
    where
      same_off : (p : ℕ) → ((with_page m q a).pages p).offset ≡ (m.pages p).offset
      same_off p = elim (ℕ_discrete q p) [
        | yes eq ↦
            ap (λ t. t.offset) (ap (update m.pages q a) (sym eq) ∙ update_self m.pages q a)
            ∙ k.same_offset
            ∙ ap (λ t. (m.pages t).offset) eq
        | no ne ↦ ap (λ t. t.offset) (update_ne m.pages q p a ne)
      ]

  settle-Back :
      (q n : ℕ) (w : Bool) (t : ℕ)
      → pc i ≡ finding q n w (found t)
      → Back m pc i
          (with_page m q (record (m.pages q) { offset = t }))
          (on q (PageState.loaded n w t))
  settle-Back q n w t at = record {
    of_page = λ s p v e. elim (ℕ_discrete q p) [
      | yes eq ↦ mine s p eq (now p eq s e)
      | no ne ↦
          let same : (with_page m q (record (m.pages q) { offset = t })).pages p ≡ m.pages p =
            update_ne m.pages q p _ ne in
          by_page (subst (λ t. IsValid t.state) same v) (sym (ap (λ t. t.offset) same) ∙ e)
    ];
    of_other = λ s p j h e. elim (ℕ_discrete q p) [
      | yes eq ↦ mine s p eq (now p eq s e)
      | no ne ↦ by_hit j h (
          sym (ap (λ t. t.offset) (update_ne m.pages q p (record (m.pages q) { offset = t }) ne))
          ∙ e)
    ];
    of_hit = λ s p h e. absurd (h.1);
    of_user = λ s p u. mine s p u.0 u.1;
  }
    where
      mine : (s p : ℕ) → q ≡ p → t ≡ s → Claim m pc s p
      mine s p eq e = by_user i (subst (Uses p s) (sym at) (eq, e))

      now :
          (p : ℕ)
          → q ≡ p
          → (s : ℕ) → ((with_page m q (record (m.pages q) { offset = t })).pages p).offset ≡ s
          → t ≡ s
      now p eq s e =
          sym (
            ap (λ t. t.offset)
              (ap (update m.pages q (record (m.pages q) { offset = t })) (sym eq)
                ∙ update_self m.pages q (record (m.pages q) { offset = t })))
          ∙ e

  pub Move-Back :
      {n_pages : ℕ} {x : Pc} {m' : Cache} {x' : Pc}
      → pc i ≡ x
      → Move n_pages m x m' x'
      → ((s : ℕ) → Takes s x → ⊥)
      → Back m pc i m' x'
  Move-Back {m' = m'} {x'} at turn no_take =
      still m pc i m' x' (λ p. (refl, λ v. v)) (λ p h. h.1) (λ s p u. absurd (u.1))
  Move-Back at (access {page = q} mv ok) no_take = access-Back q at (page_step q at mv ok)
  Move-Back {m' = m'} {x'} at call no_take =
      still m pc i m' x' (λ p. (refl, λ v. v)) (λ p h. h) (λ s p u. absurd (u.1))
  Move-Back at (search {n = n} {w} sr) no_take = Search-Back n w pc i at sr no_take
  Move-Back at (evict {page = q} {n} {w} o) no_take =
      Oust-Back q n w pc i o (λ p. (inv.pages p).fits)
  Move-Back at (settle {page = q} {n} {s} {w}) no_take = settle-Back q n w s at
