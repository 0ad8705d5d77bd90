-- ===== src/CacheSlots/Seen.antt =====
-- What the moves of the threads look like from one page.
use generic_asynchronous_io.Prelude.{
  ℕ, ◌≡◌, ◌≢◌, ◌⊎◌, inl, inr, refl, arith, ap, sym, subst, ◌∙◌, Bool, ◌==◌, if◌then◌else◌, if_true,
  if_false, ==_iff, ℕ_discrete, update, update_self, update_ne,
}
use generic_asynchronous_io.PageState
use generic_asynchronous_io.PageState.{Page, Evict}
use generic_asynchronous_io.PageState.Flags.{busy_of, test_busy}
use generic_asynchronous_io.CacheSlots.{
  Cache, Find, drawing, testing, locking, peeking, ousting, assigning, unlocking, found, Pc, on,
  finding, with_page, Search, Oust, used, go_on, fail, oust, Move, turn, access, call, search,
  evict, settle, draw, see, see_locked, lock_lost, lock_free, lock_taken, peek, assign,
  unlock_found, unlock_failed,
}

-- Where a thread in `find_slot` stands, for page `p`.
abbrev pub ousts : ℕ → Find → PageState.Pc
ousts p (ousting _ v e) = if v == p then e else PageState.outside
ousts p drawing = PageState.outside
ousts p (testing _) = PageState.outside
ousts p (locking _ _) = PageState.outside
ousts p (peeking _) = PageState.outside
ousts p (assigning _) = PageState.outside
ousts p (unlocking _ _) = PageState.outside
ousts p (found _) = PageState.outside

abbrev pub seen_from : ℕ → Pc → PageState.Pc
seen_from p (on q x) = if q == p then x else PageState.outside
seen_from p (finding q n w f) = if q == p then PageState.loading n w else ousts p f

pub from_self {ℓ} : {A : Type ℓ} (q : ℕ) (a b : A) → (if q == q then a else b) ≡ a
from_self q a b = if_true a b ((==_iff q q).1 refl)

pub from_other {ℓ} : {A : Type ℓ} (q p : ℕ) (a b : A) → q ≢ p → (if q == p then a else b) ≡ b
from_other q p a b ne = if_false a b (ground (arith, ne))

-- A thread never ousts the page that it loads.
abbrev pub Apart : Pc → Type 0
Apart (finding q n w (ousting s v e)) = v ≡ q → e ≡ PageState.outside
Apart _ = Unit {0}

-- What a move does, seen from page `p`.
unfoldable pub Seen : Cache → Pc → Cache → Pc → ℕ → Type 0
Seen m x m' x' p =
    ((m'.pages p ≡ m.pages p) × (seen_from p x' ≡ seen_from p x))
    ⊎ PageState.Move (m.pages p) (seen_from p x) (m'.pages p) (seen_from p x')

pub same_move :
    {a a' b b' : Page} {x x' y y' : PageState.Pc}
    → a ≡ a'
    → x ≡ x'
    → b ≡ b'
    → y ≡ y'
    → PageState.Move a x b y
    → PageState.Move a' x' b' y'
same_move {a} {a'} {b} {b'} {x} {x'} {y} {y'} ea ex eb ey mv =
    subst (λ t. PageState.Move a' x' b' t) ey
      (subst (λ t. PageState.Move a' x' t y) eb
        (subst (λ t. PageState.Move a' t b y) ex (subst (λ t. PageState.Move t x b y) ea mv)))

-- A move of the thread on page `q`, for the page itself and for any other.
Seen-page :
    (m : Cache) (q : ℕ) {a : Page} {x x' : PageState.Pc} (p : ℕ)
    → PageState.Move (m.pages q) x a x'
    → Seen m (on q x) (with_page m q a) (on q x') p
unfolding Seen
Seen-page m q {a} {x} {x'} p mv = elim (ℕ_discrete q p) [
  | yes e ↦ subst (Seen m (on q x) (with_page m q a) (on q x')) e (
      inr (
        same_move refl (sym (from_self q x PageState.outside)) (sym (update_self m.pages q a))
          (sym (from_self q x' PageState.outside)) mv))
  | no ne ↦ inl (update_ne m.pages q p a ne, from_other q p _ _ ne ∙ sym (from_other q p _ _ ne))
]

-- A step of `find_slot` that leaves the pages and the victim alone.
Seen-still :
    (m m' : Cache) (q n : ℕ) (w : Bool) (f f' : Find) (p : ℕ)
    → m'.pages p ≡ m.pages p
    → ousts p f' ≡ ousts p f
    → Seen m (finding q n w f) m' (finding q n w f') p
unfolding Seen
Seen-still m m' q n w f f' p same e =
    inl (same, ap (λ t. if q == p then PageState.loading n w else t) e)

Seen-oust :
    (m : Cache) (q n : ℕ) (w : Bool) (s v : ℕ) (e e' : PageState.Pc) (a : Page) (f' : Find) (p : ℕ)
    → v ≢ q
    → Evict (m.pages v) e a e'
    → ousts p f' ≡ (if v == p then e' else PageState.outside)
    → Seen m (finding q n w (ousting s v e)) (with_page m v a) (finding q n w f') p
unfolding Seen
Seen-oust m q n w s v e e' a f' p ne ev at = elim (ℕ_discrete q p) [
  | yes same ↦ inl (
    update_ne m.pages v p a (λ t. ne (t ∙ sym same)),
    subst
        (λ t.
          (if q == t then PageState.loading n w else ousts t f')
          ≡ (if q == t then PageState.loading n w else ousts t (ousting s v e)))
        same (from_self q _ _ ∙ sym (from_self q _ _)),
  )
  | no apart ↦ elim (ℕ_discrete v p) [
    | yes is_p ↦ inr (
        same_move (ap m.pages is_p)
          (sym (
            from_other q p _ _ apart
            ∙ ap (λ t. if v == t then e else PageState.outside) (sym is_p)
            ∙ from_self v _ _))
          (sym (ap (update m.pages v a) (sym is_p) ∙ update_self m.pages v a))
          (sym (
            from_other q p _ _ apart
            ∙ at
            ∙ ap (λ t. if v == t then e' else PageState.outside) (sym is_p)
            ∙ from_self v _ _))
          (PageState.eviction ev))
    | no not_p ↦ inl (
      update_ne m.pages v p a not_p,
      from_other q p _ _ apart
          ∙ at
          ∙ from_other v p _ _ not_p
          ∙ sym (from_other v p _ _ not_p)
          ∙ sym (from_other q p _ _ apart),
    )
  ]
]

-- `evict` sees the page free.
Evict-free :
    {m m' : Page} {e e' : PageState.Pc}
    → Evict m e m' e'
    → e ≡ PageState.outside
    → busy_of m.state ≡ 0
Evict-free {m} (PageState.evict _ free) e = omega (arith, test_busy m.state, free)
Evict-free (PageState.evict_won _ _) e = cc e
Evict-free (PageState.evict_used _ _) e = cc e
Evict-free (PageState.evict_lost _) e = cc e
Evict-free PageState.evicted e = cc e
Evict-free PageState.undo e = cc e

abbrev pub BusyFor : Cache → Pc → Type 0
BusyFor m (finding q n w f) = busy_of (m.pages q).state ≡ 1
BusyFor m (on q x) = Unit {0}

victim_other :
    (m : Cache) (q v : ℕ) {e e' : PageState.Pc} {a : Page}
    → Evict (m.pages v) e a e'
    → (v ≡ q → e ≡ PageState.outside)
    → busy_of (m.pages q).state ≡ 1
    → v ≢ q
victim_other m q v ev apart taken same =
    omega (arith, Evict-free ev (apart same), ap (λ t. busy_of (m.pages t).state) same, taken)

Search-Seen :
    {n_pages : ℕ} {m : Cache} {q : ℕ} {m' : Cache} {f f' : Find} (n : ℕ) (w : Bool)
    → Search n_pages m q f m' f'
    → (p : ℕ) → Seen m (finding q n w f) m' (finding q n w f') p
Search-Seen {m = m} {q} {m'} {f} {f'} n w draw p = Seen-still m m' q n w f f' p refl refl
Search-Seen {m = m} {q} {m'} {f} {f'} n w (see _) p = Seen-still m m' q n w f f' p refl refl
Search-Seen {m = m} {q} {m'} {f} {f'} n w (see_locked _) p = Seen-still m m' q n w f f' p refl refl
Search-Seen {m = m} {q} {m'} {f} {f'} n w lock_lost p = Seen-still m m' q n w f f' p refl refl
Search-Seen {m = m} {q} {m'} {f} {f'} n w (lock_free _ _) p = Seen-still m m' q n w f f' p refl refl
Search-Seen {m = m} {q} {m'} {f} {f'} n w (lock_taken _ _) p =
    Seen-still m m' q n w f f' p refl refl
Search-Seen {m = m} {q} {m'} {f} {f'} n w (peek {s}) p =
    Seen-still m m' q n w f f' p refl (ground arith)
Search-Seen {m = m} {q} {m'} {f} {f'} n w assign p = Seen-still m m' q n w f f' p refl refl
Search-Seen {m = m} {q} {m'} {f} {f'} n w unlock_found p = Seen-still m m' q n w f f' p refl refl
Search-Seen {m = m} {q} {m'} {f} {f'} n w unlock_failed p = Seen-still m m' q n w f f' p refl refl

Oust-Seen :
    {m m' : Cache} {f f' : Find} (q n : ℕ) (w : Bool)
    → Oust m f m' f'
    → busy_of (m.pages q).state ≡ 1
    → Apart (finding q n w f)
    → (p : ℕ) → Seen m (finding q n w f) m' (finding q n w f') p
Oust-Seen {m} {m'} {f} {f'} q n w (used _) taken apart p =
    Seen-still m m' q n w f f' p refl (ground arith)
Oust-Seen {m} {m'} {f} {f'} q n w (go_on {s} {p = v} {e} {e'} {q = a} ev _) taken apart p =
    Seen-oust m q n w s v e e' a f' p (victim_other m q v ev apart taken) ev refl
Oust-Seen {m} {m'} {f} {f'} q n w (fail {s} {p = v} {e} {q = a} ev _) taken apart p =
    Seen-oust m q n w s v e PageState.outside a f' p (victim_other m q v ev apart taken) ev
      (ground arith)
Oust-Seen {m} {m'} {f} {f'} q n w (oust {s} {p = v} {e} {q = a} ev _) taken apart p =
    Seen-oust m q n w s v e PageState.outside a f' p (victim_other m q v ev apart taken) ev
      (ground arith)

pub Move-Seen :
    {n_pages : ℕ} {m m' : Cache} {x x' : Pc}
    → Move n_pages m x m' x'
    → BusyFor m x
    → Apart x
    → (p : ℕ) → Seen m x m' x' p
unfolding Seen
Move-Seen turn taken apart p = inl (refl, ground arith)
Move-Seen {m = m} (access {page = q} mv _) taken apart p = Seen-page m q p mv
Move-Seen {m = m} call taken apart p = inl (refl, refl)
Move-Seen (search {n = n} {w} sr) taken apart p = Search-Seen n w sr p
Move-Seen (evict {page = q} {n} {w} o) taken apart p = Oust-Seen q n w o taken apart p
Move-Seen {m = m} (settle {page = q} {n} {s} {w}) taken apart p = elim (ℕ_discrete q p) [
  | yes e ↦
      subst
        (Seen m (finding q n w (found s)) (with_page m q (record (m.pages q) { offset = s }))
          (on q (PageState.loaded n w s)))
        e
        (inr (
          same_move refl (sym (from_self q (PageState.loading n w) PageState.outside))
            (sym (update_self m.pages q _))
            (sym (from_self q (PageState.loaded n w s) PageState.outside))
            (PageState.store_offset s)))
  | no ne ↦ inl (update_ne m.pages q p _ ne, from_other q p _ _ ne ∙ sym (from_other q p _ _ ne))
]

Oust-Apart :
    {m m' : Cache} {f f' : Find} (q n : ℕ) (w : Bool)
    → Oust m f m' f'
    → busy_of (m.pages q).state ≡ 1
    → Apart (finding q n w f)
    → Apart (finding q n w f')
Oust-Apart {m} q n w (go_on {p = v} ev _) taken apart =
    λ same. absurd (victim_other m q v ev apart taken same)
Oust-Apart q n w (used _) taken apart = tt
Oust-Apart q n w (fail _ _) taken apart = tt
Oust-Apart q n w (oust _ _) taken apart = tt

Search-Apart :
    {n_pages : ℕ} {m : Cache} {q : ℕ} {m' : Cache} {f f' : Find} (n : ℕ) (w : Bool)
    → Search n_pages m q f m' f'
    → Apart (finding q n w f')
Search-Apart n w peek = λ _. refl
Search-Apart n w draw = tt
Search-Apart n w (see _) = tt
Search-Apart n w (see_locked _) = tt
Search-Apart n w lock_lost = tt
Search-Apart n w (lock_free _ _) = tt
Search-Apart n w (lock_taken _ _) = tt
Search-Apart n w assign = tt
Search-Apart n w unlock_found = tt
Search-Apart n w unlock_failed = tt

pub Move-Apart :
    {n_pages : ℕ} {m m' : Cache} {x x' : Pc}
    → Move n_pages m x m' x'
    → BusyFor m x
    → Apart x
    → Apart x'
Move-Apart (evict {page = q} {n} {w} o) taken apart = Oust-Apart q n w o taken apart
Move-Apart turn taken apart = tt
Move-Apart (access _ _) taken apart = tt
Move-Apart call taken apart = tt
Move-Apart settle taken apart = tt
Move-Apart (search {n = n} {w} sr) taken apart = Search-Apart n w sr
