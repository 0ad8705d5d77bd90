-- ===== src/WbSlots/Found.antt =====
-- bam/include/page_cache.h, `wb_find_slot` and `wb_find_slot_cpu_agg`: the loop.
use native.Mathlib.Nat.{mod-lt, mod-eq_of_lt, div-add-mod, add-mul-mod_self_left}
use mathlib.Core.Path.{fun_ext}
use generic_asynchronous_io.Prelude.{
  ℕ, zero, suc, ◌+◌, ◌-◌, ◌*◌, ◌/◌, ◌%◌, ◌^◌, ◌≤◌, ◌<◌, ◌≡◌, inl, inr, refl, sym, arith, ap, ◌∙◌,
  Bool, false, ◌&&◌, ◌==◌, ltb, leb, leb→le, ◌++◌, Option, none, some, if◌then◌else◌, if-when,
  if_true, u32, bit_and, ◌>>>◌, update, Bool-cases, ℕ_discrete, subst,
}
use generic_asynchronous_io.PageState.{busy, dirty, cnt_mask}
use generic_asynchronous_io.PageState.Flags.{count_of, busy_of, test_count, test_busy}
use generic_asynchronous_io.CacheSlots.{free, unlocked}
use generic_asynchronous_io.Address.{previous_range, previous_address}
use generic_asynchronous_io.WbSlots.{
  Params, WbCache, page_writes, never, evict, round, or_else, find_from,
}
use generic_asynchronous_io.WbSlots.Within.{Depths, Within-trans}
use generic_asynchronous_io.WbSlots.Placed.{
  range_in, address_in, state_in, Ready, unassigned, unused, Placed, Unmoved, Outcome, Fits,
}
use generic_asynchronous_io.WbSlots.Rounds.{round-Outcome}

-- The ticket `s` comes to slot `t` within `n` rounds.
pub comes : (n s t : ℕ) → t < n → (k : ℕ) × (k < n) × ((s + k) % n ≡ t)
comes n s t lt =
    let r : s % n < n = mod-lt s (omega (arith, lt)) in
    let landed : (k q : ℕ) → s + k ≡ t + n * q → (s + k) % n ≡ t =
      λ k q e. ap (λ x. x % n) e ∙ add-mul-mod_self_left t n q ∙ mod-eq_of_lt lt in
    elim (Bool-cases (leb (s % n) t)) [
      | inl le ↦ (
        t - s % n,
        omega (arith, lt),
        landed _ (s / n) (omega (arith, leb→le (s % n) t le, div-add-mod s n)),
      )
      | inr gt ↦ (
        t + n - s % n,
        ground (arith, lt, r, gt),
        landed _ (suc (s / n)) (grind (arith, lt, r, gt, div-add-mod s n)),
      )
    ]

is_some-none : {t : ℕ} → ¬ (some t ≡ none)
is_some-none e = ground (arith, e)

unspared : (a n : ℕ) (b : Bool) → a ≤ n → (if leb a n then false else b) ≡ false
unspared a n b le = if_true false b (ground (arith, le))

next_ticket : (t t' k : ℕ) → t' ≡ u32 (t + 1) → t + k < 2 ^ 32 → ¬ (k ≡ 0) → t' + (k - 1) ≡ t + k
next_ticket t t' k e small more = omega (arith, e, small, more)

-- A slot is found, and it has gone to the page.
unfoldable pub Found : (p : Params) (m : WbCache) (global_address : ℕ) → Option ℕ × WbCache → Type 0
Found p m global_address out =
    (t : ℕ) × (m' : WbCache) × (out ≡ (some t, m')) × Placed p m global_address t m'

module _ (p : Params) where
  module _ {m m1 : WbCache} (u : Unmoved p m m1) where
    state_in_same : (t : ℕ) → state_in p m1 t ≡ state_in p m t
    state_in_same t =
        ap (λ g. m1.state (previous_range p.max_range g) (previous_address p.max_range g))
          (u.translations t)
        ∙ u.states (range_in p m t) (address_in p m t)

    Ready-back : (t : ℕ) → Ready p m1 t → Ready p m t
    Ready-back t (unassigned e) = unassigned (sym (u.locks t) ∙ e)
    Ready-back t (unused e c b) =
        unused (sym (u.locks t) ∙ e) (ap count_of (sym (state_in_same t)) ∙ c)
          (ap busy_of (sym (state_in_same t)) ∙ b)

    Ready-on : (t : ℕ) → Ready p m t → Ready p m1 t
    Ready-on t (unassigned e) = unassigned (u.locks t ∙ e)
    Ready-on t (unused e c b) =
        unused (u.locks t ∙ e) (ap count_of (state_in_same t) ∙ c)
          (ap busy_of (state_in_same t) ∙ b)

    pub Fits-on : Fits p m → Fits p m1
    unfolding Fits
    Fits-on fits r a = omega (arith, u.states r a, fits r a)

    Placed-back : (g t : ℕ) (m' : WbCache) → Placed p m1 g t m' → Placed p m g t m'
    Placed-back g t m' placed = record {
      below = placed.below;
      was_ready = Ready-back t placed.was_ready;
      lock = placed.lock;
      other_locks = λ j ne. placed.other_locks j ne ∙ u.locks j;
      translations = λ j. placed.translations j ∙ ap (λ f. update f t g j) (fun_ext u.translations);
      reuses = λ j. placed.reuses j ∙ ap (λ f. update f t never j) (fun_ext u.reuses);
      ousted = λ was.
          ap (λ x. m'.state (previous_range p.max_range x) (previous_address p.max_range x))
            (sym (u.translations t))
          ∙ placed.ousted (u.locks t ∙ was);
      written = λ was is_dirty.
          let w =
            placed.written (u.locks t ∙ was)
              (ap (λ x. bit_and x dirty == 0) (state_in_same t) ∙ is_dirty) in
          (
            w.0,
            w.1
                ∙ ap
                    (λ x.
                      w.0
                      ++ page_writes p t (previous_range p.max_range x)
                          (previous_address p.max_range x))
                    (u.translations t),
          );
      states = λ r a ne.
          placed.states r a (elim ne [
            | inl other ↦
                inl (λ e. other (ap (previous_range p.max_range) (sym (u.translations t)) ∙ e))
            | inr other ↦
                inr (λ e. other (ap (previous_address p.max_range) (sym (u.translations t)) ∙ e))
          ])
          ∙ u.states r a;
      within = Within-trans u.within placed.within;
    }

  -- The first round or the rest of the loop finds the slot.
  or_else-Found :
      (m : WbCache) (g : ℕ) (first rest : Option ℕ × WbCache)
      → Outcome p m g first
      → (first.0 ≡ none → Unmoved p m first.1 → Found p first.1 g rest)
      → Found p m g (or_else p first rest)
  unfolding Outcome Found
  or_else-Found m g (some t, m1) rest placed later = (t, m1, refl, placed)
  or_else-Found m g (none, m1) rest unmoved later =
      let f = later refl unmoved in (f.0, f.1, f.2, Placed-back unmoved g f.0 f.1 f.3)

  -- Once no page is spared any more, a slot that is ready is taken.
  Ready-taken :
      (agg : Bool) (m : WbCache) (g : ℕ)
      → Ready p m (m.page_ticket % p.n_pages)
      → (round p agg false m g).0 ≡ some (m.page_ticket % p.n_pages)
  unfolding round evict
  Ready-taken agg m g ready =
      let page = m.page_ticket % p.n_pages in
      let takes = λ (x : Option ℕ × WbCache). x.0 ≡ some page in
      if-when takes (m.page_take_lock page == free) (λ _. refl)
        (λ not_free. elim ready [
          | unassigned e ↦ absurd (ground (arith, e, not_free))
          | unused e c b ↦
              if-when takes (m.page_take_lock page == unlocked)
                (λ _.
                  if-when takes
                    ((bit_and (state_in p m page) cnt_mask == 0)
                      && (bit_and (state_in p m page) busy == 0))
                    (λ _.
                      if-when takes (ltb (m.next_reuse page >>> 48) 16 && false)
                        (λ spared. absurd (ground (arith, spared))) (λ _. refl))
                    (λ used.
                      let no_count : bit_and (state_in p m page) cnt_mask ≡ 0 =
                        test_count (state_in p m page) ∙ c in
                      let not_busy : bit_and (state_in p m page) busy ≡ 0 =
                        omega (arith, test_busy (state_in p m page), b) in
                      absurd (ground (arith, used, no_count, not_busy))))
                (λ locked. absurd (ground (arith, e, locked)))
        ])

  module _ (d : Depths p) (pos : 0 < p.n_pages) (agg : Bool) (g t : ℕ) where
    -- The ticket comes to slot `t` after `k` rounds.
    pub find_from-Found :
        (fuel iter_count k : ℕ) (evict_prior : Bool) (m : WbCache)
        → k < fuel
        → p.n_pages / 4 ≤ iter_count + k
        → iter_count + k < 2 ^ 32
        → m.page_ticket + k < 2 ^ 32
        → (m.page_ticket + k) % p.n_pages ≡ t
        → Ready p m t
        → Fits p m
        → Found p m g (find_from p agg fuel iter_count evict_prior m g)
    unfolding find_from
    find_from-Found zero it k b m enough late below small at ready fits = absurd (omega arith)
    find_from-Found (suc fuel) it k b m enough late below small at ready fits =
        let prior = if leb (p.n_pages / 4) it then false else b in
        or_else-Found m g (round p agg prior m g) _ (round-Outcome p d agg m fits prior g pos)
          (λ missed un. elim (ℕ_discrete k 0) [
            | yes now ↦
                let here : t ≡ m.page_ticket % p.n_pages =
                  sym at ∙ ap (λ x. x % p.n_pages) (omega (arith, now)) in
                let taken = Ready-taken agg m g (subst (Ready p m) here ready) in
                let last : prior ≡ false =
                  unspared (p.n_pages / 4) it b (omega (arith, late, now)) in
                absurd
                  (is_some-none (sym taken ∙ ap (λ b. (round p agg b m g).0) (sym last) ∙ missed))
            | no more ↦
                find_from-Found fuel (u32 (it + 1)) (k - 1) prior _ (omega (arith, more, enough))
                  (omega arith) (omega arith)
                  (omega (arith, small, next_ticket m.page_ticket _ k un.ticket small more))
                  (ap (λ x. x % p.n_pages) (next_ticket m.page_ticket _ k un.ticket small more)
                    ∙ at)
                  (Ready-on un t ready) (Fits-on un fits)
          ])
