-- ===== src/WbSlots/Placed.antt =====
-- bam/include/page_cache.h, `wb_find_slot` and `wb_find_slot_cpu_agg`: what one round does to the
-- slots and to the states of the pages.
use generic_asynchronous_io.Prelude.{
  ℕ, ◌+◌, ◌^◌, ◌<◌, ◌≡◌, ◌≢◌, ◌⊎◌, inl, inr, sym, arith, ap, ◌∙◌, false, ◌==◌, List, ◌++◌, Option,
  none, some, update, update_ne, u32, bit_or_bit, bit_and, bit_or, ℕ_discrete,
}
use generic_asynchronous_io.PageState.{busy, dirty, cnt_mask, disable_busy_mask}
use generic_asynchronous_io.PageState.Flags.{
  count_of, busy_of, test_count, clear_busy_word, or_busy,
}
use generic_asynchronous_io.CacheSlots.{free, unlocked}
use generic_asynchronous_io.Address.{previous_range, previous_address}
use generic_asynchronous_io.WbSlots.{Params, Write, WbCache, page_writes, never}
use generic_asynchronous_io.WbSlots.Within.{Within, queues}

module _ (p : Params) where
  abbrev pub range_in : WbCache → ℕ → ℕ
  range_in m t = previous_range p.max_range (m.page_translation t)

  abbrev pub address_in : WbCache → ℕ → ℕ
  address_in m t = previous_address p.max_range (m.page_translation t)

  -- The state of the page that has slot `t`.
  abbrev pub state_in : WbCache → ℕ → ℕ
  state_in m t = m.state (range_in m t) (address_in m t)

  -- A slot that no page has, or whose page nobody uses or loads.
  pub data Ready (m : WbCache) (t : ℕ) : Type 0 where
    unassigned : m.page_take_lock t ≡ free → Ready m t
    unused :
        m.page_take_lock t ≡ unlocked
        → count_of (state_in m t) ≡ 0
        → busy_of (state_in m t) ≡ 0
        → Ready m t

  -- Slot `t` has gone to the page `global_address`.
  pub record Placed (m : WbCache) (global_address t : ℕ) (m' : WbCache) : Type 0 where
    pub below : t < p.n_pages
    pub was_ready : Ready m t
    pub lock : m'.page_take_lock t ≡ unlocked
    pub other_locks : (j : ℕ) → t ≢ j → m'.page_take_lock j ≡ m.page_take_lock j
    pub translations :
        (j : ℕ) → m'.page_translation j ≡ update m.page_translation t global_address j
    pub reuses : (j : ℕ) → m'.next_reuse j ≡ update m.next_reuse t never j
    pub ousted : m.page_take_lock t ≡ unlocked → m'.state (range_in m t) (address_in m t) ≡ 0
    pub written :
        m.page_take_lock t ≡ unlocked
        → (bit_and (state_in m t) dirty == 0) ≡ false
        → (before : List Write) × (m'.writes
            ≡ before ++ page_writes p t (range_in m t) (address_in m t))
    pub states : (r a : ℕ) → (range_in m t ≢ r) ⊎ (address_in m t ≢ a) → m'.state r a ≡ m.state r a
    pub within : Within p (queues m) (queues m')

  -- A round that gets no slot.
  pub record Unmoved (m m' : WbCache) : Type 0 where
    pub ticket : m'.page_ticket ≡ u32 (m.page_ticket + 1)
    pub locks : (j : ℕ) → m'.page_take_lock j ≡ m.page_take_lock j
    pub translations : (j : ℕ) → m'.page_translation j ≡ m.page_translation j
    pub reuses : (j : ℕ) → m'.next_reuse j ≡ m.next_reuse j
    pub states : (r a : ℕ) → m'.state r a ≡ m.state r a
    pub within : Within p (queues m) (queues m')

  unfoldable pub Outcome : WbCache → (global_address : ℕ) → Option ℕ × WbCache → Type 0
  Outcome m global_address (some t, m') = Placed m global_address t m'
  Outcome m global_address (none, m') = Unmoved m m'

  unfoldable pub Fits : WbCache → Type 0
  Fits m = (r a : ℕ) → m.state r a < 2 ^ 32

  -- Slot `t` is locked in this round: of what a page or a slot has, only its own has changed.
  pub record Held (m : WbCache) (t : ℕ) (m' : WbCache) : Type 0 where
    pub other_locks : (j : ℕ) → t ≢ j → m'.page_take_lock j ≡ m.page_take_lock j
    pub translations : m'.page_translation ≡ m.page_translation
    pub reuses : m'.next_reuse ≡ m.next_reuse
    pub states : (r a : ℕ) → (range_in m t ≢ r) ⊎ (address_in m t ≢ a) → m'.state r a ≡ m.state r a
    pub within : Within p (queues m) (queues m')

-- A word that is written and gets back its value.
pub update_twice : (f : ℕ → ℕ) (i u v j : ℕ) → f i ≡ v → update (update f i u) i v j ≡ f j
update_twice f i u v j e = ground (arith, ap f {x = i} {y = j})

update_at {ℓ} : {A : Type ℓ} (f : ℕ → A) (i : ℕ) (v : A) (j : ℕ) → i ≡ j → update f i v j ≡ v
update_at f i v j e = ground (arith, e)

abbrev pub store : (ℕ → ℕ → ℕ) → (range address w : ℕ) → ℕ → ℕ → ℕ
store s range address w = update s range (update (s range) address w)

-- The word stored, where `(r, a)` is its place.
pub store_at :
    (s : ℕ → ℕ → ℕ) (range address w r a : ℕ)
    → range ≡ r
    → address ≡ a
    → store s range address w r a ≡ w
store_at s range address w r a e e' =
    ap (λ f. f a) (update_at s range (update (s range) address w) r e)
    ∙ update_at (s range) address w a e'

pub store_other :
    (s : ℕ → ℕ → ℕ) (range address w r a : ℕ)
    → (range ≢ r) ⊎ (address ≢ a)
    → store s range address w r a ≡ s r a
store_other s range address w r a (inl ne) =
    ap (λ f. f a) (update_ne s range r (update (s range) address w) ne)
store_other s range address w r a (inr ne) = elim (ℕ_discrete range r) [
  | yes same ↦
      ap (λ f. f a) (update_at s range (update (s range) address w) r same)
      ∙ update_ne (s range) address a w ne
      ∙ ap (λ i. s i a) same
  | no other ↦ ap (λ f. f a) (update_ne s range r (update (s range) address w) other)
]

-- A place is the one of the page or another.
place_cases :
    (range address r a : ℕ) → ((range ≡ r) × (address ≡ a)) ⊎ ((range ≢ r) ⊎ (address ≢ a))
place_cases range address r a = elim (ℕ_discrete range r) [
  | yes e ↦ elim (ℕ_discrete address a) [ yes e' ↦ inl (e, e') | no ne ↦ inr (inr ne) ]
  | no ne ↦ inr (inl ne)
]

pub store_twice :
    (s : ℕ → ℕ → ℕ) (range address v w r a : ℕ)
    → s range address ≡ w
    → store (store s range address v) range address w r a ≡ s r a
store_twice s range address v w r a e = elim (place_cases range address r a) [
  | inl here ↦
      store_at (store s range address v) range address w r a here.0 here.1
      ∙ sym e
      ∙ ap (λ i. s i address) here.0
      ∙ ap (s r) here.1
  | inr there ↦
      store_other (store s range address v) range address w r a there
      ∙ store_other s range address v r a there
]

pub cleared : (w : ℕ) → w < 2 ^ 32 → count_of w ≡ 0 → bit_and (bit_or w busy) cnt_mask ≡ 0
cleared w h c = omega (arith, test_count (bit_or w busy), (or_busy w h).same_count)

pub restored : (w : ℕ) → w < 2 ^ 32 → busy_of w ≡ 0 → bit_and (bit_or w busy) disable_busy_mask ≡ w
restored w h b = omega (arith, bit_or_bit 30 w, clear_busy_word (bit_or w busy) (or_busy w h).fits)
