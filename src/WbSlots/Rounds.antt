-- ===== src/WbSlots/Rounds.antt =====
-- bam/include/page_cache.h, `wb_find_slot` and `wb_find_slot_cpu_agg`: the branches of one round.
use native.Mathlib.Nat.{mod-lt}
use generic_asynchronous_io.Prelude.{
  ℕ, ◌+◌, ◌%◌, ◌<◌, ◌≡◌, refl, sym, arith, ap, ◌∙◌, Bool, true, false, ◌&&◌, ◌==◌, ==_iff, ltb,
  List, ◌++◌, if◌then◌else◌, if-both, if-when, if_false, update, update_self, update_ne, u32,
  bit_and, bit_or, ◌>>>◌,
}
use generic_asynchronous_io.PageState.{busy, dirty, cnt_mask, disable_busy_mask}
use generic_asynchronous_io.PageState.Flags.{count_of, busy_of, test_count, test_busy}
use generic_asynchronous_io.CacheSlots.{free, unlocked, locked}
use generic_asynchronous_io.WbSlots.{
  Params, Write, WbCache, page_writes, never, with_lock, with_state, write_back, hand_over, assign,
  evict, round, reset_chunks,
}
use generic_asynchronous_io.WbSlots.Within.{
  Depths, Within-refl, Within-trans, Handed, Handed-refl, Handed-trans, write_back-Handed,
}
use generic_asynchronous_io.WbSlots.Queues.{hand_over-Handed, reset_chunks-Handed}
use generic_asynchronous_io.WbSlots.Writes.{hand_over-Silent, reset_chunks-Silent}
use generic_asynchronous_io.WbSlots.Placed.{
  range_in, address_in, state_in, Ready, unassigned, unused, Placed, Unmoved, Outcome, Fits, Held,
  update_twice, store, store_at, store_other, store_twice, cleared, restored,
}

both_zero : (a b : ℕ) → ((a == 0) && (b == 0)) ≡ true → (a ≡ 0) × (b ≡ 0)
both_zero a b e = ground (arith, e)

module _ (p : Params) (d : Depths p) where
  assign-Placed :
      (agg : Bool) (m m1 : WbCache) (t g : ℕ)
      → t < p.n_pages
      → Ready p m t
      → Held p m t m1
      → (m.page_take_lock t ≡ unlocked → m1.state (range_in p m t) (address_in p m t) ≡ 0)
      → (m.page_take_lock t ≡ unlocked
          → (bit_and (state_in p m t) dirty == 0) ≡ false
          → (before : List Write) × (m1.writes
              ≡ before ++ page_writes p t (range_in p m t) (address_in p m t)))
      → Placed p m g t (assign p agg m1 t g)
  unfolding assign
  assign-Placed agg m m1 t g below ready held ousted written =
      let h = reset_chunks-Handed {p = p} agg m1 t in
      record {
        below = below;
        was_ready = ready;
        lock = update_self (reset_chunks p agg m1 t).page_take_lock t unlocked;
        other_locks = λ j ne.
            update_ne (reset_chunks p agg m1 t).page_take_lock t j unlocked ne
            ∙ ap (λ f. f j) h.locks
            ∙ held.other_locks j ne;
        translations = λ j. ap (λ f. update f t g j) (h.translations ∙ held.translations);
        reuses = λ j. ap (λ f. update f t never j) (h.reuses ∙ held.reuses);
        ousted = λ was. ap (λ f. f (range_in p m t) (address_in p m t)) h.states ∙ ousted was;
        written = λ was is_dirty.
            let w = written was is_dirty in (w.0, reset_chunks-Silent p agg m1 t ∙ w.1);
        states = λ r a ne. ap (λ f. f r a) h.states ∙ held.states r a ne;
        within = Within-trans held.within h.within;
      }

  module _ (agg : Bool) (m : WbCache) (fits : Fits p m) where
    abbrev page : ℕ
    page = m.page_ticket % p.n_pages

    -- The ticket is drawn and the slot locked.
    abbrev taken : WbCache
    taken = with_lock (record m { page_ticket = u32 (m.page_ticket + 1) }) page locked

    abbrev old : ℕ
    old = state_in p m page

    -- The page that has the slot is busy, and what it must write is written.
    abbrev set : WbCache
    set = with_state taken (range_in p m page) (address_in p m page) (bit_or old busy)

    abbrev written : WbCache
    written =
        if bit_and old dirty == 0
        then set
        else write_back p set page (range_in p m page) (address_in p m page)

    written-Handed : Handed p set written
    written-Handed =
        if-both (Handed p set) (bit_and old dirty == 0) Handed-refl
          (write_back-Handed set page (range_in p m page) (address_in p m page))

    written-writes :
        (bit_and old dirty == 0) ≡ false
        → written.writes ≡ m.writes ++ page_writes p page (range_in p m page) (address_in p m page)
    unfolding write_back
    written-writes is_dirty =
        ap (λ x. x.writes)
          (if_false set (write_back p set page (range_in p m page) (address_in p m page)) is_dirty)

    taken-Held : Held p m page taken
    taken-Held = record {
      other_locks = λ j ne. update_ne m.page_take_lock page j locked ne;
      translations = refl;
      reuses = refl;
      states = λ r a ne. refl;
      within = Within-refl;
    }

    -- The word is restored and the lock opened: nothing has changed.
    kept-Unmoved :
        m.page_take_lock page ≡ unlocked
        → busy_of old ≡ 0
        → Unmoved p m (
            with_lock
              (with_state written
                (range_in p m page)
                (address_in p m page)
                (bit_and (bit_or old busy) disable_busy_mask))
              page
              unlocked)
    unfolding Fits
    kept-Unmoved was idle = record {
      ticket = written-Handed.ticket;
      locks = λ j.
          ap (λ f. update f page unlocked j) written-Handed.locks
          ∙ update_twice m.page_take_lock page locked unlocked j was;
      translations = λ j. ap (λ f. f j) written-Handed.translations;
      reuses = λ j. ap (λ f. f j) written-Handed.reuses;
      states = λ r a.
          ap
            (λ s.
              store s (range_in p m page) (address_in p m page)
                (bit_and (bit_or old busy) disable_busy_mask) r a)
            written-Handed.states
          ∙ store_twice m.state (range_in p m page) (address_in p m page) _ _ r a
              (sym (restored old (fits _ _) idle));
      within = written-Handed.within;
    }

    gone-Placed :
        (g : ℕ)
        → 0 < p.n_pages
        → m.page_take_lock page ≡ unlocked
        → count_of old ≡ 0
        → busy_of old ≡ 0
        → Placed p m g page (
            assign p agg
              (with_state
                (hand_over p agg written page)
                (range_in p m page)
                (address_in p m page)
                (bit_and (bit_or old busy) cnt_mask))
              page
              g)
    unfolding Fits
    gone-Placed g pos was idle quiet =
        let h = Handed-trans written-Handed (hand_over-Handed d agg written page) in
        assign-Placed agg m _ page g (mod-lt _ pos) (unused was idle quiet)
          (record {
            other_locks = λ j ne. ap (λ f. f j) h.locks ∙ taken-Held.other_locks j ne;
            translations = h.translations;
            reuses = h.reuses;
            states = λ r a ne.
                store_other (hand_over p agg written page).state (range_in p m page)
                  (address_in p m page) _ r a ne
                ∙ ap (λ f. f r a) h.states
                ∙ store_other m.state (range_in p m page) (address_in p m page) _ r a ne;
            within = h.within;
          })
          (λ _.
            store_at (hand_over p agg written page).state (range_in p m page) (address_in p m page)
              _ _ _ refl refl
            ∙ cleared old (fits _ _) idle)
          (λ _ is_dirty. (m.writes, hand_over-Silent p agg written page ∙ written-writes is_dirty))

    evict-Outcome :
        (prior : Bool) (g : ℕ)
        → 0 < p.n_pages
        → m.page_take_lock page ≡ unlocked
        → count_of old ≡ 0
        → busy_of old ≡ 0
        → Outcome p m g (evict p agg prior taken page g)
    unfolding evict Outcome
    evict-Outcome prior g pos was idle quiet =
        if-both (Outcome p m g) (ltb (m.next_reuse page >>> 48) 16 && prior)
          (kept-Unmoved was quiet) (gone-Placed g pos was idle quiet)

    -- Slot `page` is locked and unlocked again.
    tried-Unmoved : m.page_take_lock page ≡ unlocked → Unmoved p m (with_lock taken page unlocked)
    tried-Unmoved was = record {
      ticket = refl;
      locks = λ j. update_twice m.page_take_lock page locked unlocked j was;
      translations = λ j. refl;
      reuses = λ j. refl;
      states = λ r a. refl;
      within = Within-refl;
    }

    missed-Unmoved : Unmoved p m (record m { page_ticket = u32 (m.page_ticket + 1) })
    missed-Unmoved = record {
      ticket = refl;
      locks = λ j. refl;
      translations = λ j. refl;
      reuses = λ j. refl;
      states = λ r a. refl;
      within = Within-refl;
    }

    pub round-Outcome :
        (prior : Bool) (g : ℕ) → 0 < p.n_pages → Outcome p m g (round p agg prior m g)
    unfolding round Outcome
    round-Outcome prior g pos =
        if-when (Outcome p m g) (m.page_take_lock page == free)
          (λ is_free.
            let e = (==_iff (m.page_take_lock page) free).0 is_free in
            assign-Placed agg m taken page g (mod-lt m.page_ticket pos) (unassigned e) taken-Held
              (λ is_unlocked. absurd (omega (arith, e, is_unlocked)))
              (λ is_unlocked _. absurd (omega (arith, e, is_unlocked))))
          (λ _.
            if-when (Outcome p m g) (m.page_take_lock page == unlocked)
              (λ is_unlocked.
                let was = (==_iff (m.page_take_lock page) unlocked).0 is_unlocked in
                if-when (Outcome p m g) ((bit_and old cnt_mask == 0) && (bit_and old busy == 0))
                  (λ both.
                    let e = both_zero (bit_and old cnt_mask) (bit_and old busy) both in
                    evict-Outcome prior g pos was (omega (arith, test_count old, e.0))
                      (omega (arith, test_busy old, e.1)))
                  (λ _. tried-Unmoved was))
              (λ _. missed-Unmoved))
