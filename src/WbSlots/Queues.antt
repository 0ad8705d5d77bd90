-- ===== src/WbSlots/Queues.antt =====
-- bam/include/page_cache.h, `wb_find_slot` and `wb_find_slot_cpu_agg`: how the queues for the CPU are
-- filled.
use native.Mathlib.Nat.{mod-lt, mul-le-mul_left}
use generic_asynchronous_io.Prelude.{
  ℕ, zero, suc, ◌+◌, ◌*◌, ◌%◌, ◌^◌, ◌≤◌, ◌<◌, ◌≡◌, refl, arith, Bool, ◌==◌, ltb, ltb→lt, if-both,
  if-when, update, update_ne, u32, u64, bit_and, ◌>>>◌,
}
use generic_asynchronous_io.WbSlots.{
  Params, WbCache, agg_entry, agg_sec, agg_from, agg_chunks, chunks_unused, reset_chunks, counted,
  queued, cur_head, id_entry, hand_over, id_mask,
}
use generic_asynchronous_io.WbSlots.Within.{Depths, Handed, Handed-refl, Handed-trans}

-- Entry `count` of the queue `head`, of `depth` entries, lies in the array.
entry_below :
    (depth heads count head : ℕ)
    → count < depth
    → head < heads
    → depth * heads ≤ 2 ^ 32
    → u32 (count + u32 (depth * head)) < depth * heads
entry_below depth heads count head c h most =
    grind (arith, mul-le-mul_left {m = suc head} {n = heads} depth h)

module _ {p : Params} where
  module _ (d : Depths p) where
    queued_at :
        (depth : ℕ) (f : ℕ → ℕ) (count head v j : ℕ)
        → depth * p.wb_depth ≤ 2 ^ 32
        → count < depth
        → head < p.wb_depth
        → depth * p.wb_depth ≤ j
        → update f (u32 (count + u32 (depth * head))) v j ≡ f j
    queued_at depth f count head v j most c h le =
        update_ne f _ j v (omega (arith, entry_below depth p.wb_depth count head c h most))

    counted_at :
        (f : ℕ → ℕ) (head v j : ℕ) → head < p.wb_depth → p.wb_depth ≤ j → update f head v j ≡ f j
    counted_at f head v j h le = update_ne f head j v (omega (arith, h, le))

    sec_head_below : (x : ℕ) → u32 (u64 x % p.wb_depth) < p.wb_depth
    sec_head_below x = grind (arith, mod-lt (u64 x) d.some_queue)

    cur_head_below : (v : ℕ) → cur_head p v < p.wb_depth
    unfolding cur_head
    cur_head_below v = mod-lt _ d.some_queue

    agg_entry-Handed :
        (m : WbCache) (head ptr loc : ℕ)
        → head < p.wb_depth
        → Handed p m (agg_entry p m head ptr loc)
    unfolding agg_entry
    agg_entry-Handed m head ptr loc h =
        if-when (Handed p m) (ltb (m.cpu_agg_queue_counter head) p.cpu_agg_queue_depth)
          (λ room.
            let below = ltb→lt (m.cpu_agg_queue_counter head) p.cpu_agg_queue_depth room in
            record {
              ticket = refl;
              locks = refl;
              translations = refl;
              reuses = refl;
              states = refl;
              within = record {
                ids = λ j le. refl;
                counters = λ j le. refl;
                agg_counters = λ j le. counted_at m.cpu_agg_queue_counter head _ j h le;
                metas = λ j le.
                    queued_at p.cpu_agg_queue_depth m.cpu_agg_meta_queue _ head ptr j d.aggs below h
                      le;
                locs = λ j le.
                    queued_at p.cpu_agg_queue_depth m.cpu_agg_loc_queue _ head loc j d.aggs below h
                      le;
              };
            })
          (λ full. record {
            ticket = refl;
            locks = refl;
            translations = refl;
            reuses = refl;
            states = refl;
            within = record {
              ids = λ j le. refl;
              counters = λ j le. refl;
              agg_counters = λ j le. counted_at m.cpu_agg_queue_counter head _ j h le;
              metas = λ j le. refl;
              locs = λ j le. refl;
            };
          })

    agg_sec-Handed : (m : WbCache) (page v sec : ℕ) → Handed p m (agg_sec p m page v sec)
    unfolding agg_sec
    agg_sec-Handed m page v sec =
        if-both (Handed p m) (m.reuse_chunk page sec >>> 48 == v) Handed-refl (
          if-both (Handed p m) (ltb (m.reuse_chunk page sec >>> 48) 65535)
            (agg_entry-Handed m _ _ _ (sec_head_below (m.reuse_chunk page sec >>> 48 + p.head_ptr)))
            Handed-refl)

    agg_from-Handed :
        (left : ℕ) (m : WbCache) (page v sec : ℕ) → Handed p m (agg_from p left m page v sec)
    unfolding agg_from
    agg_from-Handed zero m page v sec = Handed-refl
    agg_from-Handed (suc left) m page v sec =
        Handed-trans (agg_sec-Handed m page v sec) (agg_from-Handed left _ page v (suc sec))

    agg_chunks-Handed :
        (agg : Bool) (m : WbCache) (page v : ℕ) → Handed p m (agg_chunks p agg m page v)
    unfolding agg_chunks
    agg_chunks-Handed agg m page v =
        if-both (Handed p m) agg (agg_from-Handed 8 m page v 0) Handed-refl

    counted-Handed :
        (m : WbCache) (head full : ℕ) → head < p.wb_depth → Handed p m (counted p m head full)
    counted-Handed m head full h = record {
      ticket = refl;
      locks = refl;
      translations = refl;
      reuses = refl;
      states = refl;
      within = record {
        ids = λ j le. refl;
        counters = λ j le. counted_at m.wb_queue_counter head _ j h le;
        agg_counters = λ j le. refl;
        metas = λ j le. refl;
        locs = λ j le. refl;
      };
    }

    queued-Handed :
        (m : WbCache) (head full : ℕ)
        → m.wb_queue_counter head < p.q_depth
        → head < p.wb_depth
        → Handed p m (queued p m head full)
    queued-Handed m head full room h = record {
      ticket = refl;
      locks = refl;
      translations = refl;
      reuses = refl;
      states = refl;
      within = record {
        ids = λ j le.
            queued_at p.q_depth m.id_array (m.wb_queue_counter head) head (bit_and full id_mask) j
              d.ids room h le;
        counters = λ j le. counted_at m.wb_queue_counter head _ j h le;
        agg_counters = λ j le. refl;
        metas = λ j le. refl;
        locs = λ j le. refl;
      };
    }

    id_entry-Handed :
        (agg : Bool) (m : WbCache) (page head full : ℕ)
        → head < p.wb_depth
        → Handed p m (id_entry p agg m page head full)
    unfolding id_entry
    id_entry-Handed agg m page head full h =
        if-when (Handed p m) (ltb (m.wb_queue_counter head) p.q_depth)
          (λ room.
            Handed-trans
              (queued-Handed m head full (ltb→lt (m.wb_queue_counter head) p.q_depth room) h)
              (agg_chunks-Handed agg (queued p m head full) page (full >>> 48)))
          (λ none_left. counted-Handed m head full h)

    pub hand_over-Handed :
        (agg : Bool) (m : WbCache) (page : ℕ) → Handed p m (hand_over p agg m page)
    unfolding hand_over
    hand_over-Handed agg m page =
        if-both (Handed p m) (ltb (m.next_reuse page >>> 48) 65535)
          (id_entry-Handed agg m page _ _ (cur_head_below (m.next_reuse page >>> 48))) Handed-refl

  chunks_unused-Handed : (m : WbCache) (page : ℕ) → Handed p m (chunks_unused p m page)
  chunks_unused-Handed m page = record {
    ticket = refl;
    locks = refl;
    translations = refl;
    reuses = refl;
    states = refl;
    within = record {
      ids = λ j le. refl;
      counters = λ j le. refl;
      agg_counters = λ j le. refl;
      metas = λ j le. refl;
      locs = λ j le. refl;
    };
  }

  pub reset_chunks-Handed :
      (agg : Bool) (m : WbCache) (page : ℕ) → Handed p m (reset_chunks p agg m page)
  unfolding reset_chunks
  reset_chunks-Handed agg m page =
      if-both (Handed p m) agg (chunks_unused-Handed m page) Handed-refl
