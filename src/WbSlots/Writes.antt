-- ===== src/WbSlots/Writes.antt =====
-- bam/include/page_cache.h, `wb_find_slot` and `wb_find_slot_cpu_agg`: the queues for the CPU are
-- filled without a write to a controller.
use generic_asynchronous_io.Prelude.{ℕ, zero, suc, ◌≡◌, refl, ◌∙◌, Bool, ◌==◌, ltb, if-both, ◌>>>◌}
use generic_asynchronous_io.WbSlots.{
  Params, WbCache, agg_entry, agg_sec, agg_from, agg_chunks, chunks_unused, reset_chunks, counted,
  queued, id_entry, cur_head, hand_over,
}

module _ (p : Params) where
  -- No write has come since `m`.
  Silent : WbCache → WbCache → Type 0
  Silent m m' = m'.writes ≡ m.writes

  agg_sec-Silent : (m : WbCache) (page v sec : ℕ) → (agg_sec p m page v sec).writes ≡ m.writes
  unfolding agg_sec agg_entry Silent
  agg_sec-Silent m page v sec = if-both (Silent m) (m.reuse_chunk page sec >>> 48 == v) refl (
      if-both (Silent m) (ltb (m.reuse_chunk page sec >>> 48) 65535)
        (if-both (Silent m) _ refl refl) refl)

  agg_from-Silent :
      (left : ℕ) (m : WbCache) (page v sec : ℕ) → Silent m (agg_from p left m page v sec)
  unfolding agg_from Silent
  agg_from-Silent zero m page v sec = refl
  agg_from-Silent (suc left) m page v sec =
      agg_from-Silent left (agg_sec p m page v sec) page v (suc sec) ∙ agg_sec-Silent m page v sec

  agg_chunks-Silent : (agg : Bool) (m : WbCache) (page v : ℕ) → Silent m (agg_chunks p agg m page v)
  unfolding agg_chunks Silent
  agg_chunks-Silent agg m page v = if-both (Silent m) agg (agg_from-Silent 8 m page v 0) refl

  id_entry-Silent :
      (agg : Bool) (m : WbCache) (page head full : ℕ) → Silent m (id_entry p agg m page head full)
  unfolding id_entry Silent
  id_entry-Silent agg m page head full =
      if-both (Silent m) (ltb (m.wb_queue_counter head) p.q_depth)
        {x = agg_chunks p agg (queued p m head full) page (full >>> 48)} {y = counted p m head full}
        (agg_chunks-Silent agg (queued p m head full) page (full >>> 48)) refl

  pub hand_over-Silent :
      (agg : Bool) (m : WbCache) (page : ℕ) → (hand_over p agg m page).writes ≡ m.writes
  unfolding hand_over Silent
  hand_over-Silent agg m page =
      if-both (Silent m) (ltb (m.next_reuse page >>> 48) 65535)
        {x = id_entry p agg m page (cur_head p (m.next_reuse page >>> 48)) (m.next_reuse page)}
        {y = m}
        (id_entry-Silent agg m page (cur_head p (m.next_reuse page >>> 48)) (m.next_reuse page))
        refl

  pub reset_chunks-Silent :
      (agg : Bool) (m : WbCache) (page : ℕ) → (reset_chunks p agg m page).writes ≡ m.writes
  unfolding reset_chunks Silent
  reset_chunks-Silent agg m page =
      if-both (Silent m) agg {x = chunks_unused p m page} {y = m} refl refl
