-- ===== src/WbSlots/Returns.antt =====
-- bam/include/page_cache.h, `wb_find_slot` and `wb_find_slot_cpu_agg`: what the two of them do.
use generic_asynchronous_io.Prelude.{
  ℕ, zero, suc, ◌+◌, ◌/◌, ◌%◌, ◌^◌, ◌≤◌, ◌<◌, arith, ap, ◌∙◌, Bool, true, false, leb, if◌then◌else◌,
  Option, none, some, u32,
}
use generic_asynchronous_io.Address.{get_global_address}
use generic_asynchronous_io.WbSlots.{
  Params, WbCache, round, or_else, find_from, wb_find_slot, wb_find_slot_cpu_agg,
}
use generic_asynchronous_io.WbSlots.Within.{Depths, Within, queues, Within-refl, Within-trans}
use generic_asynchronous_io.WbSlots.Placed.{Ready, Unmoved, Outcome, Fits}
use generic_asynchronous_io.WbSlots.Rounds.{round-Outcome}
use generic_asynchronous_io.WbSlots.Found.{comes, Found, find_from-Found, Fits-on}

module _ (p : Params) (d : Depths p) where
  -- Where a slot is ready, enough rounds find one, of either kind.
  found_by :
      (agg : Bool) (fuel : ℕ) (m : WbCache) (g t : ℕ)
      → t < p.n_pages
      → Ready p m t
      → Fits p m
      → p.n_pages / 4 + p.n_pages ≤ fuel
      → m.page_ticket + (p.n_pages / 4 + p.n_pages) ≤ 2 ^ 32
      → Found p m g (find_from p agg fuel 0 true m g)
  found_by agg fuel m g t lt ready fits enough small =
      let k = comes p.n_pages (m.page_ticket + p.n_pages / 4) t lt in
      find_from-Found p d (omega (arith, lt)) agg g t fuel 0 (p.n_pages / 4 + k.0) true m
        (omega (arith, k.1, enough)) (omega arith) (omega (arith, k.1, small))
        (omega (arith, k.1, small)) (ap (λ x. x % p.n_pages) (omega arith) ∙ k.2) ready fits

  or_else-Within :
      (m : WbCache) (g : ℕ) (first rest : Option ℕ × WbCache)
      → Outcome p m g first
      → (Unmoved p m first.1 → Within p (queues first.1) (queues rest.1))
      → Within p (queues m) (queues (or_else p first rest).1)
  unfolding Outcome
  or_else-Within m g (some t, m1) rest placed later = placed.within
  or_else-Within m g (none, m1) rest unmoved later = Within-trans unmoved.within (later unmoved)

  find_from-Within :
      (agg : Bool) (fuel iter_count : ℕ) (evict_prior : Bool) (m : WbCache) (g : ℕ)
      → 0 < p.n_pages
      → Fits p m
      → Within p (queues m) (queues (find_from p agg fuel iter_count evict_prior m g).1)
  unfolding find_from
  find_from-Within agg zero it b m g pos fits = Within-refl
  find_from-Within agg (suc fuel) it b m g pos fits =
      let prior = if leb (p.n_pages / 4) it then false else b in
      let first = round p agg prior m g in
      let rest = find_from p agg fuel (u32 (it + 1)) prior first.1 g in
      or_else-Within m g first rest (round-Outcome p d agg m fits _ g pos)
        (λ un. find_from-Within agg fuel (u32 (it + 1)) prior first.1 g pos (Fits-on p un fits))

  -- While no other thread moves, wb_find_slot and wb_find_slot_cpu_agg return where some slot is
  -- free or unlocked with a page that is neither in use nor busy: within n_pages / 4 + n_pages rounds,
  -- where the ticket does not wrap meanwhile, the states fit 32 bits and the queues have valid
  -- depths. The slot that is returned was such a slot; it is unlocked again, belongs to the page
  -- asked for, and has no reuse recorded. If a page had it, that page's state is 0, and if the
  -- page was dirty its writes are the last to have gone out. The other slots keep lock, page and reuse,
  -- all other pages their state, and nothing is written beyond the queues for the CPU.
  pub wb_find_slot-Found :
      (fuel : ℕ) (m : WbCache) (address range_id t : ℕ)
      → t < p.n_pages
      → Ready p m t
      → Fits p m
      → p.n_pages / 4 + p.n_pages ≤ fuel
      → m.page_ticket + (p.n_pages / 4 + p.n_pages) ≤ 2 ^ 32
      → Found p m
          (get_global_address p.max_range address range_id)
          (wb_find_slot p fuel m address range_id)
        × Found p m
            (get_global_address p.max_range address range_id)
            (wb_find_slot_cpu_agg p fuel m address range_id)
  unfolding wb_find_slot wb_find_slot_cpu_agg
  wb_find_slot-Found fuel m address range_id t lt ready fits enough small = (
    found_by false fuel m _ t lt ready fits enough small,
    found_by true fuel m _ t lt ready fits enough small,
  )

  -- However many rounds they make, wb_find_slot and wb_find_slot_cpu_agg write to no entry of
  -- id_array, wb_queue_counter, cpu_agg_queue_counter, cpu_agg_meta_queue and cpu_agg_loc_queue at
  -- or beyond the product of depth and number of queues, where there is a queue, a slot, the
  -- products fit 32 bits and the states of the pages do.
  pub wb_find_slot-Within :
      (fuel : ℕ) (m : WbCache) (address range_id : ℕ)
      → 0 < p.n_pages
      → Fits p m
      → Within p (queues m) (queues (wb_find_slot p fuel m address range_id).1)
        × Within p (queues m) (queues (wb_find_slot_cpu_agg p fuel m address range_id).1)
  unfolding wb_find_slot wb_find_slot_cpu_agg
  wb_find_slot-Within fuel m address range_id pos fits = (
    find_from-Within false fuel 0 true m _ pos fits,
    find_from-Within true fuel 0 true m _ pos fits,
  )
