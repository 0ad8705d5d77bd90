-- ===== src/CacheSlots/Safety.antt =====
-- What the page cache promises, at every state that at most 2^23 threads can bring it to.
use generic_asynchronous_io.Prelude.{ℕ, ◌^◌, ◌≤◌, ◌≡◌, ◌≢◌, sym, ◌∙◌}
use generic_asynchronous_io.CacheSlots.{System, Reach, free}
use generic_asynchronous_io.CacheSlots.Claims.{Uses, Takes, by_user}
use generic_asynchronous_io.CacheSlots.Invariant.{Reach-Inv}

module _ {n_pages threads : ℕ} {s : System} (room : threads ≤ 2 ^ 23)
    (r : Reach n_pages threads s) where
  -- In every state that at most 2^23 threads can reach, with any number of slots and pages: two
  -- threads never have one slot for two pages, from the return of `find_slot` or the load of
  -- `offset` to `release_page`.
  pub slot_apart : (i j p q t : ℕ) → p ≢ q → Uses p t (s.pc i) → ¬ Uses q t (s.pc j)
  slot_apart i j p q t ne hi hj =
      let inv = Reach-Inv room r in
      ne (
        sym (inv.claims t p (by_user i hi)).translation
        ∙ (inv.claims t q (by_user j hj)).translation)

  -- In every state that at most 2^23 threads can reach: the slot that a thread has for a page is
  -- assigned to that page and not free, and no thread is about to assign it anew.
  pub user_slot :
      (i p t : ℕ)
      → Uses p t (s.pc i)
      → (s.cache.page_translation t ≡ p)
        × (s.cache.page_take_lock t ≢ free)
        × ((j : ℕ) → ¬ Takes t (s.pc j))
  user_slot i p t h =
      let inv = Reach-Inv room r in
      let a = inv.claims t p (by_user i h) in
      (a.translation, a.in_use, λ j k. inv.untaken j t p k (by_user i h))
