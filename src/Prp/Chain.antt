-- ===== src/Prp/Chain.antt =====
-- The walk of the device over the lists that `nvm_prp_list_chain` builds.
use generic_asynchronous_io.Prelude.{
  ℕ, suc, ◌+◌, ◌-◌, ◌*◌, ◌/◌, ◌^◌, ◌≤◌, ◌<◌, List, [], ◌∷◌, ◌++◌, ◌≡◌, ◌≢◌, refl, arith, some,
  length, ap, ap₂, sym, subst, ◌∙◌, dec_lt,
}
use mathlib.Core.Option
use generic_asynchronous_io.Prp.{
  PrpList, Memory, store, list_room, Filled, prp_list, chain_from, prp_list_chain,
}
use generic_asynchronous_io.Prp.Walk.{
  from, walk, Absent, IsChain, fill_elsewhere, fill_inside, from_shift, from-append, walk_last,
  walk_on_at,
}

chain_from_end :
    (m : Memory) (last : PrpList) (k n : ℕ) (rest : List PrpList) (f : ℕ → ℕ)
    → chain_from m last k n rest n f ≡ record { memory = m; used = n }
unfolding chain_from
chain_from_end m last k n [] f = refl
chain_from_end m last k n (list ∷ rest) f = ground arith

-- One call of `nvm_prp_list`.
module _ (m : Memory) (list : PrpList) (n : ℕ) (f : ℕ → ℕ) (pos : 0 < n) where
  prp_list-used : (prp_list m list n f).used ≡ list_room list n
  unfolding prp_list
  prp_list-used = ground arith

  prp_list_written :
      (j : ℕ) → j < (prp_list m list n f).used → (prp_list m list n f).memory list.vaddr j ≡ f j
  unfolding prp_list
  prp_list_written j h = ground (arith, fill_inside m list.vaddr f (list_room list n) j)

  prp_list_elsewhere : (v j : ℕ) → v ≢ list.vaddr → (prp_list m list n f).memory v j ≡ m v j
  unfolding prp_list
  prp_list_elsewhere v j h =
      ground (arith, fill_elsewhere m list.vaddr f (list_room list n) v j (λ e. h (sym e)))

module _ (size : ℕ) (small : size < 2 ^ 64) (two : 16 ≤ size) where
  -- What a chain of lists that covers pages `base` to `n_pages` has to be.
  record Chained (m : Memory) (lists : List PrpList) (base n_pages : ℕ) (f : ℕ → ℕ) (out : Filled)
      : Type 0 where
    all : out.used ≡ n_pages
    walked : walk out.memory lists (n_pages - base) ≡ some (from f base (n_pages - base))
    kept : (v j : ℕ) → Absent v lists → out.memory v j ≡ m v j

  -- One list more, at the state that `nvm_prp_list_chain` has on entering its loop body.
  module _ (m : Memory) (last next : PrpList) (n_prps n_pages : ℕ) (f : ℕ → ℕ)
      (more : n_prps < n_pages) (apart : last.vaddr ≢ next.vaddr)
      (sized : last.page_size ≡ size) where
    abbrev linked : Memory
    linked = store m last.vaddr (size / 8 - 1) next.ioaddr

    abbrev onward : Filled
    onward = prp_list linked next (n_pages - n_prps) (λ j. f (n_prps + j))

    onward_elsewhere : (v j : ℕ) → v ≢ next.vaddr → onward.memory v j ≡ linked v j
    onward_elsewhere =
        prp_list_elsewhere linked next (n_pages - n_prps) (λ j. f (n_prps + j)) (omega arith)

    linked_elsewhere : (v j : ℕ) → v ≢ last.vaddr → linked v j ≡ m v j
    unfolding store
    linked_elsewhere v j h = ground arith

    linked_below : (j : ℕ) → j < size / 8 - 1 → linked last.vaddr j ≡ m last.vaddr j
    unfolding store
    linked_below j h = ground arith

    linked_pointer : linked last.vaddr (size / 8 - 1) ≡ next.ioaddr
    unfolding store
    linked_pointer = ground arith

    chain_from_step :
        (rest : List PrpList)
        → chain_from m last (size / 8 - 1) n_prps (next ∷ rest) n_pages f
          ≡ chain_from onward.memory next onward.used (n_prps + onward.used) rest n_pages f
    unfolding chain_from
    chain_from_step rest = ground arith

    step-Chained :
        (rest : List PrpList) (base : ℕ) (out : Filled)
        → size / 8 < n_pages - base
        → n_prps ≡ base + (size / 8 - 1)
        → Absent last.vaddr (next ∷ rest)
        → ((j : ℕ) → j < size / 8 - 1 → m last.vaddr j ≡ f (base + j))
        → Chained onward.memory (next ∷ rest) n_prps n_pages f out
        → Chained m (last ∷ next ∷ rest) base n_pages f out
    step-Chained rest base out full e absent filled tail = record {
      all = tail.all;
      walked =
          walk_on_at out.memory last next rest (n_pages - base) (size / 8) (ap (λ t. t / 8) sized)
            (omega arith) (same (size / 8 - 1) ∙ linked_pointer)
          ∙ ap (λ t. Option.map (λ tl. from (out.memory last.vaddr) 0 (size / 8 - 1) ++ tl) t)
              (ap (walk out.memory (next ∷ rest)) (omega arith) ∙ tail.walked)
          ∙ ap some (
              ap₂ ◌++◌
                (from_shift (out.memory last.vaddr) f 0 base (size / 8 - 1)
                    (λ j p q. same j ∙ linked_below j (omega arith) ∙ filled j (omega arith))
                  ∙ ap (λ t. from f t (size / 8 - 1)) (omega arith))
                (ap (λ t. from f t (n_pages - n_prps)) e)
              ∙ from-append f base (size / 8 - 1) (n_pages - n_prps)
              ∙ ap (from f base) (omega arith));
      kept = λ v j a. tail.kept v j a.1 ∙ onward_elsewhere v j a.1.0 ∙ linked_elsewhere v j a.0;
    }
      where
        same : (j : ℕ) → out.memory last.vaddr j ≡ linked last.vaddr j
        same j = tail.kept last.vaddr j absent ∙ onward_elsewhere last.vaddr j apart

  list_room_fits :
      (list : PrpList) (n : ℕ) → list.page_size ≡ size → n ≤ size / 8 → list_room list n ≡ n
  unfolding list_room
  list_room_fits list n e h = ground arith

  list_room_full :
      (list : PrpList) (n : ℕ)
      → list.page_size ≡ size
      → size / 8 < n
      → list_room list n ≡ size / 8 - 1
  unfolding list_room
  list_room_full list n e h = ground arith

  end-Chained :
      (rest : List PrpList) (m : Memory) (last : PrpList) (base n_pages : ℕ) (f : ℕ → ℕ)
      → base < n_pages
      → n_pages - base ≤ last.page_size / 8
      → ((j : ℕ) → j < n_pages - base → m last.vaddr j ≡ f (base + j))
      → Chained m (last ∷ rest) base n_pages f (record { memory = m; used = n_pages })
  end-Chained rest m last base n_pages f lt fits filled = record {
    all = refl;
    walked =
        walk_last m last rest (n_pages - base) fits
        ∙ ap some (
            from_shift (m last.vaddr) f 0 base (n_pages - base) (λ j p q. filled j (omega arith))
            ∙ ap (λ t. from f t (n_pages - base)) (omega arith));
    kept = λ v j a. refl;
  }

  chain_from-Chained :
      (rest : List PrpList) (m : Memory) (last : PrpList) (base k n_pages : ℕ) (f : ℕ → ℕ)
      → IsChain size (last ∷ rest)
      → base < n_pages
      → n_pages - base ≤ suc (length rest) * (size / 8 - 1) + 1
      → k ≡ list_room last (n_pages - base)
      → ((j : ℕ) → j < k → m last.vaddr j ≡ f (base + j))
      → Chained m (last ∷ rest) base n_pages f (chain_from m last k (base + k) rest n_pages f)
  chain_from-Chained [] m last base k n_pages f c lt room e filled =
      let k_all : k ≡ n_pages - base = e ∙ list_room_fits last (n_pages - base) c.0 (omega arith) in
      rw
        (ap (λ t. chain_from m last k t [] n_pages f) {x = base + k} {y = n_pages} (omega arith)
          ∙ chain_from_end m last k n_pages [] f)
        (end-Chained [] m last base n_pages f lt (omega arith) (λ j h. filled j (omega arith)))
  chain_from-Chained (next ∷ rest) m last base k n_pages f c lt room e filled =
      elim (dec_lt (size / 8) (n_pages - base)) [
        | no fits ↦
            let k_all : k ≡ n_pages - base =
              e ∙ list_room_fits last (n_pages - base) c.0 (omega arith) in
            rw
              (ap (λ t. chain_from m last k t (next ∷ rest) n_pages f) {x = base + k} {y = n_pages}
                  (omega arith)
                ∙ chain_from_end m last k n_pages (next ∷ rest) f)
              (end-Chained (next ∷ rest) m last base n_pages f lt (omega arith)
                (λ j h. filled j (omega arith)))
        | yes full ↦
            let k_room : k ≡ size / 8 - 1 = e ∙ list_room_full last (n_pages - base) c.0 full in
            let more : base + k < n_pages = omega arith in
            let apart : last.vaddr ≢ next.vaddr = c.1.0 in
            let before = linked m last next (base + k) n_pages f more apart c.0 in
            let on = onward m last next (base + k) n_pages f more apart c.0 in
            let left = n_pages - (base + k) in
            let rest_f : ℕ → ℕ = λ j. f (base + k + j) in
            rw
              (ap (λ t. chain_from m last t (base + k) (next ∷ rest) n_pages f) k_room
                ∙ chain_from_step m last next (base + k) n_pages f more apart c.0 rest)
              (step-Chained m last next (base + k) n_pages f more apart c.0 rest base _ full
                (ap (λ t. base + t) k_room) c.1 (λ j h. filled j (omega arith))
                (chain_from-Chained rest on.memory next (base + k) on.used n_pages f c.2 more
                  (omega arith) (prp_list-used before next left rest_f (omega arith))
                  (prp_list_written before next left rest_f (omega arith))))
      ]

  -- `nvm_prp_list_chain` over lists of `size` bytes, 16 at least, on different pages that have room
  -- for all `n_pages > 0` addresses returns `n_pages`, the device finds exactly the addresses, in order, by
  -- following the chain, and no page that belongs to none of the lists is written.
  pub prp_list_chain_lem :
      (m : Memory) (first : PrpList) (rest : List PrpList) (n_pages : ℕ) (ioaddrs : ℕ → ℕ)
      → IsChain size (first ∷ rest)
      → 0 < n_pages
      → n_pages ≤ suc (length rest) * (size / 8 - 1) + 1
      → let out = prp_list_chain m (first ∷ rest) n_pages ioaddrs in
        (out.used ≡ n_pages)
        × (walk out.memory (first ∷ rest) n_pages ≡ some (from ioaddrs 0 n_pages))
        × ((v j : ℕ) → Absent v (first ∷ rest) → out.memory v j ≡ m v j)
  unfolding prp_list_chain
  prp_list_chain_lem m first rest n_pages ioaddrs c pos room =
      subst
        (λ (out : Filled).
          (out.used ≡ n_pages)
          × (walk out.memory (first ∷ rest) n_pages ≡ some (from ioaddrs 0 n_pages))
          × ((v j : ℕ) → Absent v (first ∷ rest) → out.memory v j ≡ m v j))
        start
        (
          chained.all,
          subst (λ t. walk last_of.memory (first ∷ rest) t ≡ some (from ioaddrs 0 t)) (omega arith)
              chained.walked,
          λ v j a. chained.kept v j a ∙ outside v j a.0,
        )
    where
      first_of : Filled
      first_of = prp_list m first n_pages ioaddrs

      last_of : Filled
      last_of =
          chain_from first_of.memory first first_of.used (0 + first_of.used) rest n_pages ioaddrs

      outside : (v j : ℕ) → v ≢ first.vaddr → first_of.memory v j ≡ m v j
      outside = prp_list_elsewhere m first n_pages ioaddrs pos

      chained : Chained first_of.memory (first ∷ rest) 0 n_pages ioaddrs last_of
      chained =
          chain_from-Chained rest first_of.memory first 0 first_of.used n_pages ioaddrs c pos
            (omega arith)
            (prp_list-used m first n_pages ioaddrs pos
              ∙ ap (list_room first) {x = n_pages} {y = n_pages - 0} (omega arith))
            (λ j h.
              prp_list_written m first n_pages ioaddrs pos j h
              ∙ ap ioaddrs {x = j} {y = 0 + j} (omega arith))

      start : last_of ≡ prp_list_chain m (first ∷ rest) n_pages ioaddrs
      start =
          ap (λ t. chain_from first_of.memory first first_of.used t rest n_pages ioaddrs)
            (omega arith)
