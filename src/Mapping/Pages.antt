-- ===== src/Mapping/Pages.antt =====
-- Pinning the pages of a process and mapping each of them.
use generic_asynchronous_io.Prelude.{
  ◌⊎◌, ℕ, zero, suc, ◌+◌, ◌≤◌, ◌<◌, ◌≡◌, ◌≢◌, inl, inr, refl, sym, ap, ap₂, ◌∙◌, subst, arith, true,
  false, not, ◌==◌, if_true, if_false, Bool-cases, List, [], ◌∷◌, ◌++◌, map, length, set, take,
  some, length-set,
}
use generic_asynchronous_io.Mapping.{
  release_user, Map, Pinned, pin_failed, pinned, Kernel, page_size, enomem, map_pages_from,
  with_pages, map_user_pages,
}

take-set : (xs : List ℕ) (i v : ℕ) → i < length xs → take (suc i) (set xs i v) ≡ take i xs ++ v ∷ []
take-set [] i v h = absurd (omega (arith, h))
take-set (x ∷ xs) zero v h = refl
take-set (x ∷ xs) (suc i) v h = ap (λ t. x ∷ t) (take-set xs i v (omega (arith, h)))

pub append-snoc : (xs : List ℕ) (y : ℕ) (zs : List ℕ) → (xs ++ y ∷ []) ++ zs ≡ xs ++ y ∷ zs
append-snoc [] y zs = refl
append-snoc (x ∷ xs) y zs = ap (λ t. x ∷ t) (append-snoc xs y zs)

-- The pages are mapped without an error.
abbrev pub AllMapped : Kernel → List ℕ → Type 0
AllMapped k [] = Unit {0}
AllMapped k (page ∷ pages) = (k.dma_mapping_error (k.dma_map_page page) ≡ 0) × AllMapped k pages

pub equal : (a : ℕ) → (a == 0) ≡ true → a ≡ 0
equal a e = ground (arith, e)

pub unequal : (a : ℕ) → (a == 0) ≡ false → a ≢ 0
unequal a e = λ q. ground (arith, e, q)

module _ (k : Kernel) where
  pub append_nil : (xs : List ℕ) → xs ++ [] ≡ xs
  append_nil [] = refl
  append_nil (x ∷ xs) = ap (λ t. x ∷ t) (append_nil xs)

  map_pages_lem :
      (pages : List ℕ) (i : ℕ) (addrs : List ℕ)
      → i + length pages ≤ length addrs
      → (map_pages_from k pages i addrs).0 ≡ 0
      → AllMapped k pages
        × (take (i + length pages) (map_pages_from k pages i addrs).1
            ≡ take i addrs ++ map (k.dma_map_page) pages)
  unfolding map_pages_from
  map_pages_lem [] i addrs room e =
      (tt, ap (λ n. take n addrs) (omega arith) ∙ sym (append_nil (take i addrs)))
  map_pages_lem (page ∷ pages) i addrs room e =
      let addr = k.dma_map_page page in
      let addrs1 = set addrs i addr in
      let failed : ℕ × List ℕ = (k.dma_mapping_error addr, addrs1) in
      let rest = map_pages_from k pages (suc i) addrs1 in
      elim (Bool-cases (k.dma_mapping_error addr == 0)) [
        | inr bad ↦ absurd (
            unequal (k.dma_mapping_error addr) bad
              (ap (λ (r : ℕ × List ℕ). r.0) (sym (if_false rest failed bad)) ∙ e))
        | inl fine ↦
            let on = if_true rest failed fine in
            let (others, took) =
              map_pages_lem pages (suc i) addrs1 (omega (arith, room, length-set addrs i addr))
                (ap (λ (r : ℕ × List ℕ). r.0) (sym on) ∙ e) in
            (
              (equal (k.dma_mapping_error addr) fine, others),
              ap₂ (λ n (r : ℕ × List ℕ). take n r.1) {x = i + suc (length pages)}
                    {y = suc i + length pages} (omega arith) on
                  ∙ took
                  ∙ ap (λ t. t ++ map (k.dma_map_page) pages)
                      (take-set addrs i addr (omega (arith, room)))
                  ∙ append-snoc (take i addrs) addr (map (k.dma_map_page) pages),
            )
      ]

  -- What `get_user_pages` promises for at least one page: an error that is not 0, or from one page
  -- up to as many as were asked for.
  pub record PinsPages : Type 0 where
    pub real_error : (vaddr n : ℕ) → 1 ≤ n → k.get_user_pages vaddr n ≢ pin_failed 0
    pub some_page : (vaddr n : ℕ) → 1 ≤ n → k.get_user_pages vaddr n ≢ pinned []
    pub no_more :
        (vaddr n : ℕ) (ps : List ℕ) → 1 ≤ n → k.get_user_pages vaddr n ≡ pinned ps → length ps ≤ n

  -- All pages are pinned and mapped.
  pub record UserMapped (m m' : Map) (ps : List ℕ) : Type 0 where
    pub got : k.get_user_pages m.vaddr m.n_addrs ≡ pinned ps
    pub all_mapped : AllMapped k ps
    pub bus_addrs : take (length ps) m'.addrs ≡ map (k.dma_map_page) ps
    pub rest : m' ≡ record m {
      n_addrs = length ps;
      page_size = page_size;
      pages = some ps;
      release = release_user;
      addrs = m'.addrs;
    }

  with_pages_lem :
      PinsPages
      → (m : Map) (got : Pinned) → length m.addrs ≡ m.n_addrs
      → 1 ≤ m.n_addrs
      → k.get_user_pages m.vaddr m.n_addrs ≡ got
      → (with_pages k m got).0 ≡ 0
      → (ps : List ℕ) × UserMapped m (with_pages k m got).1 ps
  with_pages_lem laws m (pin_failed err) width pos at e =
      absurd (laws.real_error m.vaddr m.n_addrs pos (at ∙ ap pin_failed e))
  with_pages_lem laws m (pinned []) width pos at e =
      absurd (laws.some_page m.vaddr m.n_addrs pos at)
  with_pages_lem laws m (pinned (p ∷ ps)) width pos at e =
      let (fine, bus) =
        map_pages_lem (p ∷ ps) 0 m.addrs
          (omega (arith, width, laws.no_more m.vaddr m.n_addrs (p ∷ ps) pos at)) e in
      let bus_first =
        ap (λ n. take n (map_pages_from k (p ∷ ps) 0 m.addrs).1) {x = suc (length ps)}
          {y = 0 + suc (length ps)} (omega arith) in
      (p ∷ ps, record { got = at; all_mapped = fine; bus_addrs = bus_first ∙ bus; rest = refl })

  pub map_user_pages_lem :
      PinsPages
      → (m : Map) → length m.addrs ≡ m.n_addrs
      → 1 ≤ m.n_addrs
      → (map_user_pages k m).0 ≡ 0
      → (ps : List ℕ) × UserMapped m (map_user_pages k m).1 ps
  unfolding map_user_pages
  map_user_pages_lem laws m width pos e = elim (Bool-cases (not k.has_page_array)) [
    | inl none_left ↦ absurd (
        omega (
          arith,
          ap (λ (r : ℕ × Map). r.0)
                (sym (
                  if_true (enomem, m) (with_pages k m (k.get_user_pages m.vaddr m.n_addrs))
                    none_left))
              ∙ e,
        ))
    | inr has ↦
        let on = if_false (enomem, m) (with_pages k m (k.get_user_pages m.vaddr m.n_addrs)) has in
        subst (λ (r : ℕ × Map). (ps : List ℕ) × UserMapped m r.1 ps) (sym on)
          (with_pages_lem laws m _ width pos refl (ap (λ (r : ℕ × Map). r.0) (sym on) ∙ e))
  ]

  -- The pages are pinned, and one of them is not mapped.
  pub record Unmapped (m m' : Map) (ps : List ℕ) : Type 0 where
    pub got : k.get_user_pages m.vaddr m.n_addrs ≡ pinned ps
    pub failed : (map_pages_from k ps 0 m.addrs).0 ≢ 0
    pub stored : m'.addrs ≡ (map_pages_from k ps 0 m.addrs).1
    pub rest : m' ≡ record m {
      n_addrs = length ps;
      page_size = page_size;
      pages = some ps;
      release = release_user;
      addrs = m'.addrs;
    }

  -- Why no page was pinned.
  abbrev pub Unpinned : Map → Type 0
  Unpinned m =
      (k.has_page_array ≡ false)
      ⊎ ((err : ℕ) × (k.get_user_pages m.vaddr m.n_addrs ≡ pin_failed err))

  -- How mapping the pages fails, and what it leaves of the mapping.
  abbrev pub Failure : Map → Map → Type 0
  Failure m m' = (Unpinned m × (m' ≡ m)) ⊎ ((ps : List ℕ) × Unmapped m m' ps)

  with_pages-Failure :
      (m : Map) (got : Pinned)
      → k.get_user_pages m.vaddr m.n_addrs ≡ got
      → (with_pages k m got).0 ≢ 0
      → Failure m (with_pages k m got).1
  with_pages-Failure m (pin_failed err) at bad = inl (inr (err, at), refl)
  with_pages-Failure m (pinned []) at bad = absurd (bad refl)
  with_pages-Failure m (pinned (p ∷ ps)) at bad =
      inr (p ∷ ps, record { got = at; failed = bad; stored = refl; rest = refl })

  pub map_user_pages-Failure :
      (m : Map) → (map_user_pages k m).0 ≢ 0 → Failure m (map_user_pages k m).1
  unfolding map_user_pages
  map_user_pages-Failure m bad =
      let refused : ℕ × Map = (enomem, m) in
      let known = with_pages k m (k.get_user_pages m.vaddr m.n_addrs) in
      elim (Bool-cases k.has_page_array) [
        | inr none_left ↦
            subst (λ (r : ℕ × Map). Failure m r.1) (sym (if_true refused known (ap not none_left)))
              (inl (inl none_left, refl))
        | inl has ↦
            let on = if_false refused known (ap not has) in
            subst (λ (r : ℕ × Map). Failure m r.1) (sym on)
              (with_pages-Failure m _ refl (λ e. bad (ap (λ (r : ℕ × Map). r.0) on ∙ e)))
      ]
