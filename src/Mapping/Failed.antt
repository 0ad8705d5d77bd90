-- ===== src/Mapping/Failed.antt =====
-- The addresses that are left in a mapping where one of its pages is not mapped.
use generic_asynchronous_io.Prelude.{
  ℕ, zero, suc, ◌-◌, ◌≤◌, ◌≡◌, ◌≢◌, refl, sym, ap, ap₂, ◌∙◌, arith, ◌==◌, inl, inr, if_true,
  if_false, Bool-cases, List, [], ◌∷◌, ◌++◌, map, length, set, take, replicate, subst,
}
use generic_asynchronous_io.Mapping.{Kernel, map_pages_from}
use generic_asynchronous_io.Mapping.Pages.{AllMapped, append-snoc, equal, unequal}

set-append :
    (pre : List ℕ) (x v : ℕ) (xs : List ℕ)
    → set (pre ++ x ∷ xs) (length pre) v ≡ (pre ++ v ∷ []) ++ xs
set-append [] x v xs = refl
set-append (y ∷ pre) x v xs = ap (λ t. y ∷ t) (set-append pre x v xs)

length-snoc : (pre : List ℕ) (v : ℕ) → length (pre ++ v ∷ []) ≡ suc (length pre)
length-snoc [] v = refl
length-snoc (y ∷ pre) v = ap suc (length-snoc pre v)

take-append : (xs ys : List ℕ) → take (length xs) (xs ++ ys) ≡ xs
take-append [] ys = refl
take-append (x ∷ xs) ys = ap (λ t. x ∷ t) (take-append xs ys)

replicate-append : (a b : ℕ) → a ≤ b → replicate b 0 ≡ replicate {A = ℕ} a 0 ++ replicate (b - a) 0
replicate-append zero b le = ap (λ n. replicate {A = ℕ} n 0) {x = b} {y = b - 0} (omega arith)
replicate-append (suc a) zero le = absurd (omega (arith, le))
replicate-append (suc a) (suc b) le =
    ap (λ t. 0 ∷ t) (replicate-append a b (omega (arith, le)))
    ∙ ap (λ n. replicate {A = ℕ} (suc a) 0 ++ replicate n 0) {x = b - a} {y = suc b - suc a}
        (omega arith)

module _ (k : Kernel) where
  -- The pages before one are mapped and it is not; the addresses are theirs and its own, and 0 from
  -- there on.
  pub record StopsAt (pages addrs : List ℕ) : Type 0 where
    pub done : List ℕ
    pub bad : ℕ
    pub rest : List ℕ
    pub parts : pages ≡ done ++ bad ∷ rest
    pub mapped_before : AllMapped k done
    pub refused : k.dma_mapping_error (k.dma_map_page bad) ≢ 0
    pub its_addrs :
        addrs ≡ map (k.dma_map_page) done ++ k.dma_map_page bad ∷ replicate (length rest) 0

  pub length-StopsAt : (pages addrs : List ℕ) → StopsAt pages addrs → length addrs ≡ length pages
  length-StopsAt pages addrs s = ap length s.its_addrs ∙ same s.done ∙ sym (ap length s.parts)
    where
      zeros : (xs : List ℕ) → length (replicate {A = ℕ} (length xs) 0) ≡ length xs
      zeros [] = refl
      zeros (x ∷ xs) = ap suc (zeros xs)

      same :
          (done : List ℕ)
          → length (map (k.dma_map_page) done ++ k.dma_map_page s.bad ∷ replicate (length s.rest) 0)
            ≡ length (done ++ s.bad ∷ s.rest)
      same [] = ap suc (zeros s.rest)
      same (x ∷ xs) = ap suc (same xs)

  map_pages_stop :
      (pages pre tail : List ℕ)
      → (map_pages_from k pages (length pre) (pre ++ (replicate (length pages) 0 ++ tail))).0 ≢ 0
      → (addrs : List ℕ) × StopsAt pages addrs
        × ((map_pages_from k pages (length pre) (pre ++ (replicate (length pages) 0 ++ tail))).1
            ≡ pre ++ (addrs ++ tail))
  unfolding map_pages_from
  map_pages_stop [] pre tail bad = absurd (bad refl)
  map_pages_stop (page ∷ pages) pre tail bad =
      let addr = k.dma_map_page page in
      let zeros = replicate (length pages) 0 ++ tail in
      let stored = set-append pre 0 addr zeros in
      let before = set (pre ++ 0 ∷ zeros) (length pre) addr in
      let failed : ℕ × List ℕ = (k.dma_mapping_error addr, before) in
      let rest = map_pages_from k pages (suc (length pre)) before in
      elim (Bool-cases (k.dma_mapping_error addr == 0)) [
        | inr stops ↦ (
          addr ∷ replicate (length pages) 0,
          record {
            done = [];
            bad = page;
            rest = pages;
            parts = refl;
            mapped_before = tt;
            refused = unequal (k.dma_mapping_error addr) stops;
            its_addrs = refl;
          },
          ap (λ (r : ℕ × List ℕ). r.1) (if_false rest failed stops)
              ∙ stored
              ∙ append-snoc pre addr zeros,
        )
        | inl fine ↦
            let on = if_true rest failed fine in
            let moved : rest
                ≡ map_pages_from k pages (length (pre ++ addr ∷ [])) ((pre ++ addr ∷ []) ++ zeros) =
              ap₂ (λ i xs. map_pages_from k pages i xs) (sym (length-snoc pre addr)) stored in
            let (addrs, s, out) =
              map_pages_stop pages (pre ++ addr ∷ []) tail
                (λ e. bad (ap (λ (r : ℕ × List ℕ). r.0) (on ∙ moved) ∙ e)) in
            (
              addr ∷ addrs,
              record {
                done = page ∷ s.done;
                bad = s.bad;
                rest = s.rest;
                parts = ap (λ t. page ∷ t) s.parts;
                mapped_before = (equal (k.dma_mapping_error addr) fine, s.mapped_before);
                refused = s.refused;
                its_addrs = ap (λ t. addr ∷ t) s.its_addrs;
              },
              ap (λ (r : ℕ × List ℕ). r.1) (on ∙ moved)
                  ∙ out
                  ∙ append-snoc pre addr (addrs ++ tail),
            )
      ]

  -- The addresses of a mapping of which none has been set.
  pub first_addrs-StopsAt :
      (pages : List ℕ) (n : ℕ)
      → length pages ≤ n
      → (map_pages_from k pages 0 (replicate n 0)).0 ≢ 0
      → StopsAt pages (take (length pages) (map_pages_from k pages 0 (replicate n 0)).1)
  first_addrs-StopsAt pages n le bad =
      let split = replicate-append (length pages) n le in
      let tail = replicate {A = ℕ} (n - length pages) 0 in
      let (addrs, s, out) =
        map_pages_stop pages [] tail
          (λ e. bad (ap (λ xs. (map_pages_from k pages 0 xs).0) split ∙ e)) in
      subst (StopsAt pages)
        (sym (
          ap (λ xs. take (length pages) (map_pages_from k pages 0 xs).1) split
          ∙ ap (take (length pages)) out
          ∙ ap (λ n. take n (addrs ++ tail)) (sym (length-StopsAt pages addrs s))
          ∙ take-append addrs tail))
        s
