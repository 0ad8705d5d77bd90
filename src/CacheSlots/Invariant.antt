-- ===== src/CacheSlots/Invariant.antt =====
-- Every state that the cache can reach satisfies the invariant.
use generic_asynchronous_io.Prelude.{
  ℕ, ◌^◌, ◌≤◌, ◌<◌, ◌≡◌, ◌≢◌, ◌⊎◌, inl, inr, refl, arith, ap, sym, subst, ◌∙◌, Bool, true, false,
  ℕ_discrete, update, update_self, update_ne,
}
use generic_asynchronous_io.PageState.Owners
use generic_asynchronous_io.PageState.Owners.{harmless}
use generic_asynchronous_io.CacheSlots.{
  Cache, assigning, Pc, finding, locked, Move, search, evict, assign, System, step, Reach, start,
  later, initial,
}
use generic_asynchronous_io.CacheSlots.Seen.{Apart, Move-Apart}
use generic_asynchronous_io.CacheSlots.Project.{Inv-same, is_busy, one_owner, Move-PageInv}
use generic_asynchronous_io.CacheSlots.Claims.{
  IsValid, Uses, Hits, Stores, Locks, Takes, Ousts, Claim, by_page, by_hit, by_user, Assigned,
}
use generic_asynchronous_io.CacheSlots.Locks.{Writes, LockStep, Move-LockStep}
use generic_asynchronous_io.CacheSlots.Others.{
  Hits-harmful, Uses-harmful, Stores-owned, Writes-writing, Loads-owned, OffsetStep,
  Move-OffsetStep,
}
use generic_asynchronous_io.CacheSlots.Threads.{
  Gives, Takes-cases, Gives-Takes, Takes-Locks, Ousts-Locks, Ousts-Takes, Writes-Ousts, Takes-Hits,
  Takes-Uses,
}
use generic_asynchronous_io.CacheSlots.Back.{Inv, Back-Claim, Move-Back, page_step}

-- The thread is about to store page `p` as the one that has slot `s`.-- Where the claims come from when a slot is stored.
assigned_Claim :
    {n_pages : ℕ} {m : Cache} {pc : ℕ → Pc} {q : ℕ} (n : ℕ) (w : Bool) (t i s p : ℕ) {m' : Cache}
    {x' : Pc}
    → Move n_pages m (finding q n w (assigning t)) m' x'
    → Claim m' (update pc i x') s p
    → Claim m pc s p ⊎ Gives s p (finding q n w (assigning t))
assigned_Claim {pc = pc} n w t i s p {x' = x'} (search assign) (by_page v e) = inl (by_page v e)
assigned_Claim {pc = pc} n w t i s p {x' = x'} (search assign) (by_hit j h e) =
    elim (ℕ_discrete i j) [
      | yes same ↦ absurd (subst (Hits p) (ap (update pc i x') (sym same) ∙ update_self pc i x') h)
      | no ne ↦ inl (by_hit j (subst (Hits p) (update_ne pc i j x' ne) h) e)
    ]
assigned_Claim {pc = pc} n w t i s p {x' = x'} (search assign) (by_user j u) =
    elim (ℕ_discrete i j) [
      | yes same ↦ inr (subst (Uses p s) (ap (update pc i x') (sym same) ∙ update_self pc i x') u)
      | no ne ↦ inl (by_user j (subst (Uses p s) (update_ne pc i j x' ne) u))
    ]
assigned_Claim n w t i s p (evict o) c = elim o [ ]

given :
    {n_pages : ℕ} {m : Cache} {q : ℕ} (n : ℕ) (w : Bool) (t : ℕ) {m' : Cache} {x' : Pc} (s p : ℕ)
    → Move n_pages m (finding q n w (assigning t)) m' x'
    → Gives s p (finding q n w (assigning t))
    → m'.page_translation s ≡ p
given {m = m} {q} n w t s p (search assign) g =
    ap (update m.page_translation t q) (sym g.1) ∙ update_self m.page_translation t q ∙ g.0
given n w t s p (evict o) g = elim o [ ]

module _ (threads : ℕ) (room : threads ≤ 2 ^ 23) {n_pages : ℕ} {m : Cache} {pc : ℕ → Pc}
    (inv : Inv threads m pc) (i : ℕ) (lt : i < threads) {m' : Cache} {x' : Pc}
    (mv : Move n_pages m (pc i) m' x') where
  locks : LockStep m (pc i) m' x'
  locks = Move-LockStep mv (inv.marks i)

  offsets : OffsetStep m (pc i) m' x'
  offsets =
      Move-OffsetStep mv (λ q y y' a at one ok. page_step threads room m pc inv i lt q at one ok)

  is_moved : (j : ℕ) → i ≡ j → update pc i x' j ≡ x'
  is_moved j e = ap (update pc i x') (sym e) ∙ update_self pc i x'

  from_Claim : (s p : ℕ) → Claim m' (update pc i x') s p → Claim m pc s p ⊎ Gives s p (pc i)
  from_Claim s p c = elim (Takes-cases (pc i)) [
    | inl (q, n, w, t, at) ↦
        subst (λ y. Claim m pc s p ⊎ Gives s p y) (sym at)
          (assigned_Claim n w t i s p (subst (λ y. Move n_pages m y m' x') at mv) c)
    | inr no_take ↦ inl (Back-Claim (Move-Back threads room m pc inv i lt refl mv no_take) c)
  ]

  given_now : (s p : ℕ) → Gives s p (pc i) → m'.page_translation s ≡ p
  given_now s p g = elim (Takes-cases (pc i)) [
    | inl (q, n, w, t, at) ↦
        given n w t s p (subst (λ y. Move n_pages m y m' x') at mv) (subst (Gives s p) at g)
    | inr no_take ↦ absurd (no_take s (Gives-Takes s p (pc i) g))
  ]

  kept_claims : (s p : ℕ) → Claim m' (update pc i x') s p → Assigned m' s p
  kept_claims s p c = elim (from_Claim s p c) [
    | inl old ↦
        let a = inv.claims s p old in
        record {
          translation = locks.same s (λ k. inv.untaken i s p k old) ∙ a.translation;
          in_use = locks.in_use s a.in_use;
        }
    | inr g ↦ record {
      translation = given_now s p g;
      in_use =
          locks.in_use s (λ e.
            omega (arith, inv.marks i s (Takes-Locks s (pc i) (Gives-Takes s p (pc i) g)), e));
    }
  ]

  kept_stored : (j p s : ℕ) → Stores p s (update pc i x' j) → (m'.pages p).offset ≡ s
  kept_stored j p s h = elim (ℕ_discrete i j) [
    | yes e ↦ elim (offsets.now p s (subst (Stores p s) (is_moved j e) h)) [
      | inl now ↦ now
      | inr (was, same) ↦ same ∙ inv.stored i p s was
    ]
    | no ne ↦
        let was : Stores p s (pc j) = subst (Stores p s) (update_ne pc i j x' ne) h in
        offsets.kept p (λ l. ne (
          one_owner threads m pc inv.pages p i j (Loads-owned p (pc i) l)
            (Stores-owned p s (pc j) was)))
        ∙ inv.stored j p s was
  ]

  kept_marks : (j s : ℕ) → Locks s (update pc i x' j) → m'.page_take_lock s ≡ locked
  kept_marks j s h = elim (ℕ_discrete i j) [
    | yes e ↦ locks.marked s (subst (Locks s) (is_moved j e) h)
    | no ne ↦
        let was : Locks s (pc j) = subst (Locks s) (update_ne pc i j x' ne) h in
        locks.kept s (inv.marks j s was) (λ l. ne (inv.one i j s l was))
  ]

  -- The mover against another thread.
  mover_one : (j s : ℕ) → Locks s x' → Locks s (pc j) → i ≢ j → ⊥
  mover_one j s h k ne = elim (locks.of_lock s h) [
    | inl was ↦ ne (inv.one i j s was k)
    | inr open_lock ↦ open_lock (inv.marks j s k)
  ]

  kept_one : (j k s : ℕ) → Locks s (update pc i x' j) → Locks s (update pc i x' k) → j ≡ k
  kept_one j k s hj hk = elim (ℕ_discrete i j) [
    | yes ej ↦ elim (ℕ_discrete i k) [
      | yes ek ↦ sym ej ∙ ek
      | no nk ↦ absurd (
          mover_one k s (subst (Locks s) (is_moved j ej) hj)
            (subst (Locks s) (update_ne pc i k x' nk) hk) nk)
    ]
    | no nj ↦ elim (ℕ_discrete i k) [
      | yes ek ↦ absurd (
          mover_one j s (subst (Locks s) (is_moved k ek) hk)
            (subst (Locks s) (update_ne pc i j x' nj) hj) nj)
      | no nk ↦
          inv.one j k s (subst (Locks s) (update_ne pc i j x' nj) hj)
            (subst (Locks s) (update_ne pc i k x' nk) hk)
    ]
  ]

  kept_victims : (j s p : ℕ) → Ousts s p (update pc i x' j) → m'.page_translation s ≡ p
  kept_victims j s p h = elim (ℕ_discrete i j) [
    | yes e ↦ elim (locks.of_victim s p (subst (Ousts s p) (is_moved j e) h)) [
      | inl was ↦ locks.same s (Ousts-Takes s p s (pc i) was) ∙ inv.victims i s p was
      | inr now ↦ now
    ]
    | no ne ↦
        let was : Ousts s p (pc j) = subst (Ousts s p) (update_ne pc i j x' ne) h in
        locks.same s (λ k. ne (inv.one i j s (Takes-Locks s (pc i) k) (Ousts-Locks s p (pc j) was)))
        ∙ inv.victims j s p was
  ]

  -- Nobody relies on the page that has just been ousted.
  ousted :
      (s p : ℕ)
      → Takes s x'
      → Writes s p (pc i)
      → (IsValid (m'.pages p).state → ⊥)
      → Claim m' (update pc i x') s p
      → ⊥
  ousted s p k wr invalid (by_page v e) = invalid v
  ousted s p k wr invalid (by_hit j h e) = elim (ℕ_discrete i j) [
    | yes same ↦ Takes-Hits s p x' k (subst (Hits p) (is_moved j same) h)
    | no ne ↦
        let was : Hits p (pc j) = subst (Hits p) (update_ne pc i j x' ne) h in
        let clash : true ≡ false =
          sym (
            (inv.pages p).alone i j (Writes-writing s p (pc i) wr (inv.apart i))
              (λ e'. ne (sym e')))
          ∙ Hits-harmful p (pc j) was in
        cc clash
  ]
  ousted s p k wr invalid (by_user j u) = elim (ℕ_discrete i j) [
    | yes same ↦ Takes-Uses s s p x' k (subst (Uses p s) (is_moved j same) u)
    | no ne ↦
        let was : Uses p s (pc j) = subst (Uses p s) (update_ne pc i j x' ne) u in
        let clash : true ≡ false =
          sym (
            (inv.pages p).alone i j (Writes-writing s p (pc i) wr (inv.apart i))
              (λ e'. ne (sym e')))
          ∙ Uses-harmful p s (pc j) was in
        cc clash
  ]

  kept_untaken : (j s p : ℕ) → Takes s (update pc i x' j) → Claim m' (update pc i x') s p → ⊥
  kept_untaken j s p h c = elim (ℕ_discrete i j) [
    | yes e ↦
        let k : Takes s x' = subst (Takes s) (is_moved j e) h in
        elim (locks.of_take s k) [
          | inl is_free ↦ elim (from_Claim s p c) [
            | inl old ↦ (inv.claims s p old).in_use is_free
            | inr g ↦
                omega
                  (arith, is_free, inv.marks i s (Takes-Locks s (pc i) (Gives-Takes s p (pc i) g)))
          ]
          | inr (v, wr, invalid) ↦ elim (from_Claim s p c) [
            | inl old ↦
                let same : v ≡ p =
                  sym (inv.victims i s v (Writes-Ousts s v (pc i) wr))
                  ∙ (inv.claims s p old).translation in
                ousted s p k (subst (λ t. Writes s t (pc i)) same wr)
                  (subst (λ t. IsValid (m'.pages t).state → ⊥) same invalid) c
            | inr g ↦
                Ousts-Takes s v s (pc i) (Writes-Ousts s v (pc i) wr) (Gives-Takes s p (pc i) g)
          ]
        ]
    | no ne ↦
        let was : Takes s (pc j) = subst (Takes s) (update_ne pc i j x' ne) h in
        elim (from_Claim s p c) [
          | inl old ↦ inv.untaken j s p was old
          | inr g ↦ ne (
              inv.one i j s (Takes-Locks s (pc i) (Gives-Takes s p (pc i) g))
                (Takes-Locks s (pc j) was))
        ]
  ]

  kept-Apart : (j : ℕ) → Apart (update pc i x' j)
  kept-Apart j = elim (ℕ_discrete i j) [
    | yes e ↦
        subst Apart (sym (is_moved j e))
          (Move-Apart mv (is_busy threads m pc inv.pages i lt (pc i) refl) (inv.apart i))
    | no ne ↦ subst Apart (sym (update_ne pc i j x' ne)) (inv.apart j)
  ]

  Move-Inv : Inv threads m' (update pc i x')
  Move-Inv = record {
    pages = Move-PageInv threads m pc inv.pages i room lt (inv.apart i) mv;
    apart = kept-Apart;
    claims = kept_claims;
    stored = kept_stored;
    marks = kept_marks;
    one = kept_one;
    victims = kept_victims;
    untaken = kept_untaken;
  }

initial-Claim : (s p : ℕ) → Claim initial.cache initial.pc s p → ⊥
initial-Claim s p (by_page v e) = omega (arith, v)
initial-Claim s p (by_hit j h e) = h.1
initial-Claim s p (by_user j u) = u.1

initial-Inv : (threads : ℕ) → Inv threads initial.cache initial.pc
initial-Inv threads = record {
  pages = λ p. Inv-same refl (λ j. ground arith) (Owners.initial-Inv threads);
  apart = λ j. tt;
  claims = λ s p c. absurd (initial-Claim s p c);
  stored = λ i p s h. absurd (h.1);
  marks = λ i s h. absurd h;
  one = λ i j s h k. absurd h;
  victims = λ i s p h. absurd h;
  untaken = λ i s p h c. h;
}

pub Reach-Inv :
    {n_pages threads : ℕ} {s : System}
    → threads ≤ 2 ^ 23
    → Reach n_pages threads s
    → Inv threads s.cache s.pc
Reach-Inv {threads = threads} room start = initial-Inv threads
Reach-Inv {threads = threads} room (later r (step i lt mv)) =
    Move-Inv threads room (Reach-Inv room r) i lt mv
