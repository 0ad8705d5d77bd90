-- ===== src/PageState/Owners.antt =====
-- The count of a page is the sum of what its users hold, and its busy flag has one owner.
use generic_asynchronous_io.Prelude.{
  ℕ, ◌+◌, ◌^◌, ◌≤◌, ◌<◌, ◌≡◌, ◌≢◌, refl, arith, ap, sym, ◌∙◌, subst, Bool, true, false, not, ◌==◌,
  ℕ_discrete, dec_lt, update, update_self, update_ne, sum, sum_change, sum-le, le-sum,
}
use generic_asynchronous_io.PageState.{
  Page, Pc, outside, looking, reloading, claiming, loading, loaded, flipping, dirtying, hit,
  holding, evicting, writing, undoing, Move, enter, hit_dirty, hit_clean, reload, claim_won,
  claim_lost, loaded_write, flip, set_dirty, release_one, release, releasing, eviction, evict_won,
  evict_used, evict_lost, evicted, undo, System, step, Reach, start, later, st, v_nb, initial,
}
use generic_asynchronous_io.PageState.Flags.{
  count_of, busy_of, st_lem, test_count, test_busy, or_busy, or_dirty, flip_flags, clear_flags,
  clear_busy,
}

-- How many references a thread has taken.
abbrev pub held : Pc → ℕ
held outside = 0
held (looking n _ _) = n
held (reloading n _) = n
held (claiming n _) = n
held (loading n _) = n
held (loaded n _ _) = n
held (flipping n _) = n
held (dirtying n) = n
held (hit n) = n
held (holding n _) = n
held evicting = 0
held writing = 0
held undoing = 0

-- 1 for the thread that has set `BUSY`.
abbrev pub owned : Pc → ℕ
owned (loading _ _) = 1
owned (loaded _ _ _) = 1
owned (flipping _ _) = 1
owned writing = 1
owned undoing = 1
owned _ = 0

-- A thread that cannot go on to use the page before it has seen another state.
abbrev pub harmless : Pc → Bool
harmless outside = true
harmless (looking _ _ r) = not (st r == v_nb)
harmless (reloading _ _) = true
harmless (claiming _ _) = true
harmless evicting = true
harmless _ = false

abbrev pub inside : Pc → Bool
inside outside = false
inside evicting = false
inside writing = false
inside undoing = false
inside _ = true

pub record Inv (threads : ℕ) (m : Page) (pc : ℕ → Pc) : Type 0 where
  pub fits : m.state < 2 ^ 32
  pub counts : count_of m.state ≡ sum (λ j. held (pc j)) threads
  pub flag : busy_of m.state ≡ sum (λ j. owned (pc j)) threads
  pub small : (j : ℕ) → held (pc j) ≤ 32
  pub positive : (j : ℕ) → inside (pc j) ≡ true → 1 ≤ held (pc j)
  pub beyond : (j : ℕ) → threads ≤ j → pc j ≡ outside
  pub alone : (i j : ℕ) → pc i ≡ writing → j ≢ i → harmless (pc j) ≡ true

Move-count :
    {m m' : Page} {p p' : Pc}
    → Move m p m' p'
    → m.state < 2 ^ 32
    → held p ≤ count_of m.state
    → count_of m.state + 32 < 2 ^ 29
    → (count_of m'.state + held p ≡ count_of m.state + held p') × (m'.state < 2 ^ 32)
Move-count (enter n _ _ most) h le room = (omega (arith, most), omega arith)
Move-count {m} (claim_won _) h le room =
    let k = or_busy m.state h in (omega (arith, k.same_count), k.fits)
Move-count {m} (claim_lost _) h le room =
    let k = or_busy m.state h in (omega (arith, k.same_count), k.fits)
Move-count {m} (eviction (evict_won _ _)) h le room =
    let k = or_busy m.state h in (omega (arith, k.same_count), k.fits)
Move-count {m} (eviction (evict_used _ _)) h le room =
    let k = or_busy m.state h in (omega (arith, k.same_count), k.fits)
Move-count {m} (eviction (evict_lost _)) h le room =
    let k = or_busy m.state h in (omega (arith, k.same_count), k.fits)
Move-count {m} loaded_write h le room =
    let k = or_dirty m.state h in (omega (arith, k.same_count), k.fits)
Move-count {m} set_dirty h le room =
    let k = or_dirty m.state h in (omega (arith, k.same_count), k.fits)
Move-count {m} flip h le room =
    let k = flip_flags m.state h in (omega (arith, k.same_count), k.fits)
Move-count {m} (eviction evicted) h le room =
    let k = clear_flags m.state in (omega (arith, k.same_count), k.fits)
Move-count {m} (eviction undo) h le room =
    let k = clear_busy m.state h in (omega (arith, k.same_count), k.fits)
Move-count (releasing release_one) h le room = (omega (arith, le), omega arith)
Move-count (releasing release) h le room = (omega (arith, le), omega arith)
Move-count mv h le room = (refl, h)

Move-flag :
    {m m' : Page} {p p' : Pc}
    → Move m p m' p'
    → m.state < 2 ^ 32
    → held p ≤ count_of m.state
    → count_of m.state + 32 < 2 ^ 29
    → owned p ≤ busy_of m.state
    → busy_of m'.state + owned p ≡ busy_of m.state + owned p'
Move-flag (enter n _ _ most) h le room own = omega (arith, most)
Move-flag {m} (claim_won free) h le room own =
    omega (arith, (or_busy m.state h).busy_now, test_busy m.state, free)
Move-flag {m} (claim_lost taken) h le room own =
    omega (arith, (or_busy m.state h).busy_now, test_busy m.state, taken)
Move-flag {m} (eviction (evict_won free _)) h le room own =
    omega (arith, (or_busy m.state h).busy_now, test_busy m.state, free)
Move-flag {m} (eviction (evict_used free _)) h le room own =
    omega (arith, (or_busy m.state h).busy_now, test_busy m.state, free)
Move-flag {m} (eviction (evict_lost taken)) h le room own =
    omega (arith, (or_busy m.state h).busy_now, test_busy m.state, taken)
Move-flag {m} loaded_write h le room own = omega (arith, (or_dirty m.state h).busy_now)
Move-flag {m} set_dirty h le room own = omega (arith, (or_dirty m.state h).busy_now)
Move-flag {m} flip h le room own = omega (arith, (flip_flags m.state h).busy_now, own)
Move-flag {m} (eviction evicted) h le room own = omega (arith, (clear_flags m.state).busy_now, own)
Move-flag {m} (eviction undo) h le room own = omega (arith, (clear_busy m.state h).busy_now, own)
Move-flag (releasing release_one) h le room own = omega (arith, le)
Move-flag (releasing release) h le room own = omega (arith, le)
Move-flag mv h le room own = refl

Move-small : {m m' : Page} {p p' : Pc} → Move m p m' p' → held p ≤ 32 → held p' ≤ 32
Move-small (enter n _ _ most) h = most
Move-small (releasing release) h = omega arith
Move-small (eviction undo) h = omega arith
Move-small mv h = ground arith

Move-positive :
    {m m' : Page} {p p' : Pc}
    → Move m p m' p'
    → (inside p ≡ true → 1 ≤ held p)
    → inside p' ≡ true
    → 1 ≤ held p'
Move-positive (enter n _ least _) h k = least
Move-positive (releasing release) h k = cc k
Move-positive (eviction undo) h k = cc k
Move-positive mv h k = ground arith

-- While the flag is set, a harmless thread stays so.
Move-harmless :
    {m m' : Page} {p p' : Pc}
    → Move m p m' p'
    → busy_of m.state ≡ 1
    → harmless p ≡ true
    → harmless p' ≡ true
Move-harmless {m} (enter n _ _ _) b h = ground (arith, st_lem m.state)
Move-harmless {m} reload b h = ground (arith, st_lem m.state)
Move-harmless {m} (claim_won free) b h = absurd (omega (arith, test_busy m.state, free, b))
Move-harmless {m} (eviction (evict_won free _)) b h =
    absurd (omega (arith, test_busy m.state, free, b))
Move-harmless {m} (eviction (evict_used free _)) b h =
    absurd (omega (arith, test_busy m.state, free, b))
Move-harmless (hit_dirty e _) b h = ground (arith, e, h)
Move-harmless (hit_clean e _) b h = ground (arith, e, h)
Move-harmless (releasing release) b h = refl
Move-harmless mv b h = ground arith

idle-harmless :
    (p : Pc) → held p ≡ 0 → owned p ≡ 0 → (inside p ≡ true → 1 ≤ held p) → harmless p ≡ true
idle-harmless (looking n w r) h o k = absurd (omega (arith, h, k refl))
idle-harmless p h o k = ground arith

Move-writing :
    {m m' : Page} {p p' : Pc}
    → Move m p m' p'
    → p' ≡ writing
    → (count_of m.state ≡ 0) × (busy_of m.state ≡ 0)
Move-writing {m} (eviction (evict_won free unused)) e =
    (omega (arith, test_count m.state, unused), omega (arith, test_busy m.state, free))
Move-writing (releasing release) e = cc e
Move-writing mv e = ground (arith, e)

module _ (threads : ℕ) (room : threads ≤ 2 ^ 23) {m : Page} {pc : ℕ → Pc} (inv : Inv threads m pc)
    (i : ℕ) (lt : i < threads) where
  open inv use {fits, counts, flag, small, positive, beyond, alone}

  pub held-le : held (pc i) ≤ count_of m.state
  held-le = omega (arith, counts, le-sum (λ j. held (pc j)) threads i lt)

  owned-le : (j : ℕ) → j < threads → owned (pc j) ≤ busy_of m.state
  owned-le j below = omega (arith, flag, le-sum (λ j. owned (pc j)) threads j below)

  pub count_room : count_of m.state + 32 < 2 ^ 29
  count_room = omega (arith, counts, room, sum-le (λ j. held (pc j)) 32 threads small)

  sum-update :
      (f : Pc → ℕ) (p' : Pc)
      → sum (λ j. f (update pc i p' j)) threads + f (pc i) ≡ sum (λ j. f (pc j)) threads + f p'
  sum-update f p' = omega (
    arith,
    sum_change (λ j. f (update pc i p' j)) (λ j. f (pc j)) i threads lt
        (λ j ne. ap f (update_ne pc i j p' (λ e. ne (sym e)))),
    ap f (update_self pc i p'),
  )

  quiet-harmless : count_of m.state ≡ 0 → busy_of m.state ≡ 0 → (j : ℕ) → harmless (pc j) ≡ true
  quiet-harmless none free j = elim (dec_lt j threads) [
    | no over ↦ ap harmless (beyond j (omega (arith, over)))
    | yes below ↦
        idle-harmless (pc j)
          (omega (arith, counts, none, le-sum (λ j. held (pc j)) threads j below))
          (omega (arith, free, owned-le j below)) (positive j)
  ]

  writer_busy : (a : ℕ) → pc a ≡ writing → busy_of m.state ≡ 1
  writer_busy a e = elim (dec_lt a threads) [
    | yes below ↦ omega (arith, owned-le a below, ap owned e)
    | no over ↦ absurd (cc (sym (beyond a (omega (arith, over))) ∙ e))
  ]

  Move-alone :
      {p' : Pc} {m' : Page}
      → Move m (pc i) m' p'
      → (a b : ℕ) → update pc i p' a ≡ writing
      → b ≢ a
      → harmless (update pc i p' b) ≡ true
  Move-alone {p'} mv a b e ne = elim (ℕ_discrete i a) [
    | yes is_a ↦
        let moved : p' ≡ writing = sym (update_self pc i p') ∙ ap (update pc i p') is_a ∙ e in
        let (none, free) = Move-writing mv moved in
        ap harmless (update_ne pc i b p' (λ is_b. ne (sym is_b ∙ is_a)))
        ∙ quiet-harmless none free b
    | no not_a ↦
        let was : pc a ≡ writing = sym (update_ne pc i a p' not_a) ∙ e in
        elim (ℕ_discrete i b) [
          | yes is_b ↦
              ap harmless (ap (update pc i p') (sym is_b) ∙ update_self pc i p')
              ∙ Move-harmless mv (writer_busy a was) (alone a i was not_a)
          | no not_b ↦ ap harmless (update_ne pc i b p' not_b) ∙ alone a b was ne
        ]
  ]

  pub Move-Inv : {p' : Pc} {m' : Page} → Move m (pc i) m' p' → Inv threads m' (update pc i p')
  Move-Inv {p'} {m'} mv = record {
    fits = count.1;
    counts = omega (arith, count.0, counts, sum-update held p');
    flag =
        omega
          (arith, Move-flag mv fits held-le count_room (owned-le i lt), flag, sum-update owned p');
    small = λ j. elim (ℕ_discrete i j) [
      | yes e ↦ omega (
        arith,
        ap held (ap (update pc i p') (sym e) ∙ update_self pc i p'),
        Move-small mv (small i),
      )
      | no ne ↦ omega (arith, ap held (update_ne pc i j p' ne), small j)
    ];
    positive = λ j. elim (ℕ_discrete i j) [
      | yes e ↦
          subst (λ p. inside p ≡ true → 1 ≤ held p)
            (sym (ap (update pc i p') (sym e) ∙ update_self pc i p'))
            (Move-positive mv (positive i))
      | no ne ↦
          subst (λ p. inside p ≡ true → 1 ≤ held p) (sym (update_ne pc i j p' ne)) (positive j)
    ];
    beyond = λ j over. update_ne pc i j p' (λ e. omega (arith, e, over, lt)) ∙ beyond j over;
    alone = Move-alone mv;
  }
    where
      count : (count_of m'.state + held (pc i) ≡ count_of m.state + held p') × (m'.state < 2 ^ 32)
      count = Move-count mv fits held-le count_room

pub initial-Inv : (threads : ℕ) → Inv threads initial.page initial.pc
initial-Inv threads = record {
  fits = omega arith;
  counts = omega (arith, sum-le (λ _. 0) 0 threads (λ _. omega arith));
  flag = omega (arith, sum-le (λ _. 0) 0 threads (λ _. omega arith));
  small = λ j. omega arith;
  positive = λ j e. cc e;
  beyond = λ j over. refl;
  alone = λ i j e ne. refl;
}

pub Reach-Inv :
    {threads : ℕ} {s : System} → threads ≤ 2 ^ 23 → Reach threads s → Inv threads s.page s.pc
Reach-Inv {threads} room start = initial-Inv threads
Reach-Inv {threads} room (later r (step i lt mv)) = Move-Inv threads room (Reach-Inv room r) i lt mv
