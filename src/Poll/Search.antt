-- ===== src/Poll/Search.antt =====
-- What a pass finds while the controller goes on posting.
use native.Mathlib.Nat.{one-le-pow}
use generic_asynchronous_io.Prelude.{
  ℕ, zero, suc, ◌+◌, ◌-◌, ◌%◌, ◌^◌, ◌≤◌, ◌<◌, ◌==◌, if◌then◌else◌, true, false, not, ◌&&◌, Option,
  none, some, ◌≡◌, ◌≢◌, ◌⊎◌, inl, inr, refl, arith, dec_lt, ℕ_discrete, ap, ◌∙◌, sym, u32,
}
use generic_asynchronous_io.Completion.{NvmCpl, cid, phase, tag, written, IsTagged}
use generic_asynchronous_io.Completion.Phase.{phase_lem, phase_stale, phase_over, written_lem}
use generic_asynchronous_io.Poll.{
  View, Found, same_phase, scan, cq_try_poll, cq_poll, cq_try_peek_head,
}
use generic_asynchronous_io.Poll.Phases.{place_lem, search_phase_lem}

-- A pass that loads the head when `c` entries have been taken; `p i` have been posted when it reads
-- its `i`-th entry. Meanwhile others may move the head on, and the controller may post over the
-- entries that they have taken: but no entry of the pass is posted over twice before it is read.
pub record Growing (q c : ℕ) (p : ℕ → ℕ) : Type 0 where
  pub from : c ≤ p 0
  pub grows : (i : ℕ) → p i ≤ p (i + 1)
  pub within : (i : ℕ) → p i ≤ c + i + q + q

abbrev pub pass : ℕ → (ℕ → NvmCpl) → ℕ → (ℕ → ℕ) → View
pass q posts c p = record { head = u32 c; reads = λ i. written q posts (p i) }

module _ (log : ℕ) (posts : ℕ → NvmCpl) (c : ℕ) (p : ℕ → ℕ) (search_cid : ℕ) where
  -- Entry `a` had been posted when the pass read it, and is the first from the `i`-th on to carry
  -- the identifier.
  pub record Hit (i : ℕ) (r : Option Found) : Type 0 where
    pub entry : ℕ
    pub on_or_after : c + i ≤ entry
    pub posted : entry < p (entry - c)
    pub not_over : p (entry - c) ≤ entry + 2 ^ log
    pub carries : cid (posts entry) ≡ search_cid
    pub earlier : (a : ℕ) → c + i ≤ a → a < entry → cid (posts a) ≢ search_cid
    pub result : r ≡ some (record { loc = entry % 2 ^ log; cur_head = u32 entry; cq_head = u32 c })

  -- An entry in reach that had been posted when the pass read its first one carries the identifier only if, before the
  -- pass came to it, the controller had posted more than a round from the head that was loaded.
  pub record Miss (i n : ℕ) (r : Option Found) : Type 0 where
    pub no_entry :
        (a : ℕ)
        → c + i ≤ a
        → a < c + i + n
        → a < p i
        → p (a - c) ≤ c + 2 ^ log
        → cid (posts a) ≢ search_cid
    pub result : r ≡ none

module _ (log : ℕ) (small : log ≤ 31) (posts : ℕ → NvmCpl) (tagged : IsTagged (2 ^ log) posts)
    (c : ℕ) (p : ℕ → ℕ) (v : Growing (2 ^ log) c p) where
  size_pos : 0 < 2 ^ log
  size_pos = one-le-pow log 2 (omega arith)

  grown : (i : ℕ) → c ≤ p i
  grown zero = v.from
  grown (suc i) = omega (arith, grown i, v.grows i, ap p {x = suc i} {y = i + 1} (omega arith))

  -- The entry that iteration `i` reads.
  abbrev seen : ℕ → NvmCpl
  seen i = written (2 ^ log) posts (p i) ((c + i) % 2 ^ log)

  later_more : (i d : ℕ) → p i ≤ p (i + d)
  later_more i zero = omega (arith, ap p {x = i + zero} {y = i} (omega arith))
  later_more i (suc d) =
      omega
        (arith, later_more i d, v.grows (i + d), ap p {x = i + suc d} {y = i + d + 1} (omega arith))

  phase_matches :
      (i : ℕ)
      → c + i < p i
      → p i ≤ c + i + 2 ^ log
      → same_phase (phase (seen i)) (tag (2 ^ log) (c + i)) ≡ true
  phase_matches i more fresh = ground (
    arith,
    (phase_lem (2 ^ log) size_pos posts tagged (p i) (c + i) fresh (omega (arith, more))).1 more,
  )

  phase_differs :
      (i : ℕ)
      → i < 2 ^ log
      → p i ≤ c + i
      → same_phase (phase (seen i)) (tag (2 ^ log) (c + i)) ≡ false
  phase_differs i lt none_there = ground (
    arith,
    phase_stale (2 ^ log) size_pos posts tagged (p i) (c + i) none_there (omega (arith, grown i)),
  )

  -- The slot has been posted over.
  phase_gone :
      (i : ℕ) → c + i + 2 ^ log < p i → same_phase (phase (seen i)) (tag (2 ^ log) (c + i)) ≡ false
  phase_gone i over =
      ground (arith, phase_over (2 ^ log) size_pos posts tagged (p i) (c + i) over (v.within i))

  -- One iteration, with the wrapped head read as the number of the entry.
  scan_step :
      (search_cid n i : ℕ)
      → scan log (pass (2 ^ log) posts c p) search_cid (suc n) i ≡ (
          if (cid (seen i) == search_cid) && same_phase (phase (seen i)) (tag (2 ^ log) (c + i))
          then some (record { loc = (c + i) % 2 ^ log; cur_head = u32 (c + i); cq_head = u32 c })
          else if not (same_phase (phase (seen i)) (tag (2 ^ log) (c + i)))
          then none
          else scan log (pass (2 ^ log) posts c p) search_cid n (i + 1))
  unfolding scan
  scan_step search_cid n i =
      rw (wrapped, place_lem log (c + i) (omega (arith, small)), search_phase_lem log (c + i) small)
        refl
    where
      wrapped : u32 (u32 c + i) ≡ u32 (c + i)
      wrapped = omega arith

  scan_lem :
      (search_cid n i : ℕ)
      → i + n < 2 ^ log
      → Hit log posts c p search_cid i (scan log (pass (2 ^ log) posts c p) search_cid n i)
        ⊎ Miss log posts c p search_cid i n (scan log (pass (2 ^ log) posts c p) search_cid n i)
  unfolding scan
  scan_lem search_cid zero i lt =
      inr (record { no_entry = λ a h k l w. absurd (omega (arith, h, k)); result = refl })
  scan_lem search_cid (suc n) i lt = elim (dec_lt (c + i) (p i)) [
    | no none_there ↦ inr (record {
      no_entry = λ a h k l w. absurd (omega (arith, h, l, none_there));
      result =
          scan_step search_cid n i ∙ ground (arith, phase_differs i (omega arith) (omega arith));
    })
    | yes there ↦ elim (dec_lt (c + i + 2 ^ log) (p i)) [
      | yes over ↦ inr (record {
        no_entry = λ a h k l w. absurd (
            omega (
              arith,
              over,
              w,
              later_more i (a - c - i),
              ap p {x = i + (a - c - i)} {y = a - c} (omega (arith, h)),
            ));
        result = scan_step search_cid n i ∙ ground (arith, phase_gone i over);
      })
      | no fresh ↦
          let read : seen i ≡ posts (c + i) =
            written_lem (2 ^ log) size_pos posts tagged (p i) (c + i) (omega (arith, fresh))
              there in
          let matches = phase_matches i there (omega (arith, fresh)) in
          elim (ℕ_discrete (cid (posts (c + i))) search_cid) [
            | yes same ↦ inl (record {
              entry = c + i;
              on_or_after = omega arith;
              posted = omega (arith, there, ap p {x = c + i - c} {y = i} (omega arith));
              not_over = omega (arith, fresh, ap p {x = c + i - c} {y = i} (omega arith));
              carries = same;
              earlier = λ a h k. absurd (omega (arith, h, k));
              result = scan_step search_cid n i ∙ ground (arith, matches, ap cid read, same);
            })
            | no other ↦
                let on : scan log (pass (2 ^ log) posts c p) search_cid (suc n) i
                    ≡ scan log (pass (2 ^ log) posts c p) search_cid n (i + 1) =
                  scan_step search_cid n i ∙ ground (arith, matches, ap cid read, other) in
                elim (scan_lem search_cid n (i + 1) (omega arith)) [
                  | inl hit ↦ inl (record {
                    entry = hit.entry;
                    on_or_after = omega (arith, hit.on_or_after);
                    posted = hit.posted;
                    not_over = hit.not_over;
                    carries = hit.carries;
                    earlier = λ a h k. elim (ℕ_discrete a (c + i)) [
                      | yes e ↦ λ s. other (ap (λ t. cid (posts t)) (sym e) ∙ s)
                      | no ne ↦ hit.earlier a (omega (arith, h, ne)) k
                    ];
                    result = on ∙ hit.result;
                  })
                  | inr miss ↦ inr (record {
                    no_entry = λ a h k l w. elim (ℕ_discrete a (c + i)) [
                      | yes e ↦ λ s. other (ap (λ t. cid (posts t)) (sym e) ∙ s)
                      | no ne ↦
                          miss.no_entry a (omega (arith, h, ne)) (omega (arith, k))
                            (omega (arith, l, v.grows i)) w
                    ];
                    result = on ∙ miss.result;
                  })
                ]
          ]
    ]
  ]

  -- In a queue of 2^log entries, at most 2^31, that the controller tags by rounds, while it goes on
  -- posting and others move the head, and no entry of the pass is posted over twice before it is
  -- read: `cq_try_poll` returns the first entry behind the head that it loaded with the searched
  -- identifier, which had been posted and not posted over when it was read; or it returns nothing,
  -- and then any of the entries of the next `qs - 1` that had been posted when it read its first has that
  -- identifier only if the controller had posted more than a round from that head before the pass
  -- came to the entry.
  pub cq_try_poll_lem :
      (search_cid : ℕ)
      → Hit log posts c p search_cid 0 (cq_try_poll log (pass (2 ^ log) posts c p) search_cid)
        ⊎ Miss log posts c p search_cid 0
            (2 ^ log - 1)
            (cq_try_poll log (pass (2 ^ log) posts c p) search_cid)
  unfolding cq_try_poll
  cq_try_poll_lem search_cid = scan_lem search_cid (2 ^ log - 1) 0 (omega (arith, size_pos))

  abbrev head_entry : NvmCpl
  head_entry = written (2 ^ log) posts (p 0) (c % 2 ^ log)

  peek_step : cq_try_peek_head log (pass (2 ^ log) posts c p) ≡ (
      if not (same_phase (phase head_entry) (tag (2 ^ log) c))
      then none
      else some (record {
        head_cid = cid head_entry;
        at = record { loc = c % 2 ^ log; cur_head = u32 c; cq_head = u32 c };
      }))
  unfolding cq_try_peek_head
  peek_step = rw (place_lem log c (omega (arith, small)), search_phase_lem log c small) refl

  -- In a queue of 2^log entries, at most 2^31, that the controller tags by rounds and has not overrun when the entry is read, `cq_try_peek_head` reports the oldest entry that has been posted and not been taken, with its
  -- identifier and place, and nothing where there is none.
  pub cq_try_peek_head_lem :
      p 0 ≤ c + 2 ^ log
      → ((c < p 0)
          × (cq_try_peek_head log (pass (2 ^ log) posts c p)
              ≡ some (record {
                head_cid = cid (posts c);
                at = record { loc = c % 2 ^ log; cur_head = u32 c; cq_head = u32 c };
              })))
        ⊎ ((c ≡ p 0) × (cq_try_peek_head log (pass (2 ^ log) posts c p) ≡ none))
  cq_try_peek_head_lem in_time = elim (dec_lt c (p 0)) [
    | yes there ↦
        let read : head_entry ≡ posts c =
          written_lem (2 ^ log) size_pos posts tagged (p 0) c (omega (arith, in_time)) there in
        inl (
          there,
          peek_step
              ∙ ground (
                arith,
                ap cid read,
                (phase_lem (2 ^ log) size_pos posts tagged (p 0) c (omega (arith, in_time))
                      (omega (arith, v.from, size_pos))).1
                    there,
              ),
        )
    | no none_there ↦ inr (
      omega (arith, v.from, none_there),
      peek_step
          ∙ ground (
            arith,
            phase_stale (2 ^ log) size_pos posts tagged (p 0) c (omega (arith, none_there))
                (omega (arith, v.from, size_pos)),
          ),
    )
  ]

module _ (log : ℕ) (small : log ≤ 31) (posts : ℕ → NvmCpl) (tagged : IsTagged (2 ^ log) posts)
    (c : ℕ → ℕ) (p : ℕ → ℕ → ℕ) (v : (j : ℕ) → Growing (2 ^ log) (c j) (p j)) where
  abbrev passes : ℕ → View
  passes j = pass (2 ^ log) posts (c j) (p j)

  poll_from :
      (search_cid k a : ℕ)
      → c k ≤ a
      → a < c k + (2 ^ log - 1)
      → a < p k 0
      → p k (a - c k) ≤ c k + 2 ^ log
      → cid (posts a) ≡ search_cid
      → (fuel j : ℕ) → j ≤ k
      → k < j + fuel
      → (h : ℕ) × (h ≤ k)
        × Hit log posts (c h) (p h) search_cid 0 (cq_poll log passes search_cid j fuel)
  unfolding cq_poll
  poll_from search_cid k a from near there in_time same zero j le more =
      absurd (omega (arith, le, more))
  poll_from search_cid k a from near there in_time same (suc fuel) j le more =
      elim (cq_try_poll_lem log small posts tagged (c j) (p j) (v j) search_cid) [
        | inl hit ↦ (
          j,
          le,
          record {
            entry = hit.entry;
            on_or_after = hit.on_or_after;
            posted = hit.posted;
            not_over = hit.not_over;
            carries = hit.carries;
            earlier = hit.earlier;
            result = ground (arith, hit.result);
          },
        )
        | inr miss ↦
            let later : j ≢ k = λ is_k.
              miss.no_entry a (omega (arith, from, ap c is_k)) (omega (arith, near, ap c is_k))
                (omega (arith, there, ap (λ t. p t 0) is_k))
                (omega (arith, in_time, ap (λ t. p t (a - c t)) is_k, ap c is_k)) same in
            let (h, h_le, hit) =
              poll_from search_cid k a from near there in_time same fuel (j + 1)
                (omega (arith, le, later)) (omega (arith, more)) in
            (
              h,
              h_le,
              record {
                entry = hit.entry;
                on_or_after = hit.on_or_after;
                posted = hit.posted;
                not_over = hit.not_over;
                carries = hit.carries;
                earlier = hit.earlier;
                result = ground (arith, miss.result, hit.result);
              },
            )
      ]

  -- In a queue of 2^log entries, at most 2^31, that the controller tags by rounds, and where no
  -- entry of a pass is posted over twice before that pass reads it: `cq_poll` returns once a pass
  -- finds the searched entry posted, at its first read, among the `qs - 1` behind the head that it loads, and
  -- the controller has not posted more than a round from that head before the pass comes to the
  -- entry. With more iterations than the number of that pass, it has found, in that pass or an
  -- earlier one, the first entry behind that pass's head with the identifier, not posted over.
  pub cq_poll_returns :
      (search_cid k a fuel : ℕ)
      → c k ≤ a
      → a < c k + (2 ^ log - 1)
      → a < p k 0
      → p k (a - c k) ≤ c k + 2 ^ log
      → cid (posts a) ≡ search_cid
      → k < fuel
      → (h : ℕ) × (h ≤ k)
        × Hit log posts (c h) (p h) search_cid 0 (cq_poll log passes search_cid 0 fuel)
  cq_poll_returns search_cid k a fuel from near there in_time same enough =
      poll_from search_cid k a from near there in_time same fuel 0 (omega arith)
        (omega (arith, enough))
