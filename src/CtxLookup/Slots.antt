-- ===== src/CtxLookup/Slots.antt =====
-- A completion on a queue finds the context of the row that waits on that queue for that id, and
-- no other completion finds it.
use generic_asynchronous_io.Prelude.{
  ℕ, zero, suc, ◌+◌, ◌-◌, ◌^◌, ◌≤◌, ◌<◌, ◌≡◌, ◌≢◌, ◌⊎◌, inl, inr, sym, ap, ◌∙◌, arith, Bool, true,
  false, not, ◌||◌, ◌==◌, if_true, if_false, lt→ltb, le→ltb, lt→leb, ap₂, List, [], ◌∷◌, Option,
  none, some, get_elem?, update, update_self, update_ne, u32,
}
use generic_asynchronous_io.CtxLookup.{
  RowCtx, logical_from, slot_of, slot_below, has_range, registered_slot, write_slot, register_row,
  locate_from, take_row,
}
use generic_asynchronous_io.Registered.{k_registered_cid_capacity}

-- All queues of the controllers.
abbrev pub queues_in : List (Option ℕ) → ℕ
queues_in [] = 0
queues_in (none ∷ ctrls) = queues_in ctrls
queues_in (some n_qps ∷ ctrls) = n_qps + queues_in ctrls

some_inj : {a b : ℕ} → some a ≡ some b → a ≡ b
some_inj e = cc e

width_inj : {a b : ℕ} → some (some a) ≡ some (some b) → a ≡ b
width_inj e = cc e

-- A start further on by `m` leads to a queue further on by `m`.
shifted :
    (ctrls : List (Option ℕ)) (ctrl start m k : ℕ)
    → start + m + queues_in ctrls < 2 ^ 32
    → logical_from ctrls ctrl (start + m) ≡ some k
    → (logical_from ctrls ctrl start ≡ some (k - m))
      × (start + m ≤ k)
      × (k ≤ start + m + queues_in ctrls)
unfolding logical_from
shifted [] ctrl start m k room e =
    let is = some_inj e in (ap some (omega (arith, is)), omega (arith, is), omega (arith, is))
shifted (none ∷ ctrls) zero start m k room e =
    let is = some_inj e in (ap some (omega (arith, is)), omega (arith, is), omega (arith, is))
shifted (some n ∷ ctrls) zero start m k room e =
    let is = some_inj e in (ap some (omega (arith, is)), omega (arith, is), omega (arith, is))
shifted (none ∷ ctrls) (suc ctrl) start m k room e = cc e
shifted (some n ∷ ctrls) (suc ctrl) start m k room e =
    let same : start + n + m ≡ u32 (start + m + n) = omega (arith, room) in
    let (found, least, most) =
      shifted ctrls ctrl (start + n) m k (omega (arith, room))
        (ap (logical_from ctrls ctrl) same ∙ e) in
    (
      ap (logical_from ctrls ctrl) (omega (arith, room)) ∙ found,
      omega (arith, least),
      omega (arith, most),
    )

-- The service kernel finds the queue that a logical index stands for.
pub locate-logical :
    (ctrls : List (Option ℕ)) (ctrl first queue n k : ℕ)
    → get_elem? ctrls ctrl ≡ some (some n)
    → queue < n
    → queue + queues_in ctrls < 2 ^ 32
    → logical_from ctrls ctrl queue ≡ some k
    → (locate_from ctrls first k ≡ some (first + ctrl, queue)) × (k < 2 ^ 32)
unfolding logical_from locate_from
locate-logical [] ctrl first queue n k at lt room e = cc at
locate-logical (none ∷ ctrls) zero first queue n k at lt room e = cc at
locate-logical (none ∷ ctrls) (suc ctrl) first queue n k at lt room e = cc e
locate-logical (some m ∷ ctrls) zero first queue n k at lt room e =
    let is = some_inj e in
    let same = width_inj at in
    (
      if_true _ _ (lt→ltb k m (omega (arith, is, lt, same)))
          ∙ ap₂ (λ a b. some (a, b)) (omega arith) (sym is),
      omega (arith, is, room),
    )
locate-logical (some m ∷ ctrls) (suc ctrl) first queue n k at lt room e =
    let same : queue + m ≡ u32 (queue + m) = omega (arith, room) in
    let (found, least, most) =
      shifted ctrls ctrl queue m k (omega (arith, room)) (ap (logical_from ctrls ctrl) same ∙ e) in
    let (located, _) =
      locate-logical ctrls ctrl (suc first) queue n (k - m) at lt (omega (arith, room)) found in
    (
      if_false _ _ (le→ltb k m (omega (arith, least)))
          ∙ located
          ∙ ap (λ a. some (a, queue)) (omega arith),
      omega (arith, most, room),
    )

-- Two slots of a table are the same for the same queue and the same id only.
slot_inj :
    (k k' cid cid' : ℕ)
    → k < 2 ^ 32
    → k' < 2 ^ 32
    → cid < 2 ^ 16
    → cid' < 2 ^ 16
    → slot_of k k_registered_cid_capacity cid ≡ slot_of k' k_registered_cid_capacity cid'
    → (k ≡ k') × (cid ≡ cid')
slot_inj k k' cid cid' kk kk' lt lt' e = (omega (arith, e), omega (arith, e))

-- A row that waits for a command on a queue of a controller that exists.
pub record Waiting (ctrls : List (Option ℕ)) (ctx : RowCtx) : Type 0 where
  pub has_page : has_range ctx.r ≡ true
  pub missed : ctx.is_hit ≡ false
  pub submitted : (ctx.has_pending_io == 0) ≡ false
  pub n_qps : ℕ
  pub on_ctrl : get_elem? ctrls ctx.ctrl ≡ some (some n_qps)
  pub on_queue : ctx.queue < n_qps
  pub id_fits : ctx.cid < 2 ^ 16
  pub logical_queue_idx : ℕ
  -- No controller before it is null.
  pub reached : logical_from ctrls ctx.ctrl ctx.queue ≡ some logical_queue_idx

no_skip : (a b c : Bool) → a ≡ true → b ≡ false → c ≡ false → (not a || (b || c)) ≡ false
no_skip a b c p q r = ground (arith, p, q, r)

Waiting-slot :
    (ctrls : List (Option ℕ)) (ctx : RowCtx) (w : Waiting ctrls ctx)
    → registered_slot ctrls k_registered_cid_capacity ctx
      ≡ some (slot_of w.logical_queue_idx k_registered_cid_capacity ctx.cid)
unfolding registered_slot
Waiting-slot ctrls ctx w =
    if_false _ _ (
      no_skip (has_range ctx.r) ctx.is_hit (ctx.has_pending_io == 0) w.has_page w.missed
        w.submitted)
    ∙ ap (slot_below k_registered_cid_capacity ctx.cid) w.reached
    ∙ if_false _ _ (lt→leb ctx.cid k_registered_cid_capacity w.id_fits)

module _ (ctrls : List (Option ℕ)) (ctx_lookup : ℕ → ℕ) (ctx : RowCtx) (address : ℕ)
    (w : Waiting ctrls ctx) where
  own_slot : ℕ
  own_slot = slot_of w.logical_queue_idx k_registered_cid_capacity ctx.cid

  abbrev after_register : ℕ → ℕ
  after_register = register_row ctrls k_registered_cid_capacity ctx_lookup ctx address

  registered : after_register ≡ update ctx_lookup own_slot address
  unfolding register_row own_slot
  registered = ap (write_slot ctx_lookup address) (Waiting-slot ctrls ctx w)

  registered_own : after_register own_slot ≡ address
  registered_own = ap (λ t. t own_slot) registered ∙ update_self ctx_lookup own_slot address

  taken :
      address ≢ 0
      → (take_row k_registered_cid_capacity w.logical_queue_idx ctx.cid after_register).0
        ≡ some address
  unfolding take_row own_slot
  taken real =
      ap (λ (r : Option ℕ × (ℕ → ℕ)). r.0)
        (if_false _ _ (lt→leb ctx.cid k_registered_cid_capacity w.id_fits)
          ∙ if_false _ _ (not_null (after_register own_slot) (λ e. real (sym registered_own ∙ e))))
      ∙ ap some registered_own
    where
      not_null : (a : ℕ) → a ≢ 0 → (a == 0) ≡ false
      not_null a ne = ground (arith, ne)

-- A completion on a queue of a controller, whose number among all queues the service kernel takes
-- apart again, finds the row that was registered for that controller, queue and command id; and
-- registering it does not touch what any completion on another queue or with another id finds.
-- The row waits on a queue that exists, its address is not null, and there are fewer than 2^32
-- queues.
pub lookup_lem :
    (ctrls : List (Option ℕ)) (ctx_lookup : ℕ → ℕ) (ctx : RowCtx) (address : ℕ)
    → Waiting ctrls ctx
    → address ≢ 0
    → ctx.queue + queues_in ctrls < 2 ^ 32
    → (k : ℕ) × (locate_from ctrls 0 k ≡ some (ctx.ctrl, ctx.queue))
      × ((take_row k_registered_cid_capacity k ctx.cid
            (register_row ctrls k_registered_cid_capacity ctx_lookup ctx address)).0
          ≡ some address)
      × ((k' cid' : ℕ)
          → k' < 2 ^ 32
          → cid' < 2 ^ 16
          → (locate_from ctrls 0 k' ≢ some (ctx.ctrl, ctx.queue)) ⊎ (cid' ≢ ctx.cid)
          → register_row ctrls k_registered_cid_capacity ctx_lookup ctx address
              (slot_of k' k_registered_cid_capacity cid')
            ≡ ctx_lookup (slot_of k' k_registered_cid_capacity cid'))
unfolding own_slot
lookup_lem ctrls ctx_lookup ctx address w real room =
    let k = w.logical_queue_idx in
    let (located, small) =
      locate-logical ctrls ctx.ctrl 0 ctx.queue w.n_qps k w.on_ctrl w.on_queue room w.reached in
    let found : locate_from ctrls 0 k ≡ some (ctx.ctrl, ctx.queue) =
      located ∙ ap (λ a. some (a, ctx.queue)) (omega arith) in
    (
      k,
      found,
      taken ctrls ctx_lookup ctx address w real,
      λ k' cid' kk lt apart.
          ap (λ t. t (slot_of k' k_registered_cid_capacity cid'))
            (registered ctrls ctx_lookup ctx address w)
          ∙ update_ne ctx_lookup _ _ address (λ e.
            let (same_k, same_cid) = slot_inj k k' ctx.cid cid' small kk w.id_fits lt e in
            elim apart [
              | inl far ↦ far (ap (locate_from ctrls 0) (sym same_k) ∙ found)
              | inr other ↦ other (sym same_cid)
            ]),
    )
