-- ===== src/Placement/Stripes.antt =====
-- Different pages of a range lie at different places.
use native.Mathlib.Nat.{div-add-mod', mod-lt, div-le_self}
use generic_asynchronous_io.Prelude.{ℕ, ◌+◌, ◌/◌, ◌^◌, ◌<◌, ◌≡◌, ◌⊎◌, inl, inr, refl, arith}
use generic_asynchronous_io.Placement.{
  DataDist, replicate, stripe, all_ctrls, get_backing_page, get_backing_ctrl,
}

-- Where no page number overflows 64 bits, a page of a striped range goes to one of the controllers, a page of a replicated one to all of
-- them; and two pages of a range that share the controller and the page on its device are the
-- same page.
pub placement_lem :
    (dist : DataDist) (page_start n_ctrls a b : ℕ)
    → 0 < n_ctrls
    → n_ctrls < 2 ^ 64
    → page_start + a < 2 ^ 64
    → page_start + b < 2 ^ 64
    → (((dist ≡ stripe) × (get_backing_ctrl a n_ctrls dist < n_ctrls))
        ⊎ ((dist ≡ replicate) × (get_backing_ctrl a n_ctrls dist ≡ all_ctrls)))
      × (get_backing_ctrl a n_ctrls dist ≡ get_backing_ctrl b n_ctrls dist
          → get_backing_page page_start a n_ctrls dist ≡ get_backing_page page_start b n_ctrls dist
          → a ≡ b)
unfolding get_backing_page get_backing_ctrl
placement_lem stripe s n a b pos small ha hb = (
  inl (refl, mod-lt a pos),
  λ ctrl page.
      let same_page : a / n ≡ b / n = omega (arith, page, div-le_self a n, div-le_self b n) in
      grind (arith, div-add-mod' a n, div-add-mod' b n),
)
placement_lem replicate s n a b pos small ha hb =
    (inr (refl, refl), λ ctrl page. omega (arith, page))
