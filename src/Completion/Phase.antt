-- ===== src/Completion/Phase.antt =====
-- The phase tag tells a posted entry from one that is left over from the round before.
use native.Mathlib.Nat.{div-add-mod', add-div_right, add-mod_right, div-eq_of_lt}
use generic_asynchronous_io.Prelude.{
  ℕ, zero, suc, ◌+◌, ◌/◌, ◌%◌, ◌^◌, ◌≤◌, ◌<◌, ◌==◌, Bool, true, false, not, ◌≡◌, ◌≢◌, refl, arith,
  dec_lt, ap, ◌∙◌, ℕ_discrete, sym, ◌↔◌, bit_and_bit,
}
use generic_asynchronous_io.Completion.{NvmCpl, phase, tag, blank, written, IsTagged}

-- Two numbers of the same remainder that are less than `q` apart are equal.
pub eq_of_mod-eq : (q x y : ℕ) → x % q ≡ y % q → x < y + q → y < x + q → x ≡ y
eq_of_mod-eq q x y e h k = grind (arith, div-add-mod' x q, div-add-mod' y q)

tag-add : (q a : ℕ) → 0 < q → tag q (a + q) ≡ not (tag q a)
tag-add q a h = ground (arith, add-div_right a h)

-- The tag is bit 16 of `dword[3]`.
pub phase-eq : (c : NvmCpl) → phase c ≡ (c.dword3 / 2 ^ 16 % 2 == 1)
unfolding phase
phase-eq c = ap (λ t. t / 2 ^ 16 == 1) (bit_and_bit 16 c.dword3) ∙ ap (λ t. t == 1) (omega arith)

not-ne : (b : Bool) → b ≢ not b
not-ne true e = cc
not-ne false e = cc

module _ (qs : ℕ) (pos : 0 < qs) (posts : ℕ → NvmCpl) (tagged : IsTagged qs posts) where
  -- A slot holds the latest entry that was posted to it.
  pub written_lem : (p a : ℕ) → p ≤ a + qs → a < p → written qs posts p (a % qs) ≡ posts a
  unfolding written
  written_lem zero a h k = absurd (omega arith)
  written_lem (suc p) a h k = elim (ℕ_discrete (p % qs) (a % qs)) [
    | yes e ↦ ground (arith, ap posts (eq_of_mod-eq qs p a e (omega arith) (omega arith)))
    | no ne ↦
        let other : p ≢ a = λ e. ne (ap (λ t. t % qs) e) in
        ground (arith, written_lem p a (omega arith) (omega arith))
  ]

  phase_blank : phase blank ≡ false
  unfolding phase
  phase_blank = refl

  -- A slot that is next to be posted has the wrong tag.
  pub phase_stale :
      (p a : ℕ) → p ≤ a → a < p + qs → phase (written qs posts p (a % qs)) ≡ not (tag qs a)
  unfolding written
  phase_stale zero a h k = ground (arith, phase_blank, div-eq_of_lt {n = a} {m = qs} (omega arith))
  phase_stale (suc p) a h k = elim (ℕ_discrete (p % qs) (a % qs)) [
    | yes e ↦
        let next : p + qs ≡ a =
          eq_of_mod-eq qs (p + qs) a (add-mod_right p qs ∙ e) (omega arith) (omega arith) in
        ground (arith, tagged p, tag-add qs p pos, ap (tag qs) next)
    | no ne ↦
        let other : p + qs ≢ a = λ e. ne (sym (add-mod_right p qs) ∙ ap (λ t. t % qs) e) in
        ground (arith, phase_stale p a (omega arith) (omega arith))
  ]

  -- A slot that has been posted once more has the wrong tag again.
  pub phase_over :
      (p a : ℕ)
      → a + qs < p
      → p ≤ a + qs + qs
      → phase (written qs posts p (a % qs)) ≡ not (tag qs a)
  phase_over p a over least =
      ap (λ t. phase (written qs posts p t)) (sym (add-mod_right a qs))
      ∙ ap phase (written_lem p (a + qs) least over)
      ∙ tagged (a + qs)
      ∙ tag-add qs a pos

  -- Where the controller tags by rounds, with `p` entries posted, and `a` at most a round away from them, slot `a % qs` shows the tag
  -- of entry `a` exactly when that entry has been posted.
  pub phase_lem :
      (p a : ℕ)
      → p ≤ a + qs
      → a < p + qs
      → (phase (written qs posts p (a % qs)) ≡ tag qs a) ↔ (a < p)
  phase_lem p a h k = elim (dec_lt a p) [
    | yes below ↦ (λ _. below, λ _. ap phase (written_lem p a h below) ∙ tagged a)
    | no above ↦ (
      λ e. absurd (not-ne (tag qs a) (sym e ∙ phase_stale p a (omega arith) k)),
      λ below. absurd (above below),
    )
  ]
