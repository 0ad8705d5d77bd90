-- ===== src/Completion.antt =====
-- Completion queue entries (`nvm_cpl_t` of bam/include/nvm_types.h) and the memory of a
-- completion queue as the controller fills it: entry `a` of the endless sequence goes to slot
-- `a % qs`, and its phase tag is inverted on every round (NVMe specification, phase tag).
pub mod Phase
use generic_asynchronous_io.Prelude.{
  ℕ, zero, suc, ◌+◌, ◌-◌, ◌*◌, ◌/◌, ◌%◌, ◌^◌, ◌==◌, if◌then◌else◌, Bool, bit_and, ◌>>>◌, ◌≡◌,
}

-- The two words of a `nvm_cpl_t` that the driver reads.
pub record NvmCpl : Type 0 where
  pub dword2 : ℕ
  pub dword3 : ℕ

-- `cpl_entry & 0x0000ffff` of `dword[3]`
unfoldable pub cid : NvmCpl → ℕ
cid c = bit_and c.dword3 0x0000_ffff

-- `(cpl_entry & 0x00010000) >> 16` of `dword[3]`, as a `bool`
unfoldable pub phase : NvmCpl → Bool
phase c = bit_and c.dword3 0x0001_0000 >>> 16 == 1

-- `cpl_entry & 0x0000ffff` of `dword[2]`: how far the controller has read the submission queue.
unfoldable pub sq_head : NvmCpl → ℕ
sq_head c = bit_and c.dword2 0x0000_ffff

-- The tag of entry `a`: 1 on the first round.
abbrev pub tag : ℕ → ℕ → Bool
tag qs a = a / qs % 2 == 0

-- The queue's memory is cleared before use.
abbrev pub blank : NvmCpl
blank = record { dword2 = 0; dword3 = 0 }

-- The slots after `p` entries of the controller's sequence have been posted.
unfoldable pub written : ℕ → (ℕ → NvmCpl) → ℕ → ℕ → NvmCpl
written qs posts zero slot = blank
written qs posts (suc p) slot = if p % qs == slot then posts p else written qs posts p slot

-- The controller tags what it posts.
abbrev pub IsTagged : ℕ → (ℕ → NvmCpl) → Type 0
IsTagged qs posts = (a : ℕ) → phase (posts a) ≡ tag qs a
