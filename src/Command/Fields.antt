-- ===== src/Command/Fields.antt =====
-- What the device reads in an entry that the driver has built (NVMe specification, command
-- format), against the functions that write it.
use generic_asynchronous_io.Prelude.{
  ℕ, ◌+◌, ◌-◌, ◌*◌, ◌/◌, ◌%◌, ◌^◌, ◌≤◌, ◌<◌, ◌≡◌, arith, bit_and, bit_or, ap, ap₂, split_and, ◌∙◌,
  bit_and_ones, bit_and_upper, bit_and_keep, bit_or_join, bit_or-zero, u32, ◌<<<◌, two-pow-add,
}
use native.Mathlib.Nat.{one-le-pow, mul-div_cancel, mod-eq_of_lt}
use generic_asynchronous_io.Command.{
  NvmCmd, mask_part, read_bits, write_bits, header, data_ptr, rw_blks,
}

-- The command identifier, the opcode and the fused and PRP-or-SGL bits of the first word.
abbrev pub cid_of : NvmCmd → ℕ
cid_of c = c.dword 0 / 2 ^ 16

abbrev pub opcode_of : NvmCmd → ℕ
opcode_of c = c.dword 0 % 2 ^ 8

abbrev pub nsid_of : NvmCmd → ℕ
nsid_of c = c.dword 1

abbrev pub prp1_of : NvmCmd → ℕ
prp1_of c = c.dword 7 * 2 ^ 32 + c.dword 6

abbrev pub prp2_of : NvmCmd → ℕ
prp2_of c = c.dword 9 * 2 ^ 32 + c.dword 8

abbrev pub slba_of : NvmCmd → ℕ
slba_of c = c.dword 11 * 2 ^ 32 + c.dword 10

-- The number of logical blocks is a 0's based value.
abbrev pub n_blks_of : NvmCmd → ℕ
n_blks_of c = c.dword 12 % 2 ^ 16 + 1

module _ (cid op : ℕ) (cid_fits : cid < 2 ^ 16) where
  header_word :
      bit_or (bit_or (bit_or (u32 (cid <<< 16)) (0x00 <<< 14)) (0x00 <<< 8)) (bit_and op 0x7f)
      ≡ cid * 2 ^ 16 + op % 128
  header_word =
      ap (λ t. bit_or (bit_or (bit_or t 0) 0) (bit_and op 0x7f)) (omega arith)
      ∙ ap (λ t. bit_or (bit_or t 0) (bit_and op 0x7f)) (bit_or-zero (cid * 2 ^ 16))
      ∙ ap (λ t. bit_or t (bit_and op 0x7f)) (bit_or-zero (cid * 2 ^ 16))
      ∙ ap (bit_or (cid * 2 ^ 16)) (bit_and_ones 7 op)
      ∙ bit_or_join 16 cid (op % 128) (omega arith)

  -- Clearing the fused and PRP-or-SGL bits changes nothing in a fresh header.
  header_word_masked : bit_and (cid * 2 ^ 16 + op % 128) 0xffff_3cff ≡ cid * 2 ^ 16 + op % 128
  header_word_masked =
      bit_and_keep 8 0xffff3c (cid * 2 ^ 16 + op % 128)
      ∙ ap (λ t. bit_and t 0xffff3c * 2 ^ 8 + (cid * 2 ^ 16 + op % 128) % 2 ^ 8)
          {y = cid * 2 ^ 8 + 0} (omega arith)
      ∙ omega
          (arith, split_and 8 cid 0 0xffff 0x3c (omega arith) (omega arith), bit_and_ones 16 cid)

count_word :
    (d n : ℕ)
    → bit_or (bit_and d 0xffff_0000) (bit_and (n % 2 ^ 16 + 2 ^ 32 - 1) 0xffff)
      ≡ bit_and (d / 2 ^ 16) 0xffff * 2 ^ 16 + (n % 2 ^ 16 + 2 ^ 32 - 1) % 2 ^ 16
count_word d n =
    ap₂ bit_or (bit_and_upper 16 0xffff d) (bit_and_ones 16 (n % 2 ^ 16 + 2 ^ 32 - 1))
    ∙ bit_or_join 16 (bit_and (d / 2 ^ 16) 0xffff) ((n % 2 ^ 16 + 2 ^ 32 - 1) % 2 ^ 16)
        (omega arith)

-- The entry of a read or a write, built as `read_data` and `write_data` build it: the device
-- reads back the command identifier, the opcode, the namespace, both data pointers, the first
-- block and the number of blocks, for values within the width of their fields (1 to 2^16 blocks)
-- and from any memory that the entry held before.
pub entry_lem :
    (cmd : NvmCmd) (cid op ns_id prp1 prp2 start_lba n_blks : ℕ)
    → cid < 2 ^ 16
    → op < 128
    → ns_id < 2 ^ 32
    → prp1 < 2 ^ 64
    → prp2 < 2 ^ 64
    → start_lba < 2 ^ 64
    → 1 ≤ n_blks
    → n_blks ≤ 2 ^ 16
    → let entry = rw_blks (data_ptr (header cmd cid op ns_id) prp1 prp2) start_lba n_blks in
      (cid_of entry ≡ cid)
      × (opcode_of entry ≡ op)
      × (nsid_of entry ≡ ns_id)
      × (prp1_of entry ≡ prp1)
      × (prp2_of entry ≡ prp2)
      × (slba_of entry ≡ start_lba)
      × (n_blks_of entry ≡ n_blks)
unfolding header data_ptr rw_blks
entry_lem cmd cid op ns_id prp1 prp2 start_lba n_blks h1 h2 h3 h4 h5 h6 h7 h8 = (
  ap (λ t. t / 2 ^ 16) word ∙ omega arith,
  ap (λ t. t % 2 ^ 8) word ∙ omega arith,
  omega arith,
  omega arith,
  omega arith,
  omega arith,
  omega (arith, count_word (cmd.dword 12) n_blks),
)
  where
    word : (data_ptr (header cmd cid op ns_id) prp1 prp2).dword 0 ≡ cid * 2 ^ 16 + op % 128
    word = ap (λ t. bit_and t 0xffff_3cff) (header_word cid op h1) ∙ header_word_masked cid op h1

-- `_NVM_MASK_PART` is the ones from digit `lo` to digit `hi`.
mask_part_lem : (hi lo : ℕ) → lo ≤ hi → mask_part hi lo ≡ (2 ^ (hi + 1 - lo) - 1) * 2 ^ lo
unfolding mask_part
mask_part_lem hi lo h = omega (
  arith,
  two-pow-add (hi + 1 - lo) lo,
  ap (λ (t : ℕ). 2 ^ t) {x = hi + 1 - lo + lo} {y = hi + 1} (omega arith),
  one-le-pow lo 2,
  ap (λ (t : ℕ). t * 2 ^ lo) {x = 2 ^ (hi + 1 - lo) - 1 + 1} {y = 2 ^ (hi + 1 - lo)}
      (omega (arith, one-le-pow (hi + 1 - lo) 2)),
)

-- `_RB` reads the digits from `lo` to `hi` as a number.
pub read_bits_lem : (v hi lo : ℕ) → lo ≤ hi → read_bits v hi lo ≡ v / 2 ^ lo % 2 ^ (hi + 1 - lo)
unfolding read_bits
read_bits_lem v hi lo h =
    ap (λ t. bit_and v t / 2 ^ lo) (mask_part_lem hi lo h)
    ∙ ap (λ t. t / 2 ^ lo) (bit_and_upper lo (2 ^ (hi + 1 - lo) - 1) v)
    ∙ mul-div_cancel (bit_and (v / 2 ^ lo) (2 ^ (hi + 1 - lo) - 1)) (one-le-pow lo 2 (omega arith))
    ∙ bit_and_ones (hi + 1 - lo) (v / 2 ^ lo)

-- `_WB` of a value that fits the field puts it at digit `lo`.
pub write_bits_lem :
    (v hi lo : ℕ) → lo ≤ hi → v < 2 ^ (hi + 1 - lo) → write_bits v hi lo ≡ v * 2 ^ lo
unfolding write_bits
write_bits_lem v hi lo h p =
    ap (bit_and (v * 2 ^ lo)) (mask_part_lem hi lo h)
    ∙ bit_and_upper lo (2 ^ (hi + 1 - lo) - 1) (v * 2 ^ lo)
    ∙ ap (λ t. bit_and t (2 ^ (hi + 1 - lo) - 1) * 2 ^ lo)
        (mul-div_cancel v (one-le-pow lo 2 (omega arith)))
    ∙ ap (λ t. t * 2 ^ lo) (bit_and_ones (hi + 1 - lo) v ∙ mod-eq_of_lt p)

-- `_RB` at the same digits gives back every value that `_WB` was given and that fits the field.
pub read_bits-write_bits :
    (v hi lo : ℕ) → lo ≤ hi → v < 2 ^ (hi + 1 - lo) → read_bits (write_bits v hi lo) hi lo ≡ v
read_bits-write_bits v hi lo h p =
    read_bits_lem (write_bits v hi lo) hi lo h
    ∙ ap (λ t. t / 2 ^ lo % 2 ^ (hi + 1 - lo)) (write_bits_lem v hi lo h p)
    ∙ ap (λ t. t % 2 ^ (hi + 1 - lo)) (mul-div_cancel v (one-le-pow lo 2 (omega arith)))
    ∙ mod-eq_of_lt p
