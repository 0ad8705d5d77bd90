-- ===== src/Command.antt =====
-- bam/include/nvm_cmd.h and the bit macros of bam/include/nvm_util.h: how the driver writes the
-- fields of a 64-byte submission queue entry.
pub mod Fields
use generic_asynchronous_io.Prelude.{
  ℕ, ◌+◌, ◌-◌, ◌*◌, ◌/◌, ◌^◌, bit_and, bit_or, u16, u32, ◌<<<◌, ◌>>>◌, update,
}

-- `nvm_cmd_t`: sixteen 32-bit words.
pub record NvmCmd : Type 0 where
  pub dword : ℕ → ℕ

-- `cmd->dword[i] = v`
abbrev pub set_dword : NvmCmd → ℕ → ℕ → NvmCmd
set_dword cmd i v = record { dword = update cmd.dword i v }

-- `_NVM_MASK`, `_NVM_MASK_PART`, `_RB` and `_WB`, for fields that lie within 64 bits.
pub mask : ℕ → ℕ
mask num_bits = 2 ^ num_bits - 1

pub mask_part : ℕ → ℕ → ℕ
unfolding mask
mask_part hi lo = mask (hi + 1) - mask lo

unfoldable pub read_bits : ℕ → ℕ → ℕ → ℕ
unfolding mask_part
read_bits v hi lo = bit_and v (mask_part hi lo) >>> lo

unfoldable pub write_bits : ℕ → ℕ → ℕ → ℕ
unfolding mask_part
write_bits v hi lo = bit_and (v <<< lo) (mask_part hi lo)

-- `NVM_CMD_OPCODE`
unfoldable pub opcode : ℕ → ℕ → ℕ → ℕ
unfolding write_bits
opcode gen fun kind =
    bit_or (bit_or (write_bits gen 7 7) (write_bits fun 6 2)) (write_bits kind 1 0)

-- The IO command set.
unfoldable pub io_flush : ℕ
unfolding opcode
io_flush = opcode 0 0 0

unfoldable pub io_write : ℕ
unfolding opcode
io_write = opcode 0 0 1

unfoldable pub io_read : ℕ
unfolding opcode
io_read = opcode 0 0 2

unfoldable pub io_write_zeroes : ℕ
unfolding opcode
io_write_zeroes = opcode 0 2 0

-- `nvm_cmd_header`
unfoldable pub header : NvmCmd → ℕ → ℕ → ℕ → NvmCmd
header cmd cid op ns_id =
    let first =
      bit_or (bit_or (bit_or (u32 (cid <<< 16)) (0x00 <<< 14)) (0x00 <<< 8)) (bit_and op 0x7f) in
    set_dword (set_dword cmd 0 first) 1 ns_id

-- `nvm_cmd_data_ptr`; the mask is `~((0x03 << 14) | (0x03 << 8))` on 32 bits.
unfoldable pub data_ptr : NvmCmd → ℕ → ℕ → NvmCmd
data_ptr cmd prp1 prp2 =
    let c0 = set_dword cmd 0 (bit_and (cmd.dword 0) 0xffff_3cff) in
    let c6 = set_dword c0 6 (u32 prp1) in
    let c7 = set_dword c6 7 (u32 (prp1 >>> 32)) in
    let c8 = set_dword c7 8 (u32 prp2) in set_dword c8 9 (u32 (prp2 >>> 32))

-- `nvm_cmd_rw_blks`; `n_blks - 1` is computed in `int`, of which the mask keeps 16 bits.
unfoldable pub rw_blks : NvmCmd → ℕ → ℕ → NvmCmd
rw_blks cmd start_lba n_blks =
    let c10 = set_dword cmd 10 (u32 start_lba) in
    let c11 = set_dword c10 11 (u32 (start_lba >>> 32)) in
    let count = bit_and (u16 n_blks + 2 ^ 32 - 1) 0xffff in
    set_dword c11 12 (bit_or (bit_and (c11.dword 12) 0xffff_0000) count)
