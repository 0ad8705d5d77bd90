-- ===== src/Examples/Commands.antt =====
-- Submission queue entries and PRP lists.
use generic_asynchronous_io.Prelude.{ℕ, ◌+◌, ◌*◌, ◌^◌, ◌≡◌, [], ◌∷◌, some, refl, arith}
use generic_asynchronous_io.Command.{
  NvmCmd, opcode, io_read, io_write_zeroes, write_bits, header, data_ptr, rw_blks,
}
use generic_asynchronous_io.Command.Fields.{
  cid_of, opcode_of, nsid_of, prp1_of, prp2_of, slba_of, n_blks_of, entry_lem,
}
use generic_asynchronous_io.Prp.{PrpList, Memory, prp_list_chain}
use generic_asynchronous_io.Prp.Walk.{IsChain, Absent, walk, from}
use generic_asynchronous_io.Prp.Chain.{prp_list_chain_lem}

abbrev stale : NvmCmd
stale = record { dword = λ i. i + 2 ^ 31 }

abbrev entry : NvmCmd
entry = rw_blks (data_ptr (header stale 300 2 1) (2 ^ 33) 4096) (2 ^ 40) 8

io_read_value : (io_read ≡ 2) × (io_write_zeroes ≡ 8)
unfolding io_read io_write_zeroes opcode write_bits
io_read_value = (refl, refl)

entry_lem_example :
    (cid_of entry ≡ 300)
    × (opcode_of entry ≡ 2)
    × (nsid_of entry ≡ 1)
    × (prp1_of entry ≡ 2 ^ 33)
    × (prp2_of entry ≡ 4096)
    × (slba_of entry ≡ 2 ^ 40)
    × (n_blks_of entry ≡ 8)
entry_lem_example =
    entry_lem stale 300 2 1 (2 ^ 33) 4096 (2 ^ 40) 8 (omega arith) (omega arith) (omega arith)
      (omega arith) (omega arith) (omega arith) (omega arith) (omega arith)

-- Two lists of four entries each take seven pages.
abbrev list_a : PrpList
list_a = record { vaddr = 100; page_size = 32; ioaddr = 5000 }

abbrev list_b : PrpList
list_b = record { vaddr = 200; page_size = 32; ioaddr = 6000 }

abbrev garbage : Memory
garbage v j = v + j

abbrev addresses : ℕ → ℕ
addresses i = 4096 * i

pages_IsChain : IsChain 32 (list_a ∷ list_b ∷ [])
pages_IsChain = (refl, ((λ e. omega (arith, e)), tt), (refl, tt, tt))

prp_list_chain_lem_example :
    let out = prp_list_chain garbage (list_a ∷ list_b ∷ []) 7 addresses in
    (out.used ≡ 7)
    × (walk out.memory (list_a ∷ list_b ∷ []) 7 ≡ some (from addresses 0 7))
    × ((v j : ℕ) → Absent v (list_a ∷ list_b ∷ []) → out.memory v j ≡ garbage v j)
prp_list_chain_lem_example =
    prp_list_chain_lem 32 (omega arith) (omega arith) garbage list_a (list_b ∷ []) 7 addresses
      pages_IsChain (omega arith) (omega arith)
