-- ===== src/Prp.antt =====
-- bam/include/nvm_cmd.h: PRP lists, the chain of them, and the data pointer of a command.
pub mod Walk
pub mod Chain
use generic_asynchronous_io.Prelude.{
  ℕ, zero, suc, ◌+◌, ◌-◌, ◌/◌, ◌%◌, ◌^◌, ltb, ◌==◌, if◌then◌else◌, update, Bool, true, false, List,
  [], ◌∷◌, ◌&&◌, not, leb,
}
use generic_asynchronous_io.Command.{NvmCmd, data_ptr}

-- `nvm_prp_list_t`, without the flag for local memory, which only matters to cache flushes.
pub record PrpList : Type 0 where
  pub vaddr : ℕ
  pub page_size : ℕ
  pub ioaddr : ℕ

-- The 64-bit entries of the pages: `m v j` is entry `j` of the page that is mapped at `v`.
abbrev pub Memory : Type 0
Memory = ℕ → ℕ → ℕ

-- `((volatile uint64_t*) vaddr)[i] = v`
unfoldable pub store : Memory → ℕ → ℕ → ℕ → Memory
store m vaddr i v = update m vaddr (update (m vaddr) i v)

-- The loop of `nvm_prp_list`, from its last entry down: the entries are distinct.
pub fill : Memory → ℕ → (ℕ → ℕ) → ℕ → Memory
unfolding store
fill m vaddr ioaddrs zero = m
fill m vaddr ioaddrs (suc n) = store (fill m vaddr ioaddrs n) vaddr n (ioaddrs n)

-- How many entries `nvm_prp_list` writes; `--n_prps` is on `size_t`.
unfoldable pub list_room : PrpList → ℕ → ℕ
list_room list n_pages =
    let n_prps = list.page_size / 8 in
    if ltb n_prps n_pages then (n_prps + 2 ^ 64 - 1) % 2 ^ 64 else n_pages

-- `nvm_prp_list`: the memory after it, and the number of entries used.
pub record Filled : Type 0 where
  pub memory : Memory
  pub used : ℕ

unfoldable pub prp_list : Memory → PrpList → ℕ → (ℕ → ℕ) → Filled
unfolding fill list_room
prp_list m list n_pages ioaddrs =
    let n_prps = list_room list n_pages in
    if n_pages == 0
    then record { memory = m; used = 0 }
    else record { memory = fill m list.vaddr ioaddrs n_prps; used = n_prps }

-- The loop of `nvm_prp_list_chain` over the lists behind `last`, into which the latest call
-- wrote `list_prps` entries.
unfoldable pub chain_from : Memory → PrpList → ℕ → ℕ → List PrpList → ℕ → (ℕ → ℕ) → Filled
unfolding prp_list store
chain_from m last list_prps n_prps [] n_pages ioaddrs = record { memory = m; used = n_prps }
chain_from m last list_prps n_prps (list ∷ rest) n_pages ioaddrs =
    let linked = store m last.vaddr list_prps list.ioaddr in
    let filled = prp_list linked list (n_pages - n_prps) (λ j. ioaddrs (n_prps + j)) in
    let more =
      chain_from filled.memory list filled.used (n_prps + filled.used) rest n_pages ioaddrs in
    if ltb n_prps n_pages then more else record { memory = m; used = n_prps }

-- `nvm_prp_list_chain`; no lists also stands for a null pointer.
unfoldable pub prp_list_chain : Memory → List PrpList → ℕ → (ℕ → ℕ) → Filled
unfolding chain_from
prp_list_chain m [] n_pages ioaddrs = record { memory = m; used = 0 }
prp_list_chain m (first ∷ rest) n_pages ioaddrs =
    let filled = prp_list m first n_pages ioaddrs in
    chain_from filled.memory first filled.used filled.used rest n_pages ioaddrs

-- What `nvm_cmd_data` leaves behind: the command, the pages, and the number of pages it covers.
pub record Pointed : Type 0 where
  pub command : NvmCmd
  pub pages : Memory
  pub covered : ℕ

abbrev pub first_ioaddr : List PrpList → ℕ
first_ioaddr [] = 0
first_ioaddr (list ∷ _) = list.ioaddr

abbrev pub is_empty : List PrpList → Bool
is_empty [] = true
is_empty (_ ∷ _) = false

-- `nvm_cmd_data`
unfoldable pub cmd_data : Memory → NvmCmd → List PrpList → ℕ → (ℕ → ℕ) → Pointed
unfolding prp_list_chain
cmd_data m cmd lists n_pages ioaddrs =
    let chained = prp_list_chain m lists (n_pages - 1) (λ j. ioaddrs (1 + j)) in
    if n_pages == 0
    then record { command = cmd; pages = m; covered = 0 }
    else if ltb 2 n_pages && not (is_empty lists)
    then record {
      command = data_ptr cmd (ioaddrs 0) (first_ioaddr lists);
      pages = chained.memory;
      covered = 1 + chained.used;
    }
    else if leb 2 n_pages
    then record { command = data_ptr cmd (ioaddrs 0) (ioaddrs 1); pages = m; covered = 2 }
    else record { command = data_ptr cmd (ioaddrs 0) 0; pages = m; covered = 1 }
