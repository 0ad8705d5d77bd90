-- ===== src/Mapping.antt =====
-- bam/module/map.c: how the kernel module pins the pages of a process and maps them for a
-- controller, finds a mapping and releases it. The calls of the kernel are parameters.
pub mod Lists
pub mod Pages
pub mod Failed
pub mod UserPages
pub mod Lookup
use generic_asynchronous_io.Prelude.{
  ℕ, zero, suc, ◌+◌, ◌-◌, ◌*◌, ◌^◌, u64, ◌<◌, ◌≡◌, Bool, true, false, not, ◌&&◌, ◌||◌, ◌==◌, ltb,
  if◌then◌else◌, List, [], ◌∷◌, ◌++◌, map, length, set, take, replicate, Option, none, some, update,
  bit_and,
}
use generic_asynchronous_io.KernelList.{
  Heap, list_node_init, list_remove, list_insert, list_next, Search, find_from,
}

-- The callback of a mapping.
pub data Release : Type 0 where
  no_release : Release  -- NULL
  release_user : Release

-- `struct map` but its list node, which has the same address; `pages` is its `data`.
pub record Map : Type 0 where
  pub owner : ℕ
  pub vaddr : ℕ
  pub pdev : ℕ
  pub page_size : ℕ
  pub pages : Option (List ℕ)
  pub release : Release
  pub n_addrs : ℕ
  pub addrs : List ℕ

-- What is given back to the kernel.
pub data Event : Type 0 where
  dma_unmapped : (addr : ℕ) → Event
  page_put : (page : ℕ) → Event
  pages_freed : Event
  map_freed : (at : ℕ) → Event

pub record World : Type 0 where
  pub heap : Heap
  pub maps : ℕ → Map
  pub log : List Event

-- `get_user_pages`: a negative result, or the pages, of which there are as many as it returns.
pub data Pinned : Type 0 where
  pin_failed : (err : ℕ) → Pinned
  pinned : (pages : List ℕ) → Pinned

-- What the kernel answers to one call of `map_userspace`: the size of a `struct map`, which has room
-- for one address, an address from `kvmalloc`, whether `kvcalloc` has memory, the pages, and the bus address of each with its error, 0 for none.
pub record Kernel : Type 0 where
  pub current : ℕ
  pub map_size : ℕ
  pub kvmalloc : (size : ℕ) → Option ℕ
  pub has_page_array : Bool
  pub get_user_pages : (vaddr n : ℕ) → Pinned
  pub dma_map_page : ℕ → ℕ
  pub dma_mapping_error : ℕ → ℕ

abbrev pub page_size : ℕ
page_size = 4096

abbrev pub page_mask : ℕ
page_mask = 0xffff_ffff_ffff_f000

abbrev pub gpu_page_mask : ℕ
gpu_page_mask = 0xffff_ffff_ffff_0000

abbrev pub enomem : ℕ
enomem = 12

abbrev pub einval : ℕ
einval = 22

-- `sizeof(struct map) + (n_pages - 1) * sizeof(uint64_t)`, on 64 bits.
unfoldable pub descriptor_size : Kernel → (n_pages : ℕ) → ℕ
descriptor_size k n_pages = u64 (k.map_size + u64 (u64 (n_pages + 2 ^ 64 - 1) * 8))

-- `create_descriptor`, where it has memory at an address. The `n_pages` addresses lie in that
-- memory where `descriptor_size` has not wrapped; writes beyond it are not modelled.
unfoldable pub create_descriptor : Kernel → World → (at pdev vaddr n_pages : ℕ) → World
create_descriptor k w at pdev vaddr n_pages = record w {
  heap = list_node_init w.heap at;
  maps = update w.maps at (record {
    owner = k.current;
    vaddr = vaddr;
    pdev = pdev;
    page_size = 0;
    pages = none;
    release = no_release;
    n_addrs = n_pages;
    addrs = replicate n_pages 0;
  });
}

-- The loop of `map_user_pages` from page `i` on: the error, and the addresses after it.
unfoldable pub map_pages_from : Kernel → List ℕ → (i : ℕ) → List ℕ → ℕ × List ℕ
map_pages_from k [] i addrs = (0, addrs)
map_pages_from k (page ∷ pages) i addrs =
    let addr = k.dma_map_page page in
    let rest = map_pages_from k pages (suc i) (set addrs i addr) in
    if k.dma_mapping_error addr == 0 then rest else (k.dma_mapping_error addr, set addrs i addr)

abbrev pub with_pages : Kernel → Map → Pinned → ℕ × Map
with_pages k m (pin_failed err) = (err, m)
with_pages k m (pinned []) = (0, m)
with_pages k m (pinned (page ∷ pages)) =
    let (err, addrs) = map_pages_from k (page ∷ pages) 0 m.addrs in
    (
      err,
      record m {
        n_addrs = length (page ∷ pages);
        page_size = page_size;
        pages = some (page ∷ pages);
        release = release_user;
        addrs = addrs;
      },
    )

-- `map_user_pages`: 0 or an error, and the mapping.
unfoldable pub map_user_pages : Kernel → Map → ℕ × Map
unfolding map_pages_from
map_user_pages k m =
    if not k.has_page_array
    then (enomem, m)
    else with_pages k m (k.get_user_pages m.vaddr m.n_addrs)

-- `release_user_pages`
unfoldable pub release_user_pages : World → (at : ℕ) → List ℕ → World
release_user_pages w at pages =
    let m = w.maps at in
    record w {
      maps = update w.maps at (record m { pages = none });
      log =
          w.log
          ++ (map dma_unmapped (take m.n_addrs m.addrs)
              ++ (map page_put (take m.n_addrs pages) ++ pages_freed ∷ []));
    }

abbrev pub release_by : World → (at : ℕ) → Release → Option (List ℕ) → World
release_by w at no_release pages = w
release_by w at release_user none = w
release_by w at release_user (some pages) = release_user_pages w at pages

-- `unmap_and_release`
unfoldable pub unmap_and_release : World → (at : ℕ) → World
unfolding release_user_pages
unmap_and_release w at =
    let unlinked = record w { heap = list_remove w.heap at } in
    let m = w.maps at in
    let released = release_by unlinked at m.release m.pages in
    record released { log = released.log ++ map_freed at ∷ [] }

-- What `map_userspace` returns: `ERR_PTR` of an error, or the mapping.
pub data MapResult : Type 0 where
  err_ptr : (err : ℕ) → MapResult
  mapped : (at : ℕ) → MapResult

abbrev pub map_at : Kernel → World → (list pdev vaddr n_pages : ℕ) → Option ℕ → MapResult × World
map_at k w list pdev vaddr n_pages none = (err_ptr enomem, w)
map_at k w list pdev vaddr n_pages (some at) =
    let w1 = create_descriptor k w at pdev (bit_and vaddr page_mask) n_pages in
    let (err, m) = map_user_pages k (record (w1.maps at) { page_size = page_size }) in
    let w2 = record w1 { maps = update w1.maps at m } in
    if not (err == 0)
    then (err_ptr err, unmap_and_release w2 at)
    else (mapped at, record w2 { heap = list_insert w2.heap list at })

-- `map_userspace`
unfoldable pub map_userspace : Kernel → World → (list pdev vaddr n_pages : ℕ) → MapResult × World
unfolding descriptor_size create_descriptor map_user_pages unmap_and_release
map_userspace k w list pdev vaddr n_pages =
    if ltb n_pages 1
    then (err_ptr einval, w)
    else map_at k w list pdev vaddr n_pages (k.kvmalloc (descriptor_size k n_pages))

-- The test of `map_find` on one mapping.
unfoldable pub is_mapping : (current vaddr : ℕ) → Map → Bool
is_mapping current vaddr m =
    (m.owner == current)
    && ((m.vaddr == bit_and vaddr page_mask) || (m.vaddr == bit_and vaddr gpu_page_mask))

-- `map_find`, for at most `fuel` tests of its loop's condition.
unfoldable pub map_find : World → (list current vaddr fuel : ℕ) → Search
unfolding find_from is_mapping
map_find w list current vaddr fuel =
    find_from w.heap (λ at. is_mapping current vaddr (w.maps at)) (list_next w.heap list) fuel
