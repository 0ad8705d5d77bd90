-- ===== src/Mapping/UserPages.antt =====
-- Mapping the pages of a process and releasing them again.
use generic_asynchronous_io.Prelude.{
  ℕ, ◌+◌, ◌-◌, ◌*◌, ◌≤◌, ◌≡◌, ◌≢◌, ◌⊎◌, List, [], ◌∷◌, ◌++◌, map, length, take, replicate, none,
  some, update, bit_and,
}
use generic_asynchronous_io.KernelList.{null, list_insert}
use generic_asynchronous_io.KernelList.Chain.{Absent, IsList}
use generic_asynchronous_io.Mapping.{
  no_release, Map, Event, dma_unmapped, page_put, pages_freed, map_freed, World, pinned, Kernel,
  page_size, page_mask, enomem, einval, create_descriptor, unmap_and_release, MapResult, err_ptr,
  mapped,
}
use generic_asynchronous_io.Mapping.Failed.{StopsAt}
use generic_asynchronous_io.Mapping.Pages.{AllMapped, PinsPages, Unpinned}

-- What is given back for a mapping of these pages at these bus addresses.
abbrev pub given_back : (at : ℕ) (pages addrs : List ℕ) → List Event
given_back at pages addrs =
    (map dma_unmapped addrs ++ (map page_put pages ++ pages_freed ∷ [])) ++ map_freed at ∷ []

-- The mapping is the last of the list, and releasing it gives back what it took and no more.
pub record Mapped (k : Kernel) (w w' : World) (list at pdev vaddr n_pages : ℕ) (xs ps : List ℕ)
    : Type 0 where
  pub got : k.get_user_pages (bit_and vaddr page_mask) n_pages ≡ pinned ps
  pub all_mapped : AllMapped k ps
  pub listed : IsList w'.heap list (xs ++ at ∷ [])
  pub its_owner : (w'.maps at).owner ≡ k.current
  pub its_vaddr : (w'.maps at).vaddr ≡ bit_and vaddr page_mask
  pub its_addrs : take (w'.maps at).n_addrs (w'.maps at).addrs ≡ map (k.dma_map_page) ps
  pub nothing_released : w'.log ≡ w.log
  pub unlisted : IsList (unmap_and_release w' at).heap list xs
  pub released : (unmap_and_release w' at).log ≡ w.log ++ given_back at ps (map (k.dma_map_page) ps)

-- The descriptor before any page is pinned.
abbrev pub described : Kernel → (pdev vaddr n_pages : ℕ) → Map
described k pdev vaddr n_pages = record {
  owner = k.current;
  vaddr = bit_and vaddr page_mask;
  pdev = pdev;
  page_size = page_size;
  pages = none;
  release = no_release;
  n_addrs = n_pages;
  addrs = replicate n_pages 0;
}

abbrev pub UserMapping :
    Kernel → World → (list at pdev vaddr n_pages : ℕ) → List ℕ → MapResult × World → Type 0
UserMapping k w list at pdev vaddr n_pages xs r =
    (r.0 ≡ mapped at) × ((ps : List ℕ) × Mapped k w r.1 list at pdev vaddr n_pages xs ps)

-- The list is as before and the descriptor freed. Either no page was pinned and nothing else is given
-- back; or one of the pages was not mapped, and all of them are put and as many addresses unmapped.
abbrev pub FailedMapping :
    Kernel → World → Map → (list at : ℕ) → List ℕ → MapResult × World → Type 0
FailedMapping k w m list at xs r =
    (err : ℕ) × (r.0 ≡ err_ptr err)
    × (err ≢ 0)
    × IsList (r.1).heap list xs
    × ((Unpinned k m × ((r.1).log ≡ w.log ++ map_freed at ∷ []))
        ⊎ ((ps : List ℕ) × (addrs : List ℕ) × (k.get_user_pages m.vaddr m.n_addrs ≡ pinned ps)
            × StopsAt k ps addrs
            × (length addrs ≡ length ps)
            × ((r.1).log ≡ w.log ++ given_back at ps addrs)))

module _ (k : Kernel) (laws : PinsPages k) (w : World) (list at pdev vaddr n_pages : ℕ)
    (xs : List ℕ) (v : IsList w.heap list xs) (some_node : at ≢ null) (out : Absent at (list ∷ xs))
    (pos : 1 ≤ n_pages) where
  abbrev w1 : World
  w1 = create_descriptor k w at pdev (bit_and vaddr page_mask) n_pages

  abbrev md : Map
  md = described k pdev vaddr n_pages

  with_map : Map → World
  with_map m = record w1 { maps = update w1.maps at m; heap = list_insert w1.heap list at }

  abbrev Failed : MapResult × World → Type 0
  Failed = FailedMapping k w md list at xs

  abbrev Succeeded : MapResult × World → Type 0
  Succeeded = UserMapping k w list at pdev vaddr n_pages xs

-- The mapping was made; or the descriptor was freed and an error returned; or nothing changed,
-- because no page was asked for or there was no memory.
abbrev pub MapsUser :
    Kernel → World → (list pdev vaddr n_pages : ℕ) → List ℕ → MapResult × World → Type 0
MapsUser k w list pdev vaddr n_pages xs r =
    ((at : ℕ) × (k.kvmalloc (k.map_size + (n_pages - 1) * 8) ≡ some at)
      × (UserMapping k w list at pdev vaddr n_pages xs r
          ⊎ FailedMapping k w (described k pdev vaddr n_pages) list at xs r))
    ⊎ ((r.1 ≡ w)
        × (((n_pages ≡ 0) × (r.0 ≡ err_ptr einval))
            ⊎ ((k.kvmalloc (k.map_size + (n_pages - 1) * 8) ≡ none) × (r.0 ≡ err_ptr enomem))))
