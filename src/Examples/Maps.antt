-- ===== src/Examples/Maps.antt =====
-- Two pages of a task that are mapped behind one mapping, and the search for them.
use generic_asynchronous_io.Prelude.{◌-◌, ◌*◌, arith, true, [], ◌∷◌, replicate, none, some}
use generic_asynchronous_io.KernelList.{Heap, list_init, list_insert}
use generic_asynchronous_io.KernelList.Chain.{IsList}
use generic_asynchronous_io.KernelList.Insert.{list_init-IsList, list_insert-IsList}
use generic_asynchronous_io.Mapping.{World, Kernel, pinned, no_release, is_mapping, map_find}
use generic_asynchronous_io.Mapping.Lookup.{FirstMatch, map_find_lem}

abbrev old_nodes : Heap
old_nodes = list_insert (list_init (λ at. record { list = 0; next = 0; prev = 0 }) 10) 10 20

old_nodes-IsList : IsList old_nodes 10 (20 ∷ [])
old_nodes-IsList =
    list_insert-IsList (list_init (λ at. record { list = 0; next = 0; prev = 0 }) 10) 10 20 []
      (list_init-IsList (λ at. record { list = 0; next = 0; prev = 0 }) 10 (λ e. omega (arith, e)))
      (λ e. omega (arith, e)) ((λ e. omega (arith, e)), tt)

abbrev old_world : World
old_world = record {
  heap = old_nodes;
  maps = λ at. record {
    owner = 1;
    vaddr = 8192;
    pdev = 3;
    page_size = 4096;
    pages = none;
    release = no_release;
    n_addrs = 0;
    addrs = [];
  };
  log = [];
}

-- The pages are numbered from 500 on.
abbrev willing : Kernel
willing = record {
  current = 1;
  map_size = 88;
  kvmalloc = λ size. some 30;
  has_page_array = true;
  get_user_pages = λ vaddr n. pinned (500 ∷ replicate (n - 1) 501);
  dma_map_page = λ page. page * 4096;
  dma_mapping_error = λ addr. 0;
}

map_find_lem_example :
    FirstMatch
      (λ at. is_mapping 1 8195 (old_world.maps at))
      (20 ∷ [])
      (map_find old_world 10 1 8195 2)
map_find_lem_example = map_find_lem old_world 10 1 8195 2 (20 ∷ []) old_nodes-IsList (omega arith)
