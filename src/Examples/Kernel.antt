-- ===== src/Examples/Kernel.antt =====
-- A list with the nodes at 10, 20 and 30, and the placement of pages on four controllers.
use generic_asynchronous_io.Prelude.{◌+◌, ◌<◌, ◌≡◌, ◌⊎◌, [], ◌∷◌, arith}
use generic_asynchronous_io.Placement.{
  stripe, replicate, all_ctrls, get_backing_page, get_backing_ctrl,
}
use generic_asynchronous_io.Placement.Stripes.{placement_lem}
use generic_asynchronous_io.KernelList.{Heap, null, list_init, list_insert, list_remove}
use generic_asynchronous_io.KernelList.Chain.{IsList}
use generic_asynchronous_io.KernelList.Insert.{list_init-IsList, list_insert-IsList}
use generic_asynchronous_io.KernelList.Remove.{list_remove-IsList}

placement_lem_example :
    (((stripe ≡ stripe) × (get_backing_ctrl 9 4 stripe < 4))
      ⊎ ((stripe ≡ replicate) × (get_backing_ctrl 9 4 stripe ≡ all_ctrls)))
    × (get_backing_ctrl 9 4 stripe ≡ get_backing_ctrl 13 4 stripe
        → get_backing_page 100 9 4 stripe ≡ get_backing_page 100 13 4 stripe
        → 9 + 0 ≡ 13)
placement_lem_example =
    placement_lem stripe 100 4 9 13 (omega arith) (omega arith) (omega arith) (omega arith)

abbrev memory : Heap
memory at = record { list = at + 7; next = at; prev = 3 }

one_node : IsList (list_insert (list_init memory 10) 10 20) 10 (20 ∷ [])
one_node =
    list_insert-IsList (list_init memory 10) 10 20 []
      (list_init-IsList memory 10 (λ e. omega (arith, e))) (λ e. omega (arith, e))
      ((λ e. omega (arith, e)), tt)

abbrev pair : Heap
pair = list_insert (list_insert (list_init memory 10) 10 20) 10 30

two_nodes : IsList pair 10 (20 ∷ 30 ∷ [])
two_nodes =
    list_insert-IsList (list_insert (list_init memory 10) 10 20) 10 30 (20 ∷ []) one_node
      (λ e. omega (arith, e)) ((λ e. omega (arith, e)), ((λ e. omega (arith, e)), tt))

list_remove-IsList_example :
    IsList (list_remove pair 20) 10 (30 ∷ [])
    × (list_remove pair 20 20 ≡ record { list = null; next = null; prev = null })
list_remove-IsList_example = list_remove-IsList pair 10 20 [] (30 ∷ []) two_nodes
