-- ===== src/KernelList.antt =====
-- bam/module/list.c and list.h: the doubly linked list that holds the kernel module's controllers
-- and mappings.
pub mod Chain
pub mod Insert
pub mod Remove
pub mod Find
use generic_asynchronous_io.Prelude.{
  ℕ, zero, suc, ◌==◌, if◌then◌else◌, ◌||◌, update, Option, none, some, Bool,
}

-- `struct list_node`; a list is named by the address of its head, which is its first member, and
-- 0 is the null pointer.
pub record ListNode : Type 0 where
  pub list : ℕ
  pub next : ℕ
  pub prev : ℕ

abbrev pub Heap : Type 0
Heap = ℕ → ListNode

abbrev pub null : ℕ
null = 0

abbrev pub set_next : Heap → ℕ → ℕ → Heap
set_next h at n = update h at (record (h at) { next = n })

abbrev pub set_prev : Heap → ℕ → ℕ → Heap
set_prev h at n = update h at (record (h at) { prev = n })

-- `list_node_init`
unfoldable pub list_node_init : Heap → ℕ → Heap
list_node_init h element = update h element (record { list = null; next = null; prev = null })

-- `list_init`
unfoldable pub list_init : Heap → ℕ → Heap
list_init h list = update h list (record { list = list; next = list; prev = list })

-- `list_next`
unfoldable pub list_next : Heap → ℕ → Option ℕ
list_next h current = if (h current).next == (h current).list then none else some (h current).next

-- `list_remove`
unfoldable pub list_remove : Heap → ℕ → Heap
list_remove h element =
    let h1 = set_next h (h element).prev (h element).next in
    let h2 = set_prev h1 (h1 element).next (h1 element).prev in
    if (element == null) || (((h element).list == null) || (element == (h element).list))
    then h
    else update h2 element (record { list = null; next = null; prev = null })

-- `list_insert`
unfoldable pub list_insert : Heap → ℕ → ℕ → Heap
list_insert h list element =
    let last = (h list).prev in
    let h1 = set_next h last element in
    let h2 = update h1 element (record { list = list; next = list; prev = last }) in
    set_prev h2 list element

-- How far a search through a list has come.
pub data Search : Type 0 where
  running : Search
  missing : Search  -- NULL
  found : (ctrl : ℕ) → Search

-- The loop of `ctrl_find_by_pci_dev` and `ctrl_find_by_inode`, for at most `fuel` tests of its
-- condition; `matches` compares the device or the inode.
unfoldable pub find_from : Heap → (ℕ → Bool) → Option ℕ → ℕ → Search
unfolding list_next
find_from h matches element zero = running
find_from h matches none (suc fuel) = missing
find_from h matches (some ctrl) (suc fuel) =
    let rest = find_from h matches (list_next h ctrl) fuel in
    if matches ctrl then found ctrl else rest

-- `ctrl_find_by_pci_dev`: `pdev_of` reads the field `pdev` of a controller.
unfoldable pub ctrl_find_by_pci_dev : Heap → (ℕ → ℕ) → (list pdev fuel : ℕ) → Search
unfolding find_from
ctrl_find_by_pci_dev h pdev_of list pdev fuel =
    find_from h (λ ctrl. pdev_of ctrl == pdev) (list_next h list) fuel

-- `ctrl_find_by_inode`: `cdev_at` is the address of the field `cdev` of a controller.
unfoldable pub ctrl_find_by_inode : Heap → (ℕ → ℕ) → (list i_cdev fuel : ℕ) → Search
unfolding find_from
ctrl_find_by_inode h cdev_at list i_cdev fuel =
    find_from h (λ ctrl. cdev_at ctrl == i_cdev) (list_next h list) fuel
