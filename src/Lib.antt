-- ===== src/Lib.antt =====
-- The BaM storage stack (bam/) and the feature store on it (gids_module/): NVMe commands, PRP lists,
-- submission and completion queues, as host code and GPU threads drive them, the reads and writes of
-- the page cache, the placement of pages on controllers, the host's stack of outstanding requests and
-- the service that polls them, and the lists and mappings of the kernel module.
--
-- Prelude passes on the library's names and holds what the parts share: Boolean tests, lists over
-- the native numbers, functions of an index with updates (Family), bit masks (Split, Masks) and
-- casts to fixed widths (Words).
--
-- Command is bam/include/nvm_cmd.h up to nvm_cmd_rw_blks and the bit macros of
-- bam/include/nvm_util.h: a command is sixteen 32-bit words, and header, data_ptr and rw_blks are
-- nvm_cmd_header, nvm_cmd_data_ptr and nvm_cmd_rw_blks.
--
-- Prp is the rest of bam/include/nvm_cmd.h: prp_list, prp_list_chain and cmd_data are nvm_prp_list,
-- nvm_prp_list_chain and nvm_cmd_data. The memory maps a virtual page and an entry's index to the
-- entry. Prp.Chain has the walk of the device.
--
-- Completion is the entries of a completion queue and the controller that posts them: the entry
-- with number a goes to slot a % qs with the tag of its round.
--
-- HostQueue is bam/include/nvm_queue.h: NvmQueue keeps the fields of nvm_queue_t that the functions
-- use, a pointer into queue memory is its offset, and null pointers are none. The flushes of caches
-- and write-combining buffers have no effect on the model. The words are wrapped where the code's
-- types wrap.
--
-- ParallelQueue is sq_enqueue of bam/include/nvm_parallel_queue.h with move_tail, and the part of
-- move_head_cq that gives slots back, as a step relation: every shared access is one step of one
-- thread, under sequential consistency, and there may be any number of threads. The doorbell and the
-- controller's reads are steps as well.
--
-- Poll is cq_try_poll, cq_poll, cq_poll_async and cq_try_peek_head of
-- bam/include/nvm_parallel_queue.h. A View is what one pass over the queue reads: the head, and the
-- queue's memory at each of its reads, which the controller may have filled further in between. The
-- endless loop of cq_poll takes the number of its iterations as fuel; cq_poll_returns says how much
-- is enough. The head that a pass loads once may fall behind the real one meanwhile, so that entries
-- of the pass are posted over, but not twice. The queues here and in CqHead and CqDequeue have 2^log
-- entries, as qs_log2 and qs_minus_1 ask for.
--
-- CommandIds is get_cid and put_cid of bam/include/nvm_parallel_queue.h as a step relation between any
-- number of calls, each of which holds what it got until its put_cid, and get_cid by itself as a
-- function that takes the rounds of its loop as fuel; 2^16 rounds are enough once an id is free.
--
-- CqHead is the part of move_head_cq of bam/include/nvm_parallel_queue.h that counts marked entries, run
-- by the holder of head_lock while no other thread marks an entry, with the number of its exchanges as
-- fuel; more than the queue has entries are enough. It also has the last test of cq_dequeue, and the
-- same test in enqueue_second of bam/include/page_cache.h.
--
-- CqDequeue is cq_dequeue of bam/include/nvm_parallel_queue.h as a step relation between any number of
-- threads and a controller that posts entries while the doorbell tells it that there is room. A
-- thread enters with an entry that it has found, and no two threads find one entry: each looks for the
-- command of its own, whose id no other holds. (A thread that waits in acquire_page_wait_async for
-- a page that another has asked for looks for an id that is not its own; such threads are left out.)
-- pos is not cut to its 16 bits, which hold the slots of any queue that NVMe allows. What has happened so far (which entries are found,
-- marked and exchanged) is kept beside the source's fields. Entries are numbered without wrapping, up
-- to 2^31 of them; loc_ and cur_head_ are such numbers.
--
-- Address is get_global_address of bam/include/page_cache.h and how find_slot takes it apart; std::log2
-- is the logarithm rounded down, on 64 bits.
--
-- Placement is get_backing_page_ and get_backing_ctrl_ of bam/include/page_cache.h.
--
-- CacheSlots is find_slot of bam/include/page_cache.h beside acquire_page and release_page, as a step
-- relation over any number of pages, slots and threads. Pages are known by their global addresses.
-- What acquire_page, release_page and the eviction do to the fields of a page are the moves of
-- PageState; seen from any one page, the threads of CacheSlots move as there, which Project proves,
-- so that the invariant of PageState holds of every page. Claims says who relies on a slot, Back and
-- Locks what a step does to that.
--
-- WbSlots is wb_find_slot and wb_find_slot_cpu_agg of bam/include/page_cache.h, as functions on fuel,
-- in one thread while no other moves: the compare-and-swap on a lock that has just been read succeeds,
-- and both tests of a state see one word. The number of rounds is the fuel, of which n_pages / 4 +
-- n_pages are enough where a slot is ready: the first n_pages / 4 spare pages that are used again
-- soon. Each write_data is recorded with its controller, block and slot; the queue pair is not.
--
-- PageState is the state word of one page under acquire_page, release_page and the eviction in
-- find_slot of bam/include/page_cache.h, as a step relation in which every shared access is a step
-- of one thread. The prefetch and window counters are taken to be 0, the reads and writes of the
-- device and the choice of the cache slot are single steps with any result, and a warp acquires 1 to
-- 32 references at a time. release_page subtracts from the state and from ref_count in one step,
-- since nothing here reads ref_count; in AsyncPage they are two. Up to 2^23 threads keep the count within its 29 bits.
--
-- DataPath is read_data, write_data, read_data_submit_async, read_data_wait_async and
-- read_data_try_wait_async of bam/include/page_cache.h, over the functions of a queue pair as an
-- interface (QueuePair), and nothing is proved of them. The head of the page cache's queue is read but not used there, so it is left
-- out.
--
-- IoStack is BaM_IOStack of bam/include/bam_iostack.cuh with all its operations, under their names. A
-- pointer to contexts is a number, and 0 is null.
--
-- Registered is the registered path of BAM_Feature_Store in gids_module/gids_nvme.cu, with its fields
-- from gids_module/include/bam_nvme.h: submit_async_registered, submit_async_registered_rowctx,
-- single_thread_poll_registered, get_feature_light_registered and
-- get_feature_light_registered_rowctx are the methods read_feature_... and
-- read_feature_single_page_... of the same ending, and the others keep their names. A method returns
-- or throws an Outcome with the store after it. The kernels and the memory of CUDA are the fields of
-- Gpu, which act on a state of the GPU that nothing else sees; the results hold whatever they do.
-- Kernels are taken to end. Debug output, the environment variables that turn it on, timing and the
-- copy of cpu_access_count are left out.
--
-- CtxLookup is the part of gids_module/gids_kernel.cu between the two: the table that
-- register_registered_ctx_lookup_kernel fills and service_registered_cq_window_kernel reads, one row
-- or one completion at a time, finalize_registered_ctx_completion and
-- refresh_registered_ctx_from_valid_page, each as one step.
--
-- AsyncPage is acquire_page_submit_async, acquire_page_wait_async, acquire_page_try_wait_async and
-- release_page of bam/include/page_cache.h for one page, as a step relation like PageState: Submit,
-- Wait and Poll are the submission, the wait up to the exchange of polling_flag, and the rest. The
-- command that is sent and the completion that is looked for are single steps with any result, and the
-- translation of the cache slot, for which a thread that follows another also waits, is left out.
--
-- KernelList is bam/module/list.c and bam/module/list.h on a heap of nodes, where 0 is the null
-- pointer and a list is named by the address of its head, and the two searches of bam/module/ctrl.c,
-- with the number of tests of their loops' conditions as fuel; ctrl_find_lem says how much is enough.
-- The spin lock is not modelled: an operation is one step.
--
-- Mapping is the part of bam/module/map.c for the pages of a process: create_descriptor,
-- map_user_pages, release_user_pages, unmap_and_release, map_userspace and map_find. A mapping and its
-- list node have one address. What the kernel answers is a parameter (Kernel), and what is given back
-- to it is a log. The size of a descriptor wraps as in the source, but a write beyond its memory is not
-- modelled. The search takes the number of its tests as fuel, of which more than the list has
-- elements are enough.
--
-- Examples holds concrete runs and one application of each result below.
--
-- Not modelled: the data in the slots of the cache, the handling of the write-back queues on the host, the
-- kernels that gather features, GPU memory in bam/module/map.c, memory orders weaker than sequential consistency, the back-off by __nanosleep, and
-- everything behind the kernel driver, CUDA and the device itself but the entries it posts.
pub mod Prelude
pub mod Command
pub mod Prp
pub mod Completion
pub mod DataPath
pub mod HostQueue
pub mod IoStack
pub mod ParallelQueue
pub mod Registered
pub mod Poll
pub mod CommandIds
pub mod CqHead
pub mod CqDequeue
pub mod Address
pub mod Placement
pub mod PageState
pub mod CacheSlots
pub mod WbSlots
pub mod CtxLookup
pub mod AsyncPage
pub mod KernelList
pub mod Mapping
pub mod Examples
