-- ===== src/Examples/Writeback.antt =====
-- A cache of four slots: the page in slot 0 is in use, the one in slot 1 is dirty and will be used
-- again in three steps.
use generic_asynchronous_io.Prelude.{◌*◌, ◌<◌, refl, arith, [], ◌==◌, if◌then◌else◌, if-both}
use generic_asynchronous_io.Placement.{stripe}
use generic_asynchronous_io.CacheSlots.{unlocked}
use generic_asynchronous_io.Address.{
  get_global_address, previous_range, previous_address, n_ranges_mask, n_ranges_bits, log2,
  log2_from,
}
use generic_asynchronous_io.WbSlots.{Params, WbCache, never, wb_find_slot, wb_find_slot_cpu_agg}
use generic_asynchronous_io.WbSlots.Within.{Depths, Within, queues}
use generic_asynchronous_io.WbSlots.Placed.{Ready, unused, Fits}
use generic_asynchronous_io.WbSlots.Found.{Found}
use generic_asynchronous_io.WbSlots.Returns.{wb_find_slot-Found, wb_find_slot-Within}

abbrev four : Params
four = record {
  n_pages = 4;
  max_range = 4;
  n_ctrls = 1;
  n_blocks_per_page = 8;
  ranges_dists = λ _. stripe;
  ranges_page_starts = λ _. 0;
  cpu_agg_queue_depth = 2;
  wb_depth = 8;
  q_depth = 2;
  time_step = 0;
  head_ptr = 0;
}

abbrev loaded : WbCache
loaded = record {
  page_ticket = 0;
  page_take_lock = λ _. unlocked;
  page_translation = λ slot. slot * 4;
  next_reuse = λ slot. if slot == 1 then 0x0003_0000_0000_0007 else never;
  reuse_chunk = λ _ _. never;
  state = λ _ address. if address == 0 then 0x8000_0001 else 0xa000_0000;
  wb_queue_counter = λ _. 0;
  id_array = λ _. 0;
  evict_cpu = 0;
  queue_idx = 0;
  queue_reuse = 0;
  evict_time = 0;
  cpu_agg_queue_counter = λ _. 0;
  cpu_agg_meta_queue = λ _. 0;
  cpu_agg_loc_queue = λ _. 0;
  writes = [];
}

four-Depths : Depths four
four-Depths = record { some_queue = omega arith; ids = omega arith; aggs = omega arith }

loaded-Fits : Fits four loaded
unfolding Fits
loaded-Fits r a = if-both (λ w. w < 4294967296) (a == 0) (omega arith) (omega arith)

slot_1-Ready : Ready four loaded 1
unfolding previous_range previous_address n_ranges_mask n_ranges_bits log2 log2_from
slot_1-Ready = unused refl refl refl

wb_find_slot-Found_example :
    Found four loaded (get_global_address 4 9 2) (wb_find_slot four 5 loaded 9 2)
    × Found four loaded (get_global_address 4 9 2) (wb_find_slot_cpu_agg four 5 loaded 9 2)
wb_find_slot-Found_example =
    wb_find_slot-Found four four-Depths 5 loaded 9 2 1 (omega arith) slot_1-Ready loaded-Fits
      (omega arith) (omega arith)

wb_find_slot-Within_example :
    Within four (queues loaded) (queues (wb_find_slot four 5 loaded 9 2).1)
    × Within four (queues loaded) (queues (wb_find_slot_cpu_agg four 5 loaded 9 2).1)
wb_find_slot-Within_example =
    wb_find_slot-Within four four-Depths 5 loaded 9 2 (omega arith) loaded-Fits
