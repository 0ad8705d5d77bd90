-- ===== src/WbSlots/Within.antt =====
-- bam/include/page_cache.h, `wb_find_slot` and `wb_find_slot_cpu_agg`: where the queues for the CPU
-- are written.
use generic_asynchronous_io.Prelude.{ℕ, ◌*◌, ◌^◌, ◌≤◌, ◌<◌, ◌≡◌, refl, ◌∙◌}
use generic_asynchronous_io.WbSlots.{Params, WbCache, write_back}

-- The depths: both kinds of queue have an entry, and the entries fit in a 32-bit index.
pub record Depths (p : Params) : Type 0 where
  pub some_queue : 0 < p.wb_depth
  pub ids : p.q_depth * p.wb_depth ≤ 2 ^ 32
  pub aggs : p.cpu_agg_queue_depth * p.wb_depth ≤ 2 ^ 32

-- The queues of a cache.
pub record Queues : Type 0 where
  pub id_array : ℕ → ℕ
  pub wb_queue_counter : ℕ → ℕ
  pub cpu_agg_queue_counter : ℕ → ℕ
  pub cpu_agg_meta_queue : ℕ → ℕ
  pub cpu_agg_loc_queue : ℕ → ℕ

abbrev pub queues : WbCache → Queues
queues m = record {
  id_array = m.id_array;
  wb_queue_counter = m.wb_queue_counter;
  cpu_agg_queue_counter = m.cpu_agg_queue_counter;
  cpu_agg_meta_queue = m.cpu_agg_meta_queue;
  cpu_agg_loc_queue = m.cpu_agg_loc_queue;
}

-- Nothing is written at or beyond the lengths of the arrays.
pub record Within (p : Params) (m m' : Queues) : Type 0 where
  pub ids : (j : ℕ) → p.q_depth * p.wb_depth ≤ j → m'.id_array j ≡ m.id_array j
  pub counters : (j : ℕ) → p.wb_depth ≤ j → m'.wb_queue_counter j ≡ m.wb_queue_counter j
  pub agg_counters :
      (j : ℕ) → p.wb_depth ≤ j → m'.cpu_agg_queue_counter j ≡ m.cpu_agg_queue_counter j
  pub metas :
      (j : ℕ)
      → p.cpu_agg_queue_depth * p.wb_depth ≤ j
      → m'.cpu_agg_meta_queue j ≡ m.cpu_agg_meta_queue j
  pub locs :
      (j : ℕ)
      → p.cpu_agg_queue_depth * p.wb_depth ≤ j
      → m'.cpu_agg_loc_queue j ≡ m.cpu_agg_loc_queue j

-- Only what belongs to the queues, the chunks and the writes changes.
pub record Handed (p : Params) (m m' : WbCache) : Type 0 where
  pub ticket : m'.page_ticket ≡ m.page_ticket
  pub locks : m'.page_take_lock ≡ m.page_take_lock
  pub translations : m'.page_translation ≡ m.page_translation
  pub reuses : m'.next_reuse ≡ m.next_reuse
  pub states : m'.state ≡ m.state
  pub within : Within p (queues m) (queues m')

module _ {p : Params} where
  pub Within-refl : {m : Queues} → Within p m m
  Within-refl = record {
    ids = λ j le. refl;
    counters = λ j le. refl;
    agg_counters = λ j le. refl;
    metas = λ j le. refl;
    locs = λ j le. refl;
  }

  pub Within-trans : {m m1 m2 : Queues} → Within p m m1 → Within p m1 m2 → Within p m m2
  Within-trans v w = record {
    ids = λ j le. w.ids j le ∙ v.ids j le;
    counters = λ j le. w.counters j le ∙ v.counters j le;
    agg_counters = λ j le. w.agg_counters j le ∙ v.agg_counters j le;
    metas = λ j le. w.metas j le ∙ v.metas j le;
    locs = λ j le. w.locs j le ∙ v.locs j le;
  }

  pub Handed-refl : {m : WbCache} → Handed p m m
  Handed-refl = record {
    ticket = refl;
    locks = refl;
    translations = refl;
    reuses = refl;
    states = refl;
    within = Within-refl;
  }

  pub Handed-trans : {m m1 m2 : WbCache} → Handed p m m1 → Handed p m1 m2 → Handed p m m2
  Handed-trans v w = record {
    ticket = w.ticket ∙ v.ticket;
    locks = w.locks ∙ v.locks;
    translations = w.translations ∙ v.translations;
    reuses = w.reuses ∙ v.reuses;
    states = w.states ∙ v.states;
    within = Within-trans v.within w.within;
  }

  pub write_back-Handed :
      (m : WbCache) (page range address : ℕ) → Handed p m (write_back p m page range address)
  unfolding write_back
  write_back-Handed m page range address = record {
    ticket = refl;
    locks = refl;
    translations = refl;
    reuses = refl;
    states = refl;
    within = record {
      ids = λ j le. refl;
      counters = λ j le. refl;
      agg_counters = λ j le. refl;
      metas = λ j le. refl;
      locs = λ j le. refl;
    };
  }
