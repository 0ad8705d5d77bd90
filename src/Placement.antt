-- ===== src/Placement.antt =====
-- bam/include/page_cache.h, `get_backing_page_` and `get_backing_ctrl_`: on which controller, and
-- at which page of its device, a page of a range lies.
pub mod Stripes
use generic_asynchronous_io.Prelude.{ℕ, ◌+◌, ◌-◌, ◌/◌, ◌%◌, ◌^◌, u64}

-- `data_dist_t`
pub data DataDist : Type 0 where
  replicate : DataDist
  stripe : DataDist

abbrev pub all_ctrls : ℕ
all_ctrls = 0xffff_ffff_ffff_ffff

unfoldable pub get_backing_page : (page_start page_offset n_ctrls : ℕ) → DataDist → ℕ
get_backing_page page_start page_offset n_ctrls stripe = u64 (page_start + page_offset / n_ctrls)
get_backing_page page_start page_offset n_ctrls replicate = u64 (page_start + page_offset)

unfoldable pub get_backing_ctrl : (page_offset n_ctrls : ℕ) → DataDist → ℕ
get_backing_ctrl page_offset n_ctrls stripe = page_offset % n_ctrls
get_backing_ctrl page_offset n_ctrls replicate = all_ctrls
