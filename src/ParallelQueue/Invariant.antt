-- ===== src/ParallelQueue/Invariant.antt =====
-- The invariant of the submission queue under `sq_enqueue` and `move_head_cq`.
mod Defs
mod Frame
mod Facts
mod Moves
mod Threads
mod Locals
mod Devices
mod Reachable
pub use Defs.*
pub use Frame.{owner_turn}
pub use Facts.*
pub use Reachable.{Reach-Inv}
