-- ===== src/Examples.antt =====
-- Concrete runs of the modelled code, and each result at a concrete input.
pub mod Host
pub mod Commands
pub mod Parallel
pub mod Polling
pub mod Kernel
pub mod Pages
pub mod Requests
pub mod Rows
pub mod Maps
pub mod Async
pub mod Heads
pub mod Ids
pub mod Cache
pub mod Dequeue
pub mod Writeback
