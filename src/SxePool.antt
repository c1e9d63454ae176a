-- ===== src/SxePool.antt =====
-- lib-sxe-pool: pools of elements in states.
pub mod Defs
pub mod Moves
pub mod Queues
pub mod Joins
pub mod Valid
pub mod Change
pub mod Stays
pub mod Results
pub mod Construct
pub mod Fill
pub mod New
pub mod Try
pub mod Walkers
pub mod Walked
pub mod Rewalked
mod Tests
