-- ===== src/SortedArray.antt =====
-- lib-kit/kit-sortedarray.c: arrays kept in the order of their elements' keys.
pub mod Defs
pub mod Order
pub mod Find
pub mod Insert
pub mod Access
pub mod Failure
pub mod Deprecated
pub mod Intersect
pub mod Matching
pub mod Cuts
pub mod Intersected
mod Tests
