-- ===== src/SxeHash.antt =====
-- lib-sxe-hash: a hash table whose buckets are the states of a pool.
pub mod Defs
pub mod Valid
pub mod Look
pub mod Changes
pub mod Added
pub mod New
mod Tests
