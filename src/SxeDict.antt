-- ===== src/SxeDict.antt =====
-- lib-sxe-dict: dictionaries with chained buckets that grow.
pub mod Defs
pub mod Keys
pub mod Chains
pub mod Valid
pub mod Resize
pub mod Lookups
pub mod Add
pub mod Entries
pub mod Asking
pub mod Runs
pub mod Bounded
pub mod Walk
mod Tests
