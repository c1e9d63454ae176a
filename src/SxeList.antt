-- ===== src/SxeList.antt =====
-- lib-sxe-list: doubly linked lists.
pub mod Defs
pub mod Linked
pub mod Holds
pub mod Ends
pub mod Removal
pub mod Walk
pub mod Deque
mod Tests
pub mod Apart
