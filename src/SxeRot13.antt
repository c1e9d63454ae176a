-- ===== src/SxeRot13.antt =====
-- lib-sxe-util/sxe-rot13.c: rot13.
pub mod Defs
pub mod Laws
pub mod Copy
mod Tests
