-- ===== src/SxeUnsigned.antt =====
-- lib-sxe-util/sxe-unsigned.c: bits of unsigned numbers.
pub mod Defs
pub mod Laws
pub mod Align
mod Tests
