-- ===== src/SxeUnicode.antt =====
-- lib-sxe-jitson/sxe-unicode.c: UTF-8.
pub mod Defs
pub mod Laws
mod Tests
