-- ===== src/SxeHex.antt =====
-- lib-sxe-util/sxe-hex.c: hexadecimal texts.
pub mod Defs
pub mod Read
pub mod Bytes
mod Tests
