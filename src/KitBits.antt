-- ===== src/KitBits.antt =====
-- lib-kit/kit-bits.h: bit masks.
pub mod Defs
pub mod Laws
pub mod Copy
mod Tests
