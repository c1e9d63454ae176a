-- ===== src/Guid.antt =====
-- lib-kit/kit-guid.c: identifiers.
pub mod Defs
pub mod Text
pub mod Order
mod Tests
