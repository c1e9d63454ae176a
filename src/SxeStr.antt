-- ===== src/SxeStr.antt =====
-- The string helpers of lib-sxe-util/sxe-str.c, lib-sxe-log/sxe-strlcpy.c and lib-sxe-log/sxe-str-encode.c.
pub mod Encode
pub mod Encoded
pub mod Copy
pub mod Copied
pub mod Search
mod Tests
