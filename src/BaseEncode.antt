-- ===== src/BaseEncode.antt =====
-- lib-kit/kit-base-encode.c: the base 16, 32 and 64 codecs.
pub mod Tables
pub mod Config
pub mod Encode
pub mod Decode
pub mod Shift
pub mod Encodes
pub mod EncodeLoops
pub mod EncodePads
pub mod EncodeEnd
pub mod Decodes
pub mod DecodeLoop
pub mod DecodeEnd
pub mod RoundTrip
pub mod Codecs
pub mod Api
pub mod Laws
pub mod Hex
pub mod Lenient
pub mod Bounds
mod Tests
