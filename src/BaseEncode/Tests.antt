-- ===== src/BaseEncode/Tests.antt =====
-- Runs of the codecs on inputs that can be followed in lib-kit/test/test-kit-base-encode.c, and the
-- theorems at inputs that meet their hypotheses.
use libkit.Common.{ℕ, ◌≡◌, refl, List, [], ◌∷◌, replicate, take, drop, arith}
use libkit.BaseEncode.Config.{base64cfg, base32cfg, find_shval, find_shval_from}
use libkit.BaseEncode.Encode.{encode, put, drain, encode_byte, encode_bytes, flush, pad}
use libkit.BaseEncode.Encodes.{Ensures}
use libkit.BaseEncode.EncodePads.{Encodes}
use libkit.BaseEncode.Decode.{
  decode, decode_default, decode_eq, decode_value, decode_char, decode_chars, decode_end,
}
use libkit.BaseEncode.DecodeEnd
use libkit.BaseEncode.RoundTrip.{Decodes}
use libkit.BaseEncode.Api.{lower, kit_bin2hex, kit_hex2bin, kit_base16decode}
use libkit.BaseEncode.Laws.{
  base64, kit_encode, kit_decode, cfg_of, shval_of, kit_encode-Encodes, kit_decode-kit_encode,
}
use libkit.BaseEncode.Hex.{kit_hex2bin-kit_bin2hex}
use libkit.BaseEncode.Bounds.{encoded_buffer, decoded_buffer, drop-encode, drop-decode}
use libkit.BaseEncode.Lenient.{kit_base16decode-p_for_f}

program : Unit {0}
unfolding encode put drain encode_byte encode_bytes flush pad base64cfg base32cfg find_shval
    find_shval_from decode decode_eq decode_value decode_char decode_chars decode_end
program = tt

abbrev man : List ℕ
man = b'M' ∷ b'a' ∷ b'n' ∷ []

abbrev ma : List ℕ
ma = b'M' ∷ b'a' ∷ []

-- Memory that holds something else.
abbrev buffer : ℕ → List ℕ
buffer n = replicate n 7

encode-man :
    encoded_buffer (encode base64cfg (buffer 5) 5 man 3) ≡ b'T' ∷ b'W' ∷ b'F' ∷ b'u' ∷ 0 ∷ []
unfolding program
encode-man = refl

encode_padded :
    encoded_buffer (encode base64cfg (buffer 5) 5 ma 2) ≡ b'T' ∷ b'W' ∷ b'E' ∷ b'=' ∷ 0 ∷ []
unfolding program
encode_padded = refl

decode_padded :
    decoded_buffer (decode base64cfg (buffer 3) 3 (b'T' ∷ b'W' ∷ b'E' ∷ b'=' ∷ []) decode_default)
    ≡ b'M' ∷ b'a' ∷ 7 ∷ []
unfolding program
decode_padded = refl

kit_decode-kit_encode_example : Ensures (kit_encode base64 (buffer 9) 5 ma) (λ e.
    DecodeEnd.Ensures
      (kit_decode base64 (buffer 4) 3 (take e.olen e.out) decode_default)
      (Decodes ma e.olen))
kit_decode-kit_encode_example =
    kit_decode-kit_encode base64 decode_default (buffer 9) (buffer 4) ma 5 3 (omega arith)
      (omega arith) (omega arith) (omega arith) (omega arith)

kit_encode-Encodes_example :
    Ensures (kit_encode base64 (buffer 9) 5 ma) (Encodes (cfg_of base64) (shval_of base64) ma)
kit_encode-Encodes_example =
    kit_encode-Encodes base64 (buffer 9) ma 5 (omega arith) (omega arith) (omega arith)

kit_hex2bin-kit_bin2hex_example :
    let (hex, n) = kit_bin2hex (buffer 5) ma lower in
    let (bin, m) = kit_hex2bin (buffer 2) (take n hex) in (n ≡ 4) × (m ≡ 2) × (take m bin ≡ ma)
kit_hex2bin-kit_bin2hex_example =
    kit_hex2bin-kit_bin2hex lower (buffer 5) (buffer 2) ma (omega arith) (omega arith) (omega arith)

-- A buffer too small for the text.
drop-encode_example :
    drop 3 (encoded_buffer (encode base64cfg (buffer 9) 3 man 3)) ≡ drop 3 (buffer 9)
drop-encode_example = drop-encode base64cfg (buffer 9) 3 man 3

drop-decode_example :
    drop 1 (
      decoded_buffer
        (decode base64cfg (buffer 9) 1 (b'T' ∷ b'W' ∷ b'F' ∷ b'u' ∷ []) decode_default))
    ≡ drop 1 (buffer 9)
drop-decode_example =
    drop-decode base64cfg (buffer 9) 1 (b'T' ∷ b'W' ∷ b'F' ∷ b'u' ∷ []) decode_default

kit_base16decode-p_for_f_example :
    kit_base16decode (buffer 2) 2 (b'P' ∷ b'P' ∷ []) decode_default
    ≡ kit_base16decode (buffer 2) 2 (b'F' ∷ b'F' ∷ []) decode_default
kit_base16decode-p_for_f_example =
    kit_base16decode-p_for_f (buffer 2) 2 (b'F' ∷ b'F' ∷ []) decode_default
