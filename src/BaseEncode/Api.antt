-- ===== src/BaseEncode/Api.antt =====
-- The public functions of lib-kit/kit-base-encode.c.
use libkit.Common.{ℕ, ◌+◌, ◌*◌, ◌/◌, List, length}
use libkit.BaseEncode.Config.{
  base16_lower, base16_upper, base32cfg, base32hexcfg, base64cfg, base64urlcfg,
}
use libkit.BaseEncode.Encode.{Encoded, encode}
use libkit.BaseEncode.Decode.{Decoded, Flags, decode_default, decode}

-- An encoder's arguments are the buffer `out`, `*olen` and the input `in[0]`, …, `in[*ilen - 1]`.
unfoldable pub kit_base16encode : List ℕ → ℕ → List ℕ → Encoded
kit_base16encode out olen input = encode base16_upper out olen input (length input)

unfoldable pub kit_base16decode : List ℕ → ℕ → List ℕ → Flags → Decoded
kit_base16decode out olen input flags = decode base16_lower out olen input flags

unfoldable pub kit_base32encode : List ℕ → ℕ → List ℕ → Encoded
kit_base32encode out olen input = encode base32cfg out olen input (length input)

unfoldable pub kit_base32decode : List ℕ → ℕ → List ℕ → Flags → Decoded
kit_base32decode out olen input flags = decode base32cfg out olen input flags

unfoldable pub kit_base32hexencode : List ℕ → ℕ → List ℕ → Encoded
kit_base32hexencode out olen input = encode base32hexcfg out olen input (length input)

unfoldable pub kit_base32hexdecode : List ℕ → ℕ → List ℕ → Flags → Decoded
kit_base32hexdecode out olen input flags = decode base32hexcfg out olen input flags

unfoldable pub kit_base64encode : List ℕ → ℕ → List ℕ → Encoded
kit_base64encode out olen input = encode base64cfg out olen input (length input)

unfoldable pub kit_base64decode : List ℕ → ℕ → List ℕ → Flags → Decoded
kit_base64decode out olen input flags = decode base64cfg out olen input flags

unfoldable pub kit_base64urlencode : List ℕ → ℕ → List ℕ → Encoded
kit_base64urlencode out olen input = encode base64urlcfg out olen input (length input)

unfoldable pub kit_base64urldecode : List ℕ → ℕ → List ℕ → Decoded
kit_base64urldecode out olen input = decode base64urlcfg out olen input decode_default

-- `enum kit_bin2hex_fmt`
pub data Bin2hexFmt : Type 0 where
  upper lower : Bin2hexFmt

-- What the caller sees of a run whose error string is dropped: the buffer and `*olen`.
abbrev pub encoded_out : Encoded → List ℕ × ℕ
encoded_out (Encoded.ok e) = (e.out, e.olen)
encoded_out (Encoded.overflow e) = (e.out, e.olen)

abbrev pub decoded_out : Decoded → List ℕ × ℕ
decoded_out (Decoded.ok d) = (d.out, d.olen)
decoded_out (Decoded.overflow d) = (d.out, d.olen)
decoded_out (Decoded.padding_missing d) = (d.out, d.olen)

-- The results are the buffer and the length returned.
unfoldable pub kit_bin2hex : List ℕ → List ℕ → Bin2hexFmt → List ℕ × ℕ
kit_bin2hex ohex ibin fmt =
    let olen = length ibin * 2 + 1 in
    encoded_out (
      encode (elim fmt [ upper ↦ base16_upper | lower ↦ base16_lower ]) ohex olen ibin
        (length ibin))

unfoldable pub kit_hex2bin : List ℕ → List ℕ → List ℕ × ℕ
kit_hex2bin obin ihex =
    let olen = (length ihex + 1) / 2 in
    decoded_out (decode base16_lower obin olen ihex decode_default)
