-- ===== src/BaseEncode/Hex.antt =====
-- `kit_bin2hex` and `kit_hex2bin`, in either case.
use libkit.Common.{
  ℕ, ◌+◌, ◌*◌, ◌/◌, ◌^◌, ◌≤◌, ◌<◌, true, false, List, map, ◌≡◌, refl, ap, take, length, All,
  length-append, length-map, length-replicate, replicate, get_or, arith,
}
use libkit.Common.Digits.{flat, length-flat}
use libkit.BaseEncode.Config.{BaseCfg, find_shval, base16_lower, base16_upper}
use libkit.BaseEncode.Encode.{Encoder, Encoded, encode}
use libkit.BaseEncode.Encodes
use libkit.BaseEncode.EncodePads.{Encodes, Fits}
use libkit.BaseEncode.EncodeEnd.{encode-Encodes}
use libkit.BaseEncode.Decode.{
  Decoder, Decoded, ok, overflow, padding_missing, decode_default, decode,
}
use libkit.BaseEncode.DecodeEnd
use libkit.BaseEncode.Decodes.{IsCodec}
use libkit.BaseEncode.RoundTrip.{Decodes, decode-Decodes}
use libkit.BaseEncode.Codecs.{
  base16_upper-IsCodec, base16_upper-shval, base16_lower-IsCodec, base16_lower-shval, decode-base16,
}
use libkit.BaseEncode.Api.{
  Bin2hexFmt, upper, lower, encoded_out, decoded_out, kit_bin2hex, kit_hex2bin,
}

abbrev hex_cfg : Bin2hexFmt → BaseCfg
hex_cfg upper = base16_upper
hex_cfg lower = base16_lower

hex_cfg-IsCodec : (fmt : Bin2hexFmt) → IsCodec (hex_cfg fmt) 4
hex_cfg-IsCodec upper = base16_upper-IsCodec
hex_cfg-IsCodec lower = base16_lower-IsCodec

hex_cfg-shval : (fmt : Bin2hexFmt) → find_shval (hex_cfg fmt) ≡ 4
hex_cfg-shval upper = base16_upper-shval
hex_cfg-shval lower = base16_lower-shval

hex_cfg-Fits : (fmt : Bin2hexFmt) (n : ℕ) → Fits (hex_cfg fmt) 4 (n * 2 + 1) n
unfolding base16_upper base16_lower
hex_cfg-Fits upper n = record {
  some_room = omega arith;
  letters = omega arith;
  six = λ e. cc;
  padding = λ e. cc;
}
hex_cfg-Fits lower n = record {
  some_room = omega arith;
  letters = omega arith;
  six = λ e. cc;
  padding = λ e. cc;
}

hex_cfg-six : (fmt : Bin2hexFmt) → (hex_cfg fmt).want_padding ≡ true → ◌≡◌ {A = ℕ} 4 6
unfolding base16_upper base16_lower
hex_cfg-six upper e = cc
hex_cfg-six lower e = cc

hex_cfg-unpadded : (fmt : Bin2hexFmt) → (hex_cfg fmt).want_padding ≡ false
unfolding base16_upper base16_lower
hex_cfg-unpadded upper = refl
hex_cfg-unpadded lower = refl

decode-hex_cfg :
    (fmt : Bin2hexFmt) (out : List ℕ) (olen : ℕ) (text : List ℕ)
    → decode base16_lower out olen text decode_default
      ≡ decode (hex_cfg fmt) out olen text decode_default
decode-hex_cfg upper out olen text = decode-base16 out olen text decode_default
decode-hex_cfg lower out olen text = refl

-- The state in which a run without an error ends.
encoded_state :
    (P : Encoder → Type 0) (r : Encoded)
    → Encodes.Ensures r P
    → (e : Encoder) × (encoded_out r ≡ (e.out, e.olen)) × P e
encoded_state P (Encoded.ok e) h = (e, refl, h)
encoded_state P (Encoded.overflow e) h = absurd h

decoded_state :
    (P : Decoder → Type 0) (r : Decoded)
    → DecodeEnd.Ensures r P
    → (d : Decoder) × (decoded_out r ≡ (d.out, d.olen)) × P d
decoded_state P (ok d) h = (d, refl, h)
decoded_state P (overflow d) h = absurd h
decoded_state P (padding_missing d) h = absurd h

bin2hex_state :
    (fmt : Bin2hexFmt) (ohex xs : List ℕ)
    → All (λ x. x < 2 ^ 8) xs
    → length xs * 2 + 1 ≤ length ohex
    → (e : Encoder) × (kit_bin2hex ohex xs fmt ≡ (e.out, e.olen)) × Encodes (hex_cfg fmt) 4 xs e
unfolding kit_bin2hex
bin2hex_state fmt ohex xs small room =
    encoded_state (Encodes (hex_cfg fmt) 4 xs)
      (encode (hex_cfg fmt) ohex (length xs * 2 + 1) xs (length xs))
      (encode-Encodes (hex_cfg fmt) 4 (length xs * 2 + 1) (hex_cfg-IsCodec fmt).alphabet ohex xs
        (hex_cfg-shval fmt) room small (hex_cfg-Fits fmt (length xs)))

-- Two letters stand for each byte.
length-text :
    (fmt : Bin2hexFmt) (xs : List ℕ) (e : Encoder)
    → Encodes (hex_cfg fmt) 4 xs e
    → (e.olen ≡ 2 * length xs) × (length (take e.olen e.out) ≡ e.olen)
length-text fmt xs e w = (
  omega (arith, w.few_zeros, w.count, w.unpadded (hex_cfg-unpadded fmt), values_total),
  omega (
    arith,
    w.count,
    ap length w.text,
    length-append (map letter w.values) (replicate w.pads b'='),
    length-map letter w.values,
    length-replicate {A = ℕ} w.pads b'=',
  ),
)
  where
    letter : ℕ → ℕ
    letter v = get_or ((hex_cfg fmt).binmap) v 0

    values_total : 4 * length w.values ≡ 8 * length xs + w.zeros
    values_total = omega (
      arith,
      ap length w.digits,
      length-append (flat 8 xs) (replicate w.zeros 0),
      length-flat 4 w.values,
      length-flat 8 xs,
      length-replicate {A = ℕ} w.zeros 0,
    )

hex2bin_state :
    (fmt : Bin2hexFmt) (obin xs : List ℕ) (e : Encoder)
    → All (λ x. x < 2 ^ 8) xs
    → length xs ≤ length obin
    → Encodes (hex_cfg fmt) 4 xs e
    → (d : Decoder) × (kit_hex2bin obin (take e.olen e.out) ≡ (d.out, d.olen)) × Decodes xs e.olen d
unfolding kit_hex2bin
hex2bin_state fmt obin xs e small room w =
    let text = take e.olen e.out in
    let (n, m) = length-text fmt xs e w in
    let bound : (length text + 1) / 2 ≡ length xs = omega arith in
    decoded_state (Decodes xs e.olen)
      (decode base16_lower obin ((length text + 1) / 2) text decode_default)
      (rw (bound, decode-hex_cfg fmt obin (length xs) text)
        (decode-Decodes (hex_cfg fmt) 4 (length xs) (hex_cfg-IsCodec fmt) decode_default w small
          obin (hex_cfg-shval fmt) (hex_cfg-six fmt) (omega arith) room))

-- In either case, `kit_hex2bin` undoes `kit_bin2hex`: with room for two digits a byte and the NUL,
-- and for the bytes, the lengths returned are those of the text and of the bytes, and the buffer
-- holds the bytes again.
pub kit_hex2bin-kit_bin2hex :
    (fmt : Bin2hexFmt) (ohex obin xs : List ℕ)
    → All (λ x. x < 2 ^ 8) xs
    → length xs * 2 + 1 ≤ length ohex
    → length xs ≤ length obin
    → let (hex, n) = kit_bin2hex ohex xs fmt in
      let (bin, m) = kit_hex2bin obin (take n hex) in
      (n ≡ 2 * length xs) × (m ≡ length xs) × (take m bin ≡ xs)
kit_hex2bin-kit_bin2hex fmt ohex obin xs small room room' =
    let (e, run, w) = bin2hex_state fmt ohex xs small room in
    let (d, back, r) = hex2bin_state fmt obin xs e small room' w in
    let (n, m) = length-text fmt xs e w in rw (run, back) (n, r.olen, r.bytes)
