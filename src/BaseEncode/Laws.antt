-- ===== src/BaseEncode/Laws.antt =====
-- The public codecs: what they write, and that decoding undoes encoding.
use libkit.Common.{ℕ, ◌+◌, ◌*◌, ◌/◌, ◌^◌, ◌≤◌, ◌<◌, List, ◌≡◌, refl, take, length, All, arith, true}
use libkit.BaseEncode.Config.{
  BaseCfg, find_shval, base16_upper, base32cfg, base32hexcfg, base64cfg, base64urlcfg,
}
use libkit.BaseEncode.Encode.{Encoded, encode}
use libkit.BaseEncode.Encodes.{Ensures, Ensures_mono}
use libkit.BaseEncode.EncodePads.{Encodes, Fits}
use libkit.BaseEncode.EncodeEnd.{encode-Encodes}
use libkit.BaseEncode.Decode.{Decoded, Flags, decode_default, decode}
use libkit.BaseEncode.DecodeEnd
use libkit.BaseEncode.Decodes.{IsCodec}
use libkit.BaseEncode.RoundTrip.{Decodes, decode-Decodes}
use libkit.BaseEncode.Codecs.{
  base16_upper-IsCodec, base16_upper-shval, base32cfg-IsCodec, base32cfg-shval,
  base32hexcfg-IsCodec, base32hexcfg-shval, base64cfg-IsCodec, base64cfg-shval,
  base64urlcfg-IsCodec, base64urlcfg-shval, decode-base16,
}
use libkit.BaseEncode.Api.{
  kit_base16encode, kit_base16decode, kit_base32encode, kit_base32decode, kit_base32hexencode,
  kit_base32hexdecode, kit_base64encode, kit_base64decode, kit_base64urlencode, kit_base64urldecode,
}

-- The five encodings that the public functions offer.
pub data Base : Type 0 where
  base16 base32 base32hex base64 base64url : Base

unfoldable pub kit_encode : Base → List ℕ → ℕ → List ℕ → Encoded
kit_encode base16 = kit_base16encode
kit_encode base32 = kit_base32encode
kit_encode base32hex = kit_base32hexencode
kit_encode base64 = kit_base64encode
kit_encode base64url = kit_base64urlencode

unfoldable pub kit_decode : Base → List ℕ → ℕ → List ℕ → Flags → Decoded
kit_decode base16 = kit_base16decode
kit_decode base32 = kit_base32decode
kit_decode base32hex = kit_base32hexdecode
kit_decode base64 = kit_base64decode
kit_decode base64url = λ out olen input flags. kit_base64urldecode out olen input

-- The length of the text for `n` bytes.
abbrev pub text_length : Base → ℕ → ℕ
text_length base16 n = 2 * n
text_length base32 n = (8 * n + 4) / 5
text_length base32hex n = (8 * n + 4) / 5
text_length base64 n = 4 * ((n + 2) / 3)
text_length base64url n = (8 * n + 5) / 6

abbrev pub cfg_of : Base → BaseCfg
cfg_of base16 = base16_upper
cfg_of base32 = base32cfg
cfg_of base32hex = base32hexcfg
cfg_of base64 = base64cfg
cfg_of base64url = base64urlcfg

-- The bits of a letter.
abbrev pub shval_of : Base → ℕ
shval_of base16 = 4
shval_of base32 = 5
shval_of base32hex = 5
shval_of base64 = 6
shval_of base64url = 6

cfg_of-IsCodec : (b : Base) → IsCodec (cfg_of b) (shval_of b)
cfg_of-IsCodec base16 = base16_upper-IsCodec
cfg_of-IsCodec base32 = base32cfg-IsCodec
cfg_of-IsCodec base32hex = base32hexcfg-IsCodec
cfg_of-IsCodec base64 = base64cfg-IsCodec
cfg_of-IsCodec base64url = base64urlcfg-IsCodec

cfg_of-shval : (b : Base) → find_shval (cfg_of b) ≡ shval_of b
cfg_of-shval base16 = base16_upper-shval
cfg_of-shval base32 = base32cfg-shval
cfg_of-shval base32hex = base32hexcfg-shval
cfg_of-shval base64 = base64cfg-shval
cfg_of-shval base64url = base64urlcfg-shval

cfg_of-Fits :
    (b : Base) (maxolen n : ℕ) → text_length b n < maxolen → Fits (cfg_of b) (shval_of b) maxolen n
unfolding base16_upper base32cfg base32hexcfg base64cfg base64urlcfg
cfg_of-Fits base16 m n h = record {
  some_room = omega arith;
  letters = omega arith;
  six = λ e. cc;
  padding = λ e. cc;
}
cfg_of-Fits base32 m n h = record {
  some_room = omega arith;
  letters = omega arith;
  six = λ e. cc;
  padding = λ e. cc;
}
cfg_of-Fits base32hex m n h = record {
  some_room = omega arith;
  letters = omega arith;
  six = λ e. cc;
  padding = λ e. cc;
}
cfg_of-Fits base64 m n h = record {
  some_room = omega arith;
  letters = omega arith;
  six = λ e. refl;
  padding = λ e. h;
}
cfg_of-Fits base64url m n h = record {
  some_room = omega arith;
  letters = omega arith;
  six = λ e. cc;
  padding = λ e. cc;
}

cfg_of-six : (b : Base) → (cfg_of b).want_padding ≡ true → shval_of b ≡ 6
unfolding base16_upper base32cfg base32hexcfg base64cfg base64urlcfg
cfg_of-six base16 h = cc
cfg_of-six base32 h = cc
cfg_of-six base32hex h = cc
cfg_of-six base64 h = refl
cfg_of-six base64url h = cc

kit_encode_lem :
    (b : Base) (out : List ℕ) (olen : ℕ) (input : List ℕ)
    → kit_encode b out olen input ≡ encode (cfg_of b) out olen input (length input)
unfolding kit_encode kit_base16encode kit_base32encode kit_base32hexencode kit_base64encode
    kit_base64urlencode
kit_encode_lem base16 out olen input = refl
kit_encode_lem _ out olen input = refl

-- The flags with which an encoding's decoder runs: base 64 for URLs has none.
abbrev flags_of : Base → Flags → Flags
flags_of base64url flags = decode_default
flags_of _ flags = flags

kit_decode_lem :
    (b : Base) (out : List ℕ) (olen : ℕ) (text : List ℕ) (flags : Flags)
    → kit_decode b out olen text flags ≡ decode (cfg_of b) out olen text (flags_of b flags)
unfolding kit_decode kit_base16decode kit_base32decode kit_base32hexdecode kit_base64decode
    kit_base64urldecode
kit_decode_lem base16 out olen text flags = decode-base16 out olen text flags
kit_decode_lem base32 out olen text flags = refl
kit_decode_lem base32hex out olen text flags = refl
kit_decode_lem base64 out olen text flags = refl
kit_decode_lem base64url out olen text flags = refl

-- Into a buffer with room for the text and its NUL, each encoder writes without an error: it
-- consumes the whole input, and leaves letters of its alphabet whose values are the digits of the
-- bytes filled up with fewer zeros than a letter has bits, base 64 also the equals signs that bring
-- them to whole bytes, and a NUL after them.
pub kit_encode-Encodes :
    (b : Base) (out xs : List ℕ) (maxolen : ℕ)
    → All (λ x. x < 2 ^ 8) xs
    → text_length b (length xs) < maxolen
    → maxolen ≤ length out
    → Ensures (kit_encode b out maxolen xs) (Encodes (cfg_of b) (shval_of b) xs)
kit_encode-Encodes b out xs maxolen small fits room = rw (kit_encode_lem b out maxolen xs) (
    encode-Encodes (cfg_of b) (shval_of b) maxolen (cfg_of-IsCodec b).alphabet out xs
      (cfg_of-shval b) room small (cfg_of-Fits b maxolen (length xs) fits))

-- Decoding what was encoded, with room for the text in the one buffer and for the bytes in the
-- other, gives back exactly the bytes and consumes the whole text; neither step reports an error.
pub kit_decode-kit_encode :
    (b : Base) (flags : Flags) (text_buf byte_buf xs : List ℕ) (maxtext maxbytes : ℕ)
    → All (λ x. x < 2 ^ 8) xs
    → text_length b (length xs) < maxtext
    → maxtext ≤ length text_buf
    → length xs ≤ maxbytes
    → maxbytes ≤ length byte_buf
    → Ensures (kit_encode b text_buf maxtext xs) (λ e.
      DecodeEnd.Ensures
        (kit_decode b byte_buf maxbytes (take e.olen e.out) flags)
        (Decodes xs e.olen))
kit_decode-kit_encode b flags text_buf byte_buf xs maxtext maxbytes small fits room fits' room' =
    Ensures_mono (Encodes (cfg_of b) (shval_of b) xs)
      (λ e.
        DecodeEnd.Ensures (kit_decode b byte_buf maxbytes (take e.olen e.out) flags)
          (Decodes xs e.olen))
      (kit_encode b text_buf maxtext xs)
      (λ e w. rw (kit_decode_lem b byte_buf maxbytes (take e.olen e.out) flags) (
        decode-Decodes (cfg_of b) (shval_of b) maxbytes (cfg_of-IsCodec b) (flags_of b flags) w
          small byte_buf (cfg_of-shval b) (cfg_of-six b) fits' room'))
      (kit_encode-Encodes b text_buf xs maxtext small fits room)
