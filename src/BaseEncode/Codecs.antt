-- ===== src/BaseEncode/Codecs.antt =====
-- The six configurations: their maps agree, and decoding does not look at `binmap`.
use libkit.Common.{
  ℕ, ◌^◌, ◌<◌, Bool, true, false, List, [], ◌∷◌, ◌≡◌, refl, u8, get_or, ◌==◌, ==→eq, all_below,
  all_below_sound, arith,
}
use libkit.BaseEncode.Config.{
  BaseCfg, find_shval, find_shval_from, base16_lower, base16_upper, base32cfg, base32hexcfg,
  base64cfg, base64urlcfg,
}
use libkit.BaseEncode.Decode.{
  Decoder, Flags, ok, overflow, padding_missing, decode_eq, decode_value, decode_char, decode_chars,
  decode_end, decode,
}
use libkit.BaseEncode.Decodes.{IsCodec}

-- Each letter's code leads back to its value.
agrees : BaseCfg → ℕ → Bool
agrees cfg v = get_or cfg.txtmap (u8 (get_or cfg.binmap v 0)) 0 == v

agrees→inverse :
    (cfg : BaseCfg) (shval : ℕ)
    → all_below (2 ^ shval) (agrees cfg) ≡ true
    → (v : ℕ) → v < 2 ^ shval
    → get_or cfg.txtmap (u8 (get_or cfg.binmap v 0)) 0 ≡ v
unfolding agrees
agrees→inverse cfg shval h v small = ==→eq _ _ (all_below_sound (2 ^ shval) (agrees cfg) v h small)

checks : Unit {0}
unfolding base16_lower base16_upper base32cfg base32hexcfg base64cfg base64urlcfg all_below agrees
    find_shval find_shval_from
checks = tt

pub base16_upper-IsCodec : IsCodec base16_upper 4
unfolding checks
base16_upper-IsCodec = record {
  alphabet = record { base = refl; least = omega arith; most = omega arith };
  six = omega arith;
  inverse = agrees→inverse base16_upper 4 refl;
  equals = refl;
}

pub base16_upper-shval : find_shval base16_upper ≡ 4
unfolding checks
base16_upper-shval = refl

pub base16_lower-IsCodec : IsCodec base16_lower 4
unfolding checks
base16_lower-IsCodec = record {
  alphabet = record { base = refl; least = omega arith; most = omega arith };
  six = omega arith;
  inverse = agrees→inverse base16_lower 4 refl;
  equals = refl;
}

pub base16_lower-shval : find_shval base16_lower ≡ 4
unfolding checks
base16_lower-shval = refl

pub base32cfg-IsCodec : IsCodec base32cfg 5
unfolding checks
base32cfg-IsCodec = record {
  alphabet = record { base = refl; least = omega arith; most = omega arith };
  six = omega arith;
  inverse = agrees→inverse base32cfg 5 refl;
  equals = refl;
}

pub base32cfg-shval : find_shval base32cfg ≡ 5
unfolding checks
base32cfg-shval = refl

pub base32hexcfg-IsCodec : IsCodec base32hexcfg 5
unfolding checks
base32hexcfg-IsCodec = record {
  alphabet = record { base = refl; least = omega arith; most = omega arith };
  six = omega arith;
  inverse = agrees→inverse base32hexcfg 5 refl;
  equals = refl;
}

pub base32hexcfg-shval : find_shval base32hexcfg ≡ 5
unfolding checks
base32hexcfg-shval = refl

pub base64cfg-IsCodec : IsCodec base64cfg 6
unfolding checks
base64cfg-IsCodec = record {
  alphabet = record { base = refl; least = omega arith; most = omega arith };
  six = omega arith;
  inverse = agrees→inverse base64cfg 6 refl;
  equals = refl;
}

pub base64cfg-shval : find_shval base64cfg ≡ 6
unfolding checks
base64cfg-shval = refl

pub base64urlcfg-IsCodec : IsCodec base64urlcfg 6
unfolding checks
base64urlcfg-IsCodec = record {
  alphabet = record { base = refl; least = omega arith; most = omega arith };
  six = omega arith;
  inverse = agrees→inverse base64urlcfg 6 refl;
  equals = refl;
}

pub base64urlcfg-shval : find_shval base64urlcfg ≡ 6
unfolding checks
base64urlcfg-shval = refl

module _ (cfg : BaseCfg) (letters : List ℕ) where
  abbrev relettered : BaseCfg
  relettered = record cfg { binmap = letters }

  decode_chars-relettered :
      (shval maxolen : ℕ) (flags : Flags) (text : List ℕ) (d : Decoder)
      → decode_chars relettered shval maxolen flags text d
        ≡ decode_chars cfg shval maxolen flags text d
  unfolding decode_chars decode_char decode_eq decode_value
  decode_chars-relettered shval maxolen flags [] d = refl
  decode_chars-relettered shval maxolen flags (char ∷ rest) d =
      let ih = decode_chars-relettered shval maxolen flags rest in
      λ i. elim (decode_char cfg shval maxolen flags char d) [
        | ok d' ↦ elim (d'.done) [ true ↦ ok d' | false ↦ ih d' i ]
        | overflow d' ↦ overflow d'
        | padding_missing d' ↦ padding_missing d'
      ]

  -- Decoding does not look at the letters that encoding would write.
  pub decode-relettered :
      (out : List ℕ) (olen : ℕ) (text : List ℕ) (flags : Flags)
      → decode relettered out olen text flags ≡ decode cfg out olen text flags
  unfolding decode decode_end find_shval
  decode-relettered out olen text flags = λ i.
      elim (decode_chars-relettered (find_shval cfg) olen flags text
        (record { out = out; olen = 0; ilen = 0; bits = 0; padding = 0; buf = 0; done = false })
        i) [
          | ok d ↦ decode_end cfg (find_shval cfg) olen d
          | overflow d ↦ overflow d
          | padding_missing d ↦ padding_missing d
        ]

-- Base 16 is decoded alike whichever case it was encoded in.
pub decode-base16 :
    (out : List ℕ) (olen : ℕ) (text : List ℕ) (flags : Flags)
    → decode base16_lower out olen text flags ≡ decode base16_upper out olen text flags
unfolding base16_lower base16_upper
decode-base16 out olen text flags =
    decode-relettered base16_upper (base16_lower.binmap) out olen text flags
