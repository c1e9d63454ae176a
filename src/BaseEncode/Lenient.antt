-- ===== src/BaseEncode/Lenient.antt =====
-- What base 16 decoding makes of a letter that is no digit.
use libkit.Common.{
  ℕ, true, false, List, [], ◌∷◌, map, ◌≡◌, refl, ◌==◌, if◌then◌else◌, Bool-cases, ==→eq, inl, inr,
}
use libkit.BaseEncode.Config.{find_shval, base16_lower}
use libkit.BaseEncode.Decode.{
  Decoder, Flags, ok, overflow, padding_missing, decode_char, decode_chars, decode,
}
use libkit.BaseEncode.RoundTrip.{start}
use libkit.BaseEncode.Api.{kit_base16decode}

-- A character with the letter P for the letter F.
abbrev pub p_for_f : ℕ → ℕ
p_for_f char = if char == b'F' then b'P' else char

module _ (shval maxolen : ℕ) (flags : Flags) where
  char_p_for_f :
      (char : ℕ) (d : Decoder)
      → decode_char base16_lower shval maxolen flags (p_for_f char) d
        ≡ decode_char base16_lower shval maxolen flags char d
  unfolding base16_lower decode_char
  char_p_for_f char d = elim (Bool-cases (char == b'F')) [ inl h ↦ rw (==→eq _ _ h) | inr h ↦ rw h ]

  chars_p_for_f :
      (text : List ℕ) (d : Decoder)
      → decode_chars base16_lower shval maxolen flags (map p_for_f text) d
        ≡ decode_chars base16_lower shval maxolen flags text d
  unfolding decode_chars
  chars_p_for_f [] d = refl
  chars_p_for_f (char ∷ rest) d =
      rw (char_p_for_f char d, decode_chars)
        (λ i. elim (decode_char base16_lower shval maxolen flags char d) [
          | ok d' ↦ elim (d'.done) [ true ↦ ok d' | false ↦ chars_p_for_f rest d' i ]
          | overflow d' ↦ overflow d'
          | padding_missing d' ↦ padding_missing d'
        ])

-- The base 16 table maps the letter P to 15: a text with P in place of F decodes exactly as
-- the text itself, errors and counters included.
pub kit_base16decode-p_for_f :
    (out : List ℕ) (olen : ℕ) (text : List ℕ) (flags : Flags)
    → kit_base16decode out olen (map p_for_f text) flags ≡ kit_base16decode out olen text flags
unfolding kit_base16decode decode
kit_base16decode-p_for_f out olen text flags =
    rw (
      chars_p_for_f (find_shval base16_lower) olen flags text (start out),
      kit_base16decode,
      decode,
    )
