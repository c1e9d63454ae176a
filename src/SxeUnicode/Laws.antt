-- ===== src/SxeUnicode/Laws.antt =====
-- `sxe_unicode_to_utf8` of lib-sxe-jitson/sxe-unicode.c against a decoder of UTF-8.
use libkit.Common.{
  ℕ, ◌+◌, ◌-◌, ◌*◌, ◌/◌, ◌%◌, ◌^◌, ◌≤◌, List, [], ◌∷◌, take, drop, Option, none, some, ◌≡◌, refl,
  ap, ◌∙◌, true, false, Bool, Bool-cases, inl, inr, leb, leb→le, ltb, ◌&&◌, if◌then◌else◌, u8,
  bit_or, bit_or_fields, bit_and_mask, arith,
}
use libkit.SxeUnicode.Defs.{continuation, sxe_unicode_to_utf8}

abbrev between : ℕ → ℕ → ℕ → Bool
between low c high = leb low c && leb c high

-- The value of continuation bytes after the higher bits `high`: none where one is out of its range.
abbrev continued : ℕ → List ℕ → Option ℕ
continued high [] = some high
continued high (c ∷ rest) =
    if between 0x80 c 0xBF then continued (high * 64 + (c - 0x80)) rest else none

-- The code point of a UTF-8 sequence: the range of the first byte says how many follow.
abbrev pub decoded : List ℕ → Option ℕ
decoded [] = none
decoded (a ∷ []) = if leb a 0x7F then some a else none
decoded (a ∷ b ∷ []) = if between 0xC0 a 0xDF then continued (a - 0xC0) (b ∷ []) else none
decoded (a ∷ b ∷ c ∷ []) = if between 0xE0 a 0xEF then continued (a - 0xE0) (b ∷ c ∷ []) else none
decoded (a ∷ b ∷ c ∷ d ∷ []) =
    if between 0xF0 a 0xF7 then continued (a - 0xF0) (b ∷ c ∷ d ∷ []) else none
decoded (a ∷ b ∷ c ∷ d ∷ e ∷ rest) = none

continuation-sum : (bits : ℕ) → continuation bits ≡ 0x80 + bits % 64
unfolding continuation
continuation-sum bits =
    ap (λ (t : ℕ). u8 (bit_or 0x80 t)) (bit_and_mask 6 bits)
    ∙ ap u8 (bit_or_fields 6 2 (bits % 64) (omega arith))
    ∙ omega arith

-- How many bytes the standard's table asks for.
abbrev pub utf8_length : ℕ → ℕ
utf8_length unicode =
    if ltb unicode 0x80
    then 1
    else if ltb unicode 0x800
    then 2
    else if ltb unicode 0x10000
    then 3
    else if ltb unicode 0x110000
    then 4
    else 0

abbrev Encodes : ℕ → List ℕ → ℕ × List ℕ → Type 0
Encodes unicode utf_out result =
    (result.0 ≡ utf8_length unicode)
    × (decoded (take result.0 result.1) ≡ some unicode)
    × (drop result.0 result.1 ≡ drop result.0 utf_out)

one_byte :
    (unicode a : ℕ) (rest : List ℕ)
    → leb unicode 0x7F ≡ true
    → Encodes unicode (a ∷ rest) (sxe_unicode_to_utf8 unicode (a ∷ rest))
unfolding sxe_unicode_to_utf8
one_byte unicode a rest small =
    let fits : u8 unicode ≡ unicode = ground (arith, small) in
    let size : 1 ≡ utf8_length unicode = ground (arith, small) in
    rw (small, fits, small) (size, refl, refl)

two_bytes :
    (unicode a b : ℕ) (rest : List ℕ)
    → leb unicode 0x7F ≡ false
    → leb unicode 0x7FF ≡ true
    → Encodes unicode (a ∷ b ∷ rest) (sxe_unicode_to_utf8 unicode (a ∷ b ∷ rest))
unfolding sxe_unicode_to_utf8
two_bytes unicode a b rest big small =
    let bound : unicode ≤ 0x7FF = leb→le _ _ small in
    let lead : u8 (bit_or 0xC0 (unicode / 2 ^ 6)) ≡ 0xC0 + unicode / 64 =
      ap u8 (bit_or_fields 5 6 (unicode / 64) (omega arith)) ∙ omega arith in
    let size : 2 ≡ utf8_length unicode = ground (arith, small, big) in
    rw (big, small, lead, continuation-sum unicode) (size, ground arith, refl)

three_bytes :
    (unicode a b c : ℕ) (rest : List ℕ)
    → leb unicode 0x7F ≡ false
    → leb unicode 0x7FF ≡ false
    → leb unicode 0xFFFF ≡ true
    → Encodes unicode (a ∷ b ∷ c ∷ rest) (sxe_unicode_to_utf8 unicode (a ∷ b ∷ c ∷ rest))
unfolding sxe_unicode_to_utf8
three_bytes unicode a b c rest big bigger small =
    let bound : unicode ≤ 0xFFFF = leb→le _ _ small in
    let lead : u8 (bit_or 0xE0 (unicode / 2 ^ 12)) ≡ 0xE0 + unicode / 4096 =
      ap u8 (bit_or_fields 4 14 (unicode / 4096) (omega arith)) ∙ omega arith in
    let size : 3 ≡ utf8_length unicode = ground (arith, small, bigger) in
    rw (big, bigger, small, lead, continuation-sum (unicode / 2 ^ 6), continuation-sum unicode)
      (size, ground arith, refl)

four_bytes :
    (unicode a b c d : ℕ) (rest : List ℕ)
    → leb unicode 0x7F ≡ false
    → leb unicode 0x7FF ≡ false
    → leb unicode 0xFFFF ≡ false
    → leb unicode 0x10FFFF ≡ true
    → Encodes unicode (a ∷ b ∷ c ∷ d ∷ rest) (sxe_unicode_to_utf8 unicode (a ∷ b ∷ c ∷ d ∷ rest))
unfolding sxe_unicode_to_utf8
four_bytes unicode a b c d rest big bigger biggest small =
    let bound : unicode ≤ 0x10FFFF = leb→le _ _ small in
    let lead : u8 (bit_or 0xF0 (unicode / 2 ^ 18)) ≡ 0xF0 + unicode / 262144 =
      ap u8 (bit_or_fields 3 30 (unicode / 262144) (omega arith)) ∙ omega arith in
    let size : 4 ≡ utf8_length unicode = ground (arith, small, biggest) in
    rw
      (
        big,
        bigger,
        biggest,
        small,
        lead,
        continuation-sum (unicode / 2 ^ 12),
        continuation-sum (unicode / 2 ^ 6),
        continuation-sum unicode,
      )
      (size, ground arith, refl)

module _ (unicode a b c d : ℕ) (rest : List ℕ) (valid : unicode ≤ 0x10FFFF) where
  abbrev result : ℕ × List ℕ
  result = sxe_unicode_to_utf8 unicode (a ∷ b ∷ c ∷ d ∷ rest)

  in_range : Encodes unicode (a ∷ b ∷ c ∷ d ∷ rest) result
  in_range = elim (Bool-cases (leb unicode 0x7F)) [
    | inl small ↦ one_byte unicode a (b ∷ c ∷ d ∷ rest) small
    | inr big ↦ elim (Bool-cases (leb unicode 0x7FF)) [
      | inl small ↦ two_bytes unicode a b (c ∷ d ∷ rest) big small
      | inr bigger ↦ elim (Bool-cases (leb unicode 0xFFFF)) [
        | inl small ↦ three_bytes unicode a b c (d ∷ rest) big bigger small
        | inr biggest ↦ four_bytes unicode a b c d rest big bigger biggest (ground (arith, valid))
      ]
    ]
  ]

out_of_range :
    (unicode : ℕ) (utf_out : List ℕ)
    → leb unicode 0x10FFFF ≡ false
    → (sxe_unicode_to_utf8 unicode utf_out ≡ (0, utf_out)) × (0 ≡ utf8_length unicode)
unfolding sxe_unicode_to_utf8
out_of_range unicode utf_out large = (ground (arith, large), ground (arith, large))

-- Into a buffer of four bytes or more, `sxe_unicode_to_utf8` writes for every code point as many bytes
-- as the standard's table says, from which a decoder of UTF-8 reads the code point back, and for a
-- larger number none; it returns their number and keeps the rest of the buffer.
pub sxe_unicode_to_utf8-decoded :
    (unicode a b c d : ℕ) (rest : List ℕ)
    → let utf_out = a ∷ b ∷ c ∷ d ∷ rest in
      let (n, out) = sxe_unicode_to_utf8 unicode utf_out in
      (n ≡ utf8_length unicode)
      × (decoded (take n out) ≡ (if leb unicode 0x10FFFF then some unicode else none))
      × (drop n out ≡ drop n utf_out)
sxe_unicode_to_utf8-decoded unicode a b c d rest = elim (Bool-cases (leb unicode 0x10FFFF)) [
  | inl small ↦ let r = in_range unicode a b c d rest (leb→le _ _ small) in rw small (r.0, r.1, r.2)
  | inr large ↦
      let r = out_of_range unicode (a ∷ b ∷ c ∷ d ∷ rest) large in rw (large, r.0) (r.1, refl, refl)
]
