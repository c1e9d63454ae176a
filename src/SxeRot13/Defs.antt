-- ===== src/SxeRot13/Defs.antt =====
-- lib-sxe-util/sxe-rot13.c: texts with their letters turned by thirteen.
use libkit.Common.{
  ℕ, zero, suc, ◌+◌, ◌-◌, ◌^◌, ◌==◌, ltb, if◌then◌else◌, List, [], ◌∷◌, ◌++◌, replicate, Option,
  none, some, get_or, set, u32, ◌<<<◌, bit_or,
}
use libkit.SxeHex.Defs.{sxe_unsigned_maximum}

-- `count` entries of a table, one more each.
abbrev pub run : ℕ → ℕ → List ℕ
run zero first = []
run (suc count) first = first ∷ run count (first + 1)

unfoldable pub sxe_rot13_char : List ℕ
sxe_rot13_char =
    run 0x41 0x00
    ++ (run 13 b'N' ++ run 13 b'A' ++ run 6 0x5b)
    ++ (run 13 b'n' ++ run 13 b'a' ++ run 133 0x7b)

-- The letters' row of each case and the row after it.
abbrev nibble_rows : List ℕ
nibble_rows = replicate 14 0xff ++ run 6 0x0a ++ replicate 12 0xff

unfoldable pub sxe_rot13_hex_to_nibble : List ℕ
sxe_rot13_hex_to_nibble =
    replicate 48 0xff
    ++ run 10 0x00
    ++ replicate 6 0xff
    ++ nibble_rows
    ++ nibble_rows
    ++ replicate 128 0xff

-- `SXE_ROT13_CHAR(character)`
unfoldable pub sxe_rot13_char_of : ℕ → ℕ
sxe_rot13_char_of character = get_or sxe_rot13_char character 0

-- The loop over `string[i]`, …; the number is `length - i`.
unfoldable pub sxe_strn_rot13_in_place : List ℕ → ℕ → List ℕ
sxe_strn_rot13_in_place [] left = []
sxe_strn_rot13_in_place (c ∷ rest) zero = c ∷ rest
sxe_strn_rot13_in_place (c ∷ rest) (suc left) =
    let turned = sxe_strn_rot13_in_place rest left in
    if c == 0 then c ∷ rest else sxe_rot13_char_of c ∷ turned

-- The loop over `string[i]`, …, from `buffer[i]` on. The string has a NUL at its end.
unfoldable pub rot13_loop : List ℕ → ℕ → ℕ → List ℕ → List ℕ
rot13_loop string zero i buffer = buffer
rot13_loop [] (suc left) i buffer = set buffer i 0
rot13_loop (c ∷ rest) (suc left) i buffer =
    let further = rot13_loop rest left (i + 1) (set buffer i (sxe_rot13_char_of c)) in
    if c == 0 then set buffer i 0 else further

unfoldable pub sxe_strn_rot13 : List ℕ → List ℕ → ℕ → List ℕ
sxe_strn_rot13 buffer string length = rot13_loop string length 0 buffer

-- `sxe_rot13_hex_to_nibble[(unsigned)(text[i])]`: a `char` is signed, so one from 0x80 on becomes an
-- index past the end of the table. What stands there is not known; here it is 0xff.
unfoldable pub rot13_nibble : ℕ → ℕ
rot13_nibble c =
    get_or sxe_rot13_hex_to_nibble (if ltb c 0x80 then c else c + (2 ^ 32 - 2 ^ 8)) 0xff

unfoldable pub hex_loop : List ℕ → ℕ → ℕ → Option ℕ
hex_loop [] left result = some result
hex_loop (c ∷ rest) zero result = some result
hex_loop (c ∷ rest) (suc left) result =
    let further = hex_loop rest left (bit_or (u32 (result <<< 4)) (rot13_nibble c)) in
    if c == 0 then some result else if rot13_nibble c == 0xff then none else further

unfoldable pub sxe_rot13_hex_to_unsigned : List ℕ → ℕ → ℕ
sxe_rot13_hex_to_unsigned text text_length = elim (hex_loop text text_length 0) [
  | none ↦ sxe_unsigned_maximum
  | some result ↦ result
]
