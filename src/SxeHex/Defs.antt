-- ===== src/SxeHex/Defs.antt =====
-- lib-sxe-util/sxe-hex.c: numbers and bytes from hexadecimal texts, and texts from bytes.
use libkit.Common.{
  ℕ, zero, suc, ◌+◌, ◌*◌, ◌-◌, ◌/◌, ◌^◌, ◌==◌, ◌||◌, if◌then◌else◌, List, [], ◌∷◌, ◌++◌, replicate,
  Option, none, some, get_or, set, drop, u8, u32, ◌<<<◌, ◌>>>◌, bit_and, bit_or,
}

-- `SXE_RETURN`, as far as these functions use it.
pub data SxeReturn : Type 0 where
  ok error_internal : SxeReturn

abbrev pub na : ℕ
na = 0xff

abbrev letters_row : List ℕ
letters_row = na ∷ 10 ∷ 11 ∷ 12 ∷ 13 ∷ 14 ∷ 15 ∷ na ∷ na ∷ na ∷ na ∷ na ∷ na ∷ na ∷ na ∷ na ∷ []

abbrev digits_row : List ℕ
digits_row = 0 ∷ 1 ∷ 2 ∷ 3 ∷ 4 ∷ 5 ∷ 6 ∷ 7 ∷ 8 ∷ 9 ∷ na ∷ na ∷ na ∷ na ∷ na ∷ na ∷ []

abbrev na_rows : ℕ → List ℕ
na_rows rows = replicate (rows * 16) na

-- Rows of sixteen: three before the digits, the letters in either case, and nine after.
unfoldable pub hex_character_to_nibble : List ℕ
hex_character_to_nibble =
    na_rows 3 ++ digits_row ++ letters_row ++ na_rows 1 ++ letters_row ++ na_rows 9

unfoldable pub hex_nibble_to_character : List ℕ
hex_nibble_to_character =
    b'0' ∷ b'1' ∷ b'2' ∷ b'3' ∷ b'4' ∷ b'5' ∷ b'6' ∷ b'7' ∷ b'8' ∷ b'9' ∷ b'a' ∷ b'b' ∷ b'c' ∷ b'd'
    ∷ b'e' ∷ b'f' ∷ []

-- `hex_character_to_nibble[(unsigned char)(c)]`
unfoldable pub nibble : ℕ → ℕ
nibble c = get_or hex_character_to_nibble c na

-- The loop that both readers of numbers share, over `hex[i]`, …; the second argument is what is left
-- of `hex_length_maximum`. A string ends at a NUL, or with the list.
unfoldable pub unsigned_loop : List ℕ → ℕ → ℕ → Option ℕ
unsigned_loop [] left val = some val
unsigned_loop (c ∷ rest) zero val = some val
unsigned_loop (c ∷ rest) (suc left) val =
    let further = unsigned_loop rest left (bit_or (u32 (val <<< 4)) (nibble c)) in
    if c == 0 then some val else if nibble c == na then none else further

-- The result, and `*value`.
unfoldable pub sxe_valid_hex_to_unsigned : List ℕ → ℕ → ℕ → SxeReturn × ℕ
sxe_valid_hex_to_unsigned hex hex_length_maximum value =
    elim (unsigned_loop hex hex_length_maximum 0) [
      | none ↦ (error_internal, value)
      | some val ↦ (ok, val)
    ]

abbrev pub sxe_unsigned_maximum : ℕ
sxe_unsigned_maximum = 2 ^ 32 - 1

unfoldable pub sxe_hex_to_unsigned : List ℕ → ℕ → ℕ
sxe_hex_to_unsigned hex hex_length_maximum = elim (unsigned_loop hex hex_length_maximum 0) [
  | none ↦ sxe_unsigned_maximum
  | some result ↦ result
]

-- A round reads `hex[i]` and `hex[i + 1]`, the second also where the length is odd; the list is
-- `hex[i]`, …, and reads as NULs past its end.
unfoldable pub to_bytes_loop : ℕ → List ℕ → ℕ → List ℕ → SxeReturn × List ℕ
to_bytes_loop zero hex i bytes = (ok, bytes)
to_bytes_loop (suc rounds) hex i bytes =
    let nibble_high = nibble (get_or hex 0 0) in
    let nibble_low = nibble (get_or hex 1 0) in
    let rest =
      to_bytes_loop rounds (drop 2 hex) (i + 2)
        (set bytes (i / 2) (u8 (bit_or (nibble_high <<< 4) nibble_low))) in
    if (nibble_high == na) || (nibble_low == na) then (error_internal, bytes) else rest

-- The result, and the buffer `bytes`. A round moves the index by two, so half of `hex_length`, rounded
-- up, is the number of rounds.
unfoldable pub sxe_hex_to_bytes : List ℕ → List ℕ → ℕ → SxeReturn × List ℕ
sxe_hex_to_bytes bytes hex hex_length = to_bytes_loop ((hex_length + 1) / 2) hex 0 bytes

unfoldable pub from_bytes_loop : List ℕ → ℕ → List ℕ → List ℕ
from_bytes_loop [] i hex = hex
from_bytes_loop (byte ∷ rest) i hex =
    let high = get_or hex_nibble_to_character (byte >>> 4) 0 in
    let low = get_or hex_nibble_to_character (bit_and byte 0xF) 0 in
    from_bytes_loop rest (i + 1) (set (set hex (2 * i + 0) high) (2 * i + 1) low)

-- The buffer `hex`; the list of bytes has `size` of them.
unfoldable pub sxe_hex_from_bytes : List ℕ → List ℕ → List ℕ
sxe_hex_from_bytes hex bytes = from_bytes_loop bytes 0 hex
