-- ===== src/SxeHex/Tests.antt =====
-- Runs of the hexadecimal functions, and their theorems at inputs that meet the hypotheses.
use libkit.Common.{c_string, ℕ, List, [], ◌∷◌, ◌++◌, take, drop, replicate, ◌≡◌, refl, arith}
use libkit.SxeHex.Defs.{
  ok, error_internal, hex_character_to_nibble, hex_nibble_to_character, nibble, unsigned_loop,
  to_bytes_loop, from_bytes_loop, sxe_valid_hex_to_unsigned, sxe_hex_to_unsigned, sxe_hex_to_bytes,
  sxe_hex_from_bytes,
}
use libkit.SxeHex.Read.{digits_of, valid_result, number_result, sxe_hex_to_unsigned-digits_of}
use libkit.SxeHex.Bytes.{hex_text, sxe_hex_from_bytes-hex_text, sxe_hex_to_bytes-sxe_hex_from_bytes}

program : Unit {0}
unfolding hex_character_to_nibble hex_nibble_to_character nibble unsigned_loop to_bytes_loop
    from_bytes_loop sxe_valid_hex_to_unsigned sxe_hex_to_unsigned sxe_hex_to_bytes
    sxe_hex_from_bytes
program = tt

abbrev beef : List ℕ
beef = b'B' ∷ b'e' ∷ b'E' ∷ b'f' ∷ []

sxe_hex_to_unsigned-beef : sxe_hex_to_unsigned beef 8 ≡ 0xbeef
unfolding program
sxe_hex_to_unsigned-beef = refl

sxe_hex_to_bytes-beef : sxe_hex_to_bytes (7 ∷ 7 ∷ 7 ∷ []) beef 4 ≡ (ok, 0xbe ∷ 0xef ∷ 7 ∷ [])
unfolding program
sxe_hex_to_bytes-beef = refl

-- The second byte is not read, and the first is written.
sxe_hex_to_bytes-be_x :
    sxe_hex_to_bytes (7 ∷ 7 ∷ []) (b'b' ∷ b'e' ∷ b'x' ∷ b'f' ∷ []) 4
    ≡ (error_internal, 0xbe ∷ 7 ∷ [])
unfolding program
sxe_hex_to_bytes-be_x = refl

sxe_hex_to_unsigned-digits_of_example :
    (sxe_valid_hex_to_unsigned beef 3 9 ≡ valid_result 9 (digits_of (take 3 (c_string beef))))
    × (sxe_hex_to_unsigned beef 3 ≡ number_result (digits_of (take 3 (c_string beef))))
sxe_hex_to_unsigned-digits_of_example =
    sxe_hex_to_unsigned-digits_of beef 3 9
      (omega arith, (omega arith, (omega arith, (omega arith, tt))))

abbrev two_bytes : List ℕ
two_bytes = 0xbe ∷ 0x0f ∷ []

bytes_text :
    sxe_hex_from_bytes (replicate 5 0) two_bytes ≡ hex_text two_bytes ++ drop 4 (replicate 5 0)
bytes_text = sxe_hex_from_bytes-hex_text (replicate 5 0) two_bytes (omega arith)

sxe_hex_to_bytes-sxe_hex_from_bytes_example :
    sxe_hex_to_bytes (replicate 3 9) (sxe_hex_from_bytes (replicate 5 0) two_bytes) 4
    ≡ (ok, two_bytes ++ drop 2 (replicate 3 9))
sxe_hex_to_bytes-sxe_hex_from_bytes_example =
    sxe_hex_to_bytes-sxe_hex_from_bytes (replicate 5 0) (replicate 3 9) two_bytes
      (omega arith, (omega arith, tt)) (omega arith) (omega arith)
