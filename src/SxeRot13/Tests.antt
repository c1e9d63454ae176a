-- ===== src/SxeRot13/Tests.antt =====
-- Runs of rot13, and its theorems at texts that meet the hypotheses.
use libkit.Common.{c_string, ℕ, List, [], ◌∷◌, map, take, replicate, ◌≡◌, refl, arith}
use libkit.SxeHex.Defs.{sxe_hex_to_unsigned}
use libkit.SxeRot13.Defs.{
  sxe_rot13_char, sxe_rot13_hex_to_nibble, sxe_rot13_char_of, sxe_strn_rot13_in_place, rot13_loop,
  sxe_strn_rot13, rot13_nibble, hex_loop, sxe_rot13_hex_to_unsigned,
}
use libkit.SxeRot13.Laws.{
  rotated, rotated_string, sxe_strn_rot13_in_place-rotated,
  sxe_rot13_hex_to_unsigned-sxe_strn_rot13_in_place,
}
use libkit.SxeRot13.Copy.{placed, sxe_strn_rot13-placed}

program : Unit {0}
unfolding sxe_rot13_char sxe_rot13_hex_to_nibble sxe_rot13_char_of sxe_strn_rot13_in_place
    rot13_loop sxe_strn_rot13 rot13_nibble hex_loop sxe_rot13_hex_to_unsigned
program = tt

abbrev orrs : List ℕ
orrs = b'O' ∷ b'r' ∷ b'R' ∷ b's' ∷ []

sxe_rot13_hex_to_unsigned-beef : sxe_rot13_hex_to_unsigned orrs 4 ≡ 0xbeef
unfolding program
sxe_rot13_hex_to_unsigned-beef = refl

turned_twice :
    (sxe_strn_rot13_in_place orrs 3 ≡ rotated_string orrs 3)
    × (sxe_strn_rot13_in_place (sxe_strn_rot13_in_place orrs 3) 3 ≡ orrs)
turned_twice =
    sxe_strn_rot13_in_place-rotated orrs 3
      (omega arith, (omega arith, (omega arith, (omega arith, tt))))

read_turned :
    sxe_rot13_hex_to_unsigned orrs 3 ≡ sxe_hex_to_unsigned (sxe_strn_rot13_in_place orrs 3) 3
read_turned =
    sxe_rot13_hex_to_unsigned-sxe_strn_rot13_in_place orrs 3
      (omega arith, (omega arith, (omega arith, (omega arith, tt))))

spaced_copy :
    sxe_strn_rot13 (replicate 7 b'.') orrs 6
    ≡ placed (map rotated (take 6 (c_string orrs))) 6 (replicate 7 b'.')
spaced_copy =
    sxe_strn_rot13-placed (replicate 7 b'.') orrs 6
      (omega arith, (omega arith, (omega arith, (omega arith, tt)))) (omega arith)
