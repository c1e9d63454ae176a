-- ===== src/SxeRot13/Laws.antt =====
-- What lib-sxe-util/sxe-rot13.c computes.
use libkit.Common.{
  c_string, ℕ, zero, suc, ◌+◌, ◌-◌, ◌%◌, ◌*◌, ◌^◌, ◌<◌, ◌==◌, ◌&&◌, leb, if◌then◌else◌, List, [],
  ◌∷◌, ◌++◌, take, drop, length, map, All, Option, none, some, u32, bit_or, ◌≡◌, refl, ap, ◌∙◌,
  false, Bool-cases, inl, inr, all_below, all_below_sound, ==→eq, arith,
}
use libkit.SxeHex.Defs.{
  na, nibble, hex_character_to_nibble, unsigned_loop, sxe_hex_to_unsigned, sxe_unsigned_maximum,
}
use libkit.SxeRot13.Defs.{
  sxe_rot13_char, sxe_rot13_hex_to_nibble, sxe_rot13_char_of, sxe_strn_rot13_in_place, rot13_nibble,
  hex_loop, sxe_rot13_hex_to_unsigned,
}

-- The letters of either case turned by thirteen, by arithmetic.
abbrev pub rotated : ℕ → ℕ
rotated c =
    if leb b'A' c && leb c b'Z'
    then b'A' + (c - b'A' + 13) % 26
    else if leb b'a' c && leb c b'z'
    then b'a' + (c - b'a' + 13) % 26
    else c

pub rot13_char-rotated : (c : ℕ) → c < 256 → sxe_rot13_char_of c ≡ rotated c
unfolding sxe_rot13_char_of sxe_rot13_char all_below
rot13_char-rotated c small =
    ==→eq _ _ (all_below_sound 256 (λ i. sxe_rot13_char_of i == rotated i) c refl small)

rot13_nibble-nibble : (c : ℕ) → c < 128 → rot13_nibble c ≡ nibble (sxe_rot13_char_of c)
unfolding rot13_nibble sxe_rot13_hex_to_nibble sxe_rot13_char_of sxe_rot13_char nibble
    hex_character_to_nibble all_below
rot13_nibble-nibble c small =
    ==→eq _ _
      (all_below_sound 128 (λ i. rot13_nibble i == nibble (sxe_rot13_char_of i)) c refl small)

rotated_nul : (c : ℕ) → (c == 0) ≡ false → (rotated c == 0) ≡ false
rotated_nul c h = ground arith

rotated_twice : (c : ℕ) → c < 256 → rotated (rotated c) ≡ c
unfolding all_below
rotated_twice c small = ==→eq _ _ (all_below_sound 256 (λ i. rotated (rotated i) == i) c refl small)

rotated_small : (c : ℕ) → c < 256 → rotated c < 256
rotated_small c small = ground arith

-- The first `length` characters before the NUL turned, and the rest of the string.
abbrev pub rotated_string : List ℕ → ℕ → List ℕ
rotated_string string n =
    map rotated (take n (c_string string)) ++ drop (length (take n (c_string string))) string

in_place :
    (string : List ℕ) (n : ℕ)
    → All (λ c. c < 256) string
    → sxe_strn_rot13_in_place string n ≡ rotated_string string n
unfolding sxe_strn_rot13_in_place
in_place [] zero small = refl
in_place [] (suc n) small = refl
in_place (c ∷ rest) zero small = refl
in_place (c ∷ rest) (suc n) small = elim (Bool-cases (c == 0)) [
  | inl nul ↦ rw nul refl
  | inr more ↦
      rw (more, rot13_char-rotated c small.0) (ap (λ t. rotated c ∷ t) (in_place rest n small.1))
]

in_place_twice :
    (string : List ℕ) (length : ℕ)
    → All (λ c. c < 256) string
    → sxe_strn_rot13_in_place (sxe_strn_rot13_in_place string length) length ≡ string
unfolding sxe_strn_rot13_in_place
in_place_twice [] left small = refl
in_place_twice (c ∷ rest) zero small = refl
in_place_twice (c ∷ rest) (suc left) small = elim (Bool-cases (c == 0)) [
  | inl nul ↦ rw (nul, nul) refl
  | inr more ↦
      let once = rot13_char-rotated c small.0 in
      let twice : sxe_rot13_char_of (rotated c) ≡ c =
        rot13_char-rotated (rotated c) (rotated_small c small.0) ∙ rotated_twice c small.0 in
      rw (more, once, rotated_nul c more, twice)
        (ap (λ t. c ∷ t) (in_place_twice rest left small.1))
]

-- `sxe_strn_rot13_in_place` turns each letter before the NUL and within the length by thirteen, keeps
-- the other characters, and applied twice gives the string back.
pub sxe_strn_rot13_in_place-rotated :
    (string : List ℕ) (length : ℕ)
    → All (λ c. c < 256) string
    → (sxe_strn_rot13_in_place string length ≡ rotated_string string length)
      × (sxe_strn_rot13_in_place (sxe_strn_rot13_in_place string length) length ≡ string)
sxe_strn_rot13_in_place-rotated string length small =
    (in_place string length small, in_place_twice string length small)

loops_agree :
    (text : List ℕ) (left result : ℕ)
    → All (λ c. c < 128) text
    → hex_loop text left result ≡ unsigned_loop (sxe_strn_rot13_in_place text left) left result
unfolding hex_loop unsigned_loop sxe_strn_rot13_in_place
loops_agree [] left result ascii = refl
loops_agree (c ∷ rest) zero result ascii = refl
loops_agree (c ∷ rest) (suc left) result ascii = elim (Bool-cases (c == 0)) [
  | inl nul ↦ rw (nul, nul) refl
  | inr more ↦
      let turned = rot13_char-rotated c (omega (arith, ascii.0)) in
      let same = rot13_nibble-nibble c ascii.0 ∙ ap nibble turned in
      rw (more, turned, same, rotated_nul c more)
        (ap (λ t. if nibble (rotated c) == na then none else t)
          (loops_agree rest left (bit_or (u32 (result * 2 ^ 4)) (nibble (rotated c))) ascii.1))
]

-- On texts of ASCII characters, the number that `sxe_rot13_hex_to_unsigned` reads is the one that
-- `sxe_hex_to_unsigned` reads after `sxe_strn_rot13_in_place`, errors included.
pub sxe_rot13_hex_to_unsigned-sxe_strn_rot13_in_place :
    (text : List ℕ) (text_length : ℕ)
    → All (λ c. c < 128) text
    → sxe_rot13_hex_to_unsigned text text_length
      ≡ sxe_hex_to_unsigned (sxe_strn_rot13_in_place text text_length) text_length
unfolding sxe_rot13_hex_to_unsigned sxe_hex_to_unsigned
sxe_rot13_hex_to_unsigned-sxe_strn_rot13_in_place text text_length ascii =
    ap (λ (o : Option ℕ). elim o [ none ↦ sxe_unsigned_maximum | some result ↦ result ])
      (loops_agree text text_length 0 ascii)
