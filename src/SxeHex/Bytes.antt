-- ===== src/SxeHex/Bytes.antt =====
-- Bytes to a hexadecimal text and back, in lib-sxe-util/sxe-hex.c.
use libkit.Common.{
  ℕ, suc, ◌+◌, ◌*◌, ◌/◌, ◌%◌, ◌^◌, ◌<◌, ◌≤◌, ◌==◌, List, [], ◌∷◌, ◌++◌, drop, get_or, length,
  length-append, append_assoc, set-append, set_pair-append, All, ◌≡◌, refl, sym, ap, ◌∙◌, false, u8,
  bit_and, bit_or, bit_or_fields, bit_and_mask, all_below, all_below_sound, ==→eq, arith,
}
use libkit.SxeHex.Defs.{
  ok, na, hex_character_to_nibble, hex_nibble_to_character, nibble, to_bytes_loop, from_bytes_loop,
  sxe_hex_to_bytes, sxe_hex_from_bytes,
}

abbrev pub digit_char : ℕ → ℕ
digit_char v = get_or hex_nibble_to_character v 0

-- Two digits a byte, the high one first.
abbrev pub hex_text : List ℕ → List ℕ
hex_text [] = []
hex_text (x ∷ xs) = digit_char (x / 16) ∷ digit_char (x % 16) ∷ hex_text xs

nibble-digit_char : (v : ℕ) → v < 16 → nibble (digit_char v) ≡ v
unfolding nibble hex_character_to_nibble hex_nibble_to_character all_below
nibble-digit_char v small =
    ==→eq _ _ (all_below_sound 16 (λ i. nibble (digit_char i) == i) v refl small)

from_bytes_loop-hex_text :
    (xs front rest : List ℕ) (i : ℕ)
    → length front ≡ 2 * i
    → 2 * length xs ≤ length rest
    → from_bytes_loop xs i (front ++ rest) ≡ front ++ (hex_text xs ++ drop (2 * length xs) rest)
unfolding from_bytes_loop
from_bytes_loop-hex_text [] front rest i at room = refl
from_bytes_loop-hex_text (x ∷ xs) front [] i at room = absurd (omega arith)
from_bytes_loop-hex_text (x ∷ xs) front (a ∷ []) i at room = absurd (omega arith)
from_bytes_loop-hex_text (x ∷ xs) front (a ∷ b ∷ rest) i at room =
    let high = digit_char (x / 16) in
    let low = digit_char (x % 16) in
    let first : 2 * i + 0 ≡ length front = omega arith in
    let second : 2 * i + 1 ≡ suc (length front) = omega arith in
    let more : 2 * suc (length xs) ≡ suc (suc (2 * length xs)) = omega arith in
    let mask : bit_and x 0xF ≡ x % 16 = bit_and_mask 4 x in
    rw (first, second, more, mask, set_pair-append front a b rest high low)
      (ap (from_bytes_loop xs (i + 1)) (sym (append_assoc front (high ∷ low ∷ []) rest))
        ∙ from_bytes_loop-hex_text xs (front ++ high ∷ low ∷ []) rest (i + 1)
            (omega (arith, length-append front (high ∷ low ∷ []))) (omega arith)
        ∙ append_assoc front (high ∷ low ∷ []) _)

to_bytes_loop-hex_text :
    (xs tail front rest : List ℕ) (i : ℕ)
    → All (λ x. x < 2 ^ 8) xs
    → i ≡ 2 * length front
    → length xs ≤ length rest
    → to_bytes_loop (length xs) (hex_text xs ++ tail) i (front ++ rest)
      ≡ (ok, front ++ (xs ++ drop (length xs) rest))
unfolding to_bytes_loop
to_bytes_loop-hex_text [] tail front rest i bytes at room = refl
to_bytes_loop-hex_text (x ∷ xs) tail front [] i bytes at room = absurd (omega arith)
to_bytes_loop-hex_text (x ∷ xs) tail front (a ∷ rest) i bytes at room =
    let high : nibble (digit_char (x / 16)) ≡ x / 16 =
      nibble-digit_char (x / 16) (omega (arith, bytes.0)) in
    let low : nibble (digit_char (x % 16)) ≡ x % 16 = nibble-digit_char (x % 16) (omega arith) in
    let high_digit : (x / 16 == na) ≡ false = ground (arith, bytes.0) in
    let low_digit : (x % 16 == na) ≡ false = ground arith in
    let here : i / 2 ≡ length front = omega arith in
    let byte : u8 (bit_or (x / 16 * 2 ^ 4) (x % 16)) ≡ x =
      omega (arith, bit_or_fields 4 (x / 16) (x % 16) (omega arith), bytes.0) in
    rw (high, low, high_digit, low_digit, byte, here, set-append front a rest x)
      (ap (to_bytes_loop (length xs) (hex_text xs ++ tail) (i + 2))
          (sym (append_assoc front (x ∷ []) rest))
        ∙ to_bytes_loop-hex_text xs tail (front ++ x ∷ []) rest (i + 2) bytes.1
            (omega (arith, length-append front (x ∷ []))) (omega arith)
        ∙ ap (λ t. (ok, t)) (append_assoc front (x ∷ []) _))

-- Into a buffer with room, `sxe_hex_from_bytes` writes two lower-case digits for each byte, the high
-- one first, and leaves the rest of the buffer as it was.
pub sxe_hex_from_bytes-hex_text :
    (hex xs : List ℕ)
    → 2 * length xs ≤ length hex
    → sxe_hex_from_bytes hex xs ≡ hex_text xs ++ drop (2 * length xs) hex
unfolding sxe_hex_from_bytes
sxe_hex_from_bytes-hex_text hex xs room = from_bytes_loop-hex_text xs [] hex 0 refl room

-- With room in both buffers, `sxe_hex_to_bytes` reads back without an error the bytes whose text
-- `sxe_hex_from_bytes` wrote, and leaves the rest of its buffer as it was.
pub sxe_hex_to_bytes-sxe_hex_from_bytes :
    (hex bytes xs : List ℕ)
    → All (λ x. x < 2 ^ 8) xs
    → 2 * length xs ≤ length hex
    → length xs ≤ length bytes
    → sxe_hex_to_bytes bytes (sxe_hex_from_bytes hex xs) (2 * length xs)
      ≡ (ok, xs ++ drop (length xs) bytes)
unfolding sxe_hex_to_bytes
sxe_hex_to_bytes-sxe_hex_from_bytes hex bytes xs small room room' =
    let rounds : (2 * length xs + 1) / 2 ≡ length xs = omega arith in
    rw (sxe_hex_from_bytes-hex_text hex xs room, rounds)
      (to_bytes_loop-hex_text xs (drop (2 * length xs) hex) [] bytes 0 small refl room')
