-- ===== src/Guid/Text.antt =====
-- The texts of identifiers, in lib-kit/kit-guid.c.
use libkit.Common.{
  c_string, ℕ, zero, suc, ◌*◌, ◌/◌, ◌%◌, ◌^◌, ◌<◌, ◌≤◌, ◌==◌, not, List, [], ◌∷◌, ◌++◌, drop,
  length, All, none, some, ◌≡◌, refl, sym, ap, ◌∙◌, true, false, all_below, all_below_sound,
  append-nil, arith,
}
use libkit.SxeHex.Defs.{
  ok, hex_nibble_to_character, na, nibble, to_bytes_loop, sxe_hex_to_bytes, sxe_hex_from_bytes,
}
use libkit.SxeHex.Read.{digit_value, or_na, nibble-digit_value}
use libkit.SxeHex.Bytes.{
  digit_char, hex_text, sxe_hex_from_bytes-hex_text, sxe_hex_to_bytes-sxe_hex_from_bytes,
}
use libkit.Guid.Defs.{
  Guid, kit_guid_size, kit_guid_str_len, strlen, kit_guid_to_buf, kit_guid_from_str,
}

abbrev pub IsGuid : Guid → Type 0
IsGuid guid = (length guid.bytes ≡ kit_guid_size) × All (λ x. x < 2 ^ 8) guid.bytes

digit_char-nonzero : (v : ℕ) → v < 16 → (digit_char v == 0) ≡ false
unfolding hex_nibble_to_character all_below
digit_char-nonzero v small =
    let t : not (digit_char v == 0) ≡ true =
      all_below_sound 16 (λ i. not (digit_char i == 0)) v refl small in
    ground arith

c_string-hex_text :
    (xs rest : List ℕ) → All (λ x. x < 2 ^ 8) xs → c_string (hex_text xs ++ 0 ∷ rest) ≡ hex_text xs
c_string-hex_text [] rest small = refl
c_string-hex_text (x ∷ xs) rest small =
    let high = digit_char-nonzero (x / 16) (omega (arith, small.0)) in
    let low = digit_char-nonzero (x % 16) (omega arith) in
    rw (high, low)
      (ap (λ t. digit_char (x / 16) ∷ digit_char (x % 16) ∷ t) (c_string-hex_text xs rest small.1))

length-hex_text : (xs : List ℕ) → length (hex_text xs) ≡ 2 * length xs
length-hex_text [] = refl
length-hex_text (x ∷ xs) = omega (arith, length-hex_text xs)

drop_all : (xs : List ℕ) (n : ℕ) → length xs ≤ n → drop n xs ≡ []
drop_all [] zero h = refl
drop_all [] (suc n) h = refl
drop_all (x ∷ xs) zero h = absurd (omega arith)
drop_all (x ∷ xs) (suc n) h = drop_all xs n (omega arith)

-- The text of an identifier, in a buffer whose 33rd character is a NUL, reads back as the identifier,
-- whatever the other one was.
pub kit_guid_from_str-kit_guid_to_buf :
    (guid old : Guid) (buf after : List ℕ)
    → IsGuid guid
    → length old.bytes ≡ kit_guid_size
    → kit_guid_str_len < length buf
    → drop kit_guid_str_len buf ≡ 0 ∷ after
    → kit_guid_from_str old (kit_guid_to_buf (some guid) buf) ≡ guid
unfolding kit_guid_from_str kit_guid_to_buf
kit_guid_from_str-kit_guid_to_buf guid old buf after valid old_size room nul =
    let xs = guid.bytes in
    let two : 2 * length xs ≡ kit_guid_str_len = omega (arith, valid.0) in
    let text : sxe_hex_from_bytes buf xs ≡ hex_text xs ++ 0 ∷ after =
      sxe_hex_from_bytes-hex_text buf xs (omega (arith, valid.0))
      ∙ ap (λ n. hex_text xs ++ drop n buf) two
      ∙ ap (λ t. hex_text xs ++ t) nul in
    let size : strlen (sxe_hex_from_bytes buf xs) ≡ kit_guid_str_len =
      ap strlen text ∙ ap length (c_string-hex_text xs after valid.1) ∙ length-hex_text xs ∙ two in
    let read =
      sxe_hex_to_bytes-sxe_hex_from_bytes buf old.bytes xs valid.1 (omega (arith, valid.0))
        (omega (arith, valid.0)) in
    let whole : xs ++ drop (length xs) old.bytes ≡ xs =
      ap (λ t. xs ++ t) (drop_all old.bytes (length xs) (omega (arith, valid.0))) ∙ append-nil xs in
    let back : sxe_hex_to_bytes old.bytes (sxe_hex_from_bytes buf xs) kit_guid_str_len ≡ (ok, xs) =
      ap (sxe_hex_to_bytes old.bytes (sxe_hex_from_bytes buf xs)) (sym two)
      ∙ read
      ∙ ap (λ t. (ok, t)) whole in
    rw (kit_guid_from_str, back, size) refl

-- A text of the right length that starts with a character that is no hexadecimal digit is not
-- refused: the identifier keeps the value that it had.
pub kit_guid_from_str-kept :
    (guid : Guid) (c : ℕ) (rest : List ℕ)
    → c < 256
    → strlen (c ∷ rest) ≡ kit_guid_str_len
    → digit_value c ≡ none
    → kit_guid_from_str guid (c ∷ rest) ≡ guid
unfolding kit_guid_from_str sxe_hex_to_bytes to_bytes_loop
kit_guid_from_str-kept guid c rest char size bad =
    let e : nibble c ≡ na = nibble-digit_value c char ∙ ap or_na bad in rw (size, e) refl
