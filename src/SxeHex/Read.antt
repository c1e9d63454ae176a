-- ===== src/SxeHex/Read.antt =====
-- The number that lib-sxe-util/sxe-hex.c reads from a text, against positional notation.
use libkit.Common.{
  c_string, ℕ, zero, suc, ◌+◌, ◌*◌, ◌-◌, ◌/◌, ◌^◌, ◌<◌, ◌==◌, ◌&&◌, leb, if◌then◌else◌, List, [],
  ◌∷◌, take, length, All, Option, none, some, ◌≡◌, refl, sym, ap, ◌∙◌, false, Bool, u32, bit_or,
  bit_or_fields, all_below, all_below_sound, ==→eq, Bool-cases, Option-cases, inl, inr, arith,
}
use libkit.SxeHex.Defs.{
  SxeReturn, ok, error_internal, na, hex_character_to_nibble, nibble, unsigned_loop,
  sxe_valid_hex_to_unsigned, sxe_hex_to_unsigned, sxe_unsigned_maximum,
}
use native.Mathlib.Nat.{mod-add-div', mul_assoc, mul-add-mod_self_right, add-mul, pow-suc, mul_comm}

abbrev between : ℕ → ℕ → ℕ → Bool
between low c high = leb low c && leb c high

-- The value of a hexadecimal digit, by the ranges of its character.
abbrev pub digit_value : ℕ → Option ℕ
digit_value c =
    if between b'0' c b'9'
    then some (c - b'0')
    else if between b'a' c b'f'
    then some (c - b'a' + 10)
    else if between b'A' c b'F'
    then some (c - b'A' + 10)
    else none

abbrev pub or_na : Option ℕ → ℕ
or_na none = na
or_na (some d) = d

pub nibble-digit_value : (c : ℕ) → c < 256 → nibble c ≡ or_na (digit_value c)
unfolding nibble hex_character_to_nibble all_below
nibble-digit_value c small =
    ==→eq _ _ (all_below_sound 256 (λ i. nibble i == or_na (digit_value i)) c refl small)

digit_value-small : (c d : ℕ) → digit_value c ≡ some d → d < 16
digit_value-small c d e = ground arith

abbrev prepend : Option ℕ → Option (List ℕ) → Option (List ℕ)
prepend none rest = none
prepend (some d) none = none
prepend (some d) (some ds) = some (d ∷ ds)

-- The digits of a text that has nothing else.
abbrev pub digits_of : List ℕ → Option (List ℕ)
digits_of [] = some []
digits_of (c ∷ rest) = prepend (digit_value c) (digits_of rest)

-- Positional notation in base 16, highest digit first.
abbrev pub value_of : List ℕ → ℕ
value_of [] = 0
value_of (d ∷ ds) = d * 16 ^ length ds + value_of ds

abbrev continued : ℕ → Option (List ℕ) → Option ℕ
continued val none = none
continued val (some ds) = some (u32 (val * 16 ^ length ds + value_of ds))

next_digit : (val d : ℕ) → d < 16 → bit_or (u32 (val * 2 ^ 4)) d ≡ u32 (val * 16 + d)
next_digit val d small =
    let field : u32 (val * 2 ^ 4) ≡ u32 (val * 2 ^ 4) / 2 ^ 4 * 2 ^ 4 = omega arith in
    ap (λ (t : ℕ). bit_or t d) field
    ∙ bit_or_fields 4 (u32 (val * 2 ^ 4) / 2 ^ 4) d small
    ∙ omega arith

-- Wrapping before a digit is shifted in or after makes no difference.
wrap_early : (t place low : ℕ) → u32 (u32 t * place + low) ≡ u32 (t * place + low)
wrap_early t place low =
    let high = t / 2 ^ 32 * place in
    let whole : t * place + low ≡ high * 2 ^ 32 + (u32 t * place + low) = omega (
      arith,
      ap (λ (s : ℕ). s * place) (mod-add-div' t (2 ^ 32)),
      add-mul (u32 t) (t / 2 ^ 32 * 2 ^ 32) place,
      mul_assoc (t / 2 ^ 32) (2 ^ 32) place,
      mul_assoc (t / 2 ^ 32) place (2 ^ 32),
      ap (λ (s : ℕ). t / 2 ^ 32 * s) (mul_comm place (2 ^ 32)),
    ) in
    sym (ap u32 whole ∙ mul-add-mod_self_right high (2 ^ 32) (u32 t * place + low))

done : (val : ℕ) → val < 2 ^ 32 → some val ≡ continued val (some [])
done val small = ap some (omega arith)

digit_then :
    (val d : ℕ) (rest : Option (List ℕ))
    → d < 16
    → continued (bit_or (u32 (val * 2 ^ 4)) d) rest ≡ continued val (prepend (some d) rest)
digit_then val d none small = refl
digit_then val d (some ds) small =
    let place = 16 ^ length ds in
    let shifted : (val * 16 + d) * place + value_of ds
        ≡ val * 16 ^ suc (length ds) + (d * place + value_of ds) =
      omega (
        arith,
        add-mul (val * 16) d place,
        mul_assoc val 16 place,
        ap (λ (s : ℕ). val * s) (pow-suc 16 (length ds)),
        ap (λ (s : ℕ). val * s) (mul_comm place 16),
      ) in
    rw (next_digit val d small)
      (ap some (wrap_early (val * 16 + d) place (value_of ds) ∙ ap u32 shifted))

unsigned_loop-continued :
    (hex : List ℕ) (left val : ℕ)
    → All (λ c. c < 256) hex
    → val < 2 ^ 32
    → unsigned_loop hex left val ≡ continued val (digits_of (take left (c_string hex)))
unfolding unsigned_loop
unsigned_loop-continued [] zero val chars small = done val small
unsigned_loop-continued [] (suc left) val chars small = done val small
unsigned_loop-continued (c ∷ rest) zero val chars small = done val small
unsigned_loop-continued (c ∷ rest) (suc left) val chars small = elim (Bool-cases (c == 0)) [
  | inl nul ↦ rw nul (done val small)
  | inr more ↦ elim (Option-cases (digit_value c)) [
    | inl bad ↦
        let e : nibble c ≡ na = nibble-digit_value c chars.0 ∙ ap or_na bad in
        rw (more, e)
          (ap (λ o. continued val (prepend o (digits_of (take left (c_string rest))))) (sym bad))
    | inr (d, good) ↦
        let e : nibble c ≡ d = nibble-digit_value c chars.0 ∙ ap or_na good in
        let fits = digit_value-small c d good in
        let digit : (d == na) ≡ false = ground arith in
        rw (more, e, digit)
          (unsigned_loop-continued rest left (bit_or (u32 (val * 2 ^ 4)) d) chars.1
              (rw (next_digit val d fits) (omega arith))
            ∙ digit_then val d (digits_of (take left (c_string rest))) fits
            ∙ ap (λ o. continued val (prepend o (digits_of (take left (c_string rest)))))
                (sym good))
  ]
]

abbrev pub valid_result : ℕ → Option (List ℕ) → SxeReturn × ℕ
valid_result value none = (error_internal, value)
valid_result value (some ds) = (ok, u32 (value_of ds))

abbrev pub number_result : Option (List ℕ) → ℕ
number_result none = sxe_unsigned_maximum
number_result (some ds) = u32 (value_of ds)

results :
    (value : ℕ) (digits : Option (List ℕ))
    → (elim (continued 0 digits) [ none ↦ (error_internal, value) | some val ↦ (ok, val) ]
        ≡ valid_result value digits)
      × (elim (continued 0 digits) [ none ↦ sxe_unsigned_maximum | some result ↦ result ]
          ≡ number_result digits)
results value none = (refl, refl)
results value (some ds) =
    let from_zero : u32 (0 * 16 ^ length ds + value_of ds) ≡ u32 (value_of ds) = omega arith in
    (ap (λ (n : ℕ). (ok, n)) from_zero, from_zero)

-- Both readers look at the characters before the NUL, at most `hex_length_maximum` of them. Where all
-- are hexadecimal digits in either case, both return their value in base 16 modulo 2^32; where one is
-- not, the one reports an error and leaves `*value` alone, and the other returns the largest number.
pub sxe_hex_to_unsigned-digits_of :
    (hex : List ℕ) (hex_length_maximum value : ℕ)
    → All (λ c. c < 256) hex
    → let digits = digits_of (take hex_length_maximum (c_string hex)) in
      (sxe_valid_hex_to_unsigned hex hex_length_maximum value ≡ valid_result value digits)
      × (sxe_hex_to_unsigned hex hex_length_maximum ≡ number_result digits)
unfolding sxe_valid_hex_to_unsigned sxe_hex_to_unsigned
sxe_hex_to_unsigned-digits_of hex hex_length_maximum value chars =
    rw
      (
        unsigned_loop-continued hex hex_length_maximum 0 chars (omega arith),
        sxe_valid_hex_to_unsigned,
        sxe_hex_to_unsigned,
      )
      (results value (digits_of (take hex_length_maximum (c_string hex))))
