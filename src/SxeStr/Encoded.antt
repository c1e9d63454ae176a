-- ===== src/SxeStr/Encoded.antt =====
-- Reading back what `sxe_strn_encode` of lib-sxe-log/sxe-str-encode.c writes.
use libkit.Common.{
  ℕ, zero, suc, ◌+◌, ◌-◌, ◌*◌, ◌/◌, ◌%◌, ◌≤◌, ◌<◌, ◌^◌, ◌==◌, ltb, not, Bool, true, false,
  if◌then◌else◌, List, [], ◌∷◌, ◌++◌, take, drop, length, append-nil, All, All-append, c_string,
  ◌≡◌, refl, sym, ◌∙◌, ap, arith, Bool-cases, inl, inr, ◌⊎◌, ==→eq,
}
use mathlib.Core.Path.{subst, ap₂}
use libkit.SxeStr.Encode.{
  hex_upper, printed, is_special, sxe_strn_encode, code, codes, ended, encode_loop-Ends,
}

abbrev hex_value : ℕ → ℕ
hex_value d = if ltb d 58 then d - 48 else d - 55

abbrev blank_or : ℕ → ℕ
blank_or c = if c == 95 then 32 else c

-- The text of a code.
abbrev pub decoded : List ℕ → List ℕ
decoded [] = []
decoded (c ∷ []) = blank_or c ∷ []
decoded (c ∷ a ∷ []) = blank_or c ∷ decoded (a ∷ [])
decoded (c ∷ a ∷ b ∷ rest) =
    if c == 61
    then (hex_value a * 16 + hex_value b) ∷ decoded rest
    else blank_or c ∷ decoded (a ∷ b ∷ rest)

hex_value-hex_upper : (d : ℕ) → d < 16 → hex_value (hex_upper d) ≡ d
hex_value-hex_upper d h = ground arith

decoded-plain :
    (c : ℕ) (rest : List ℕ) → (c == 61) ≡ false → decoded (c ∷ rest) ≡ blank_or c ∷ decoded rest
decoded-plain c [] h = refl
decoded-plain c (a ∷ []) h = refl
decoded-plain c (a ∷ b ∷ rest) h = rw h refl

decoded-printed : (c : ℕ) (rest : List ℕ) → c < 128 → decoded (printed c ++ rest) ≡ c ∷ decoded rest
decoded-printed c rest small =
    let seven : ltb c 128 ≡ true = ground (arith, small) in
    let high = hex_value-hex_upper (c / 16) (omega (arith, small)) in
    let low = hex_value-hex_upper (c % 16) (omega arith) in
    let whole : c / 16 * 16 + c % 16 ≡ c = omega arith in
    ap
      (λ b.
        (hex_value (if b then hex_upper (c / 16) else 70) * 16
          + hex_value (if b then hex_upper (c % 16) else 70))
        ∷ decoded rest)
      seven
    ∙ ap₂ (λ h l. (h * 16 + l) ∷ decoded rest) high low
    ∙ ap (λ v. v ∷ decoded rest) whole

module _ (is_space is_print : ℕ → Bool) where
  abbrev text_of : List ℕ → ℕ → List ℕ
  text_of string n = take n (c_string string)

  decoded-code :
      (c : ℕ) (rest : List ℕ)
      → c < 128
      → decoded (code is_space is_print c ++ rest) ≡ c ∷ decoded rest
  decoded-code c rest small = elim (Bool-cases (c == 32)) [
    | inl blank ↦
        rw blank (decoded-plain 95 rest refl ∙ ap (λ x. x ∷ decoded rest) (sym (==→eq c 32 blank)))
    | inr other ↦ elim (Bool-cases (is_special is_space is_print c)) [
      | inl special ↦ rw (other, special) (decoded-printed c rest small)
      | inr plain ↦
          let (one, two) = not_special c plain in
          rw (other, plain)
            (decoded-plain c rest two ∙ ap (λ b. (if b then 32 else c) ∷ decoded rest) one)
    ]
  ]
    where
      not_special :
          (c : ℕ)
          → is_special is_space is_print c ≡ false
          → ((c == 95) ≡ false) × ((c == 61) ≡ false)
      not_special c h = (ground (arith, h), ground (arith, h))

  decoded-codes :
      (text : List ℕ) → All (λ c. c < 128) text → decoded (codes is_space is_print text) ≡ text
  decoded-codes [] h = refl
  decoded-codes (c ∷ text) h =
      decoded-code c (codes is_space is_print text) h.0 ∙ ap (λ t. c ∷ t) (decoded-codes text h.1)

  c_string_char : (c : ℕ) (rest : List ℕ) → 0 < c → c_string (c ∷ rest) ≡ c ∷ c_string rest
  c_string_char c rest h = (let e : (c == 0) ≡ false = ground (arith, h) in rw e refl)

  c_string_all :
      (cs rest : List ℕ) → All (λ c. 0 < c) cs → c_string (cs ++ rest) ≡ cs ++ c_string rest
  c_string_all [] rest h = refl
  c_string_all (c ∷ cs) rest h =
      c_string_char c (cs ++ rest) h.0 ∙ ap (λ t. c ∷ t) (c_string_all cs rest h.1)

  code-nonzero : (c : ℕ) → 0 < c → All (λ d. 0 < d) (code is_space is_print c)
  code-nonzero c h = elim (Bool-cases (c == 32)) [
    | inl blank ↦ rw blank (omega arith, tt)
    | inr other ↦ elim (Bool-cases (is_special is_space is_print c)) [
      | inl special ↦ rw (other, special) (omega arith, (high, (low, tt)))
      | inr plain ↦ rw (other, plain) (h, tt)
    ]
  ]
    where
      high : 0 < (if ltb c 128 then hex_upper (c / 16) else 70)
      high = ground arith

      low : 0 < (if ltb c 128 then hex_upper (c % 16) else 70)
      low = ground arith

  codes-nonzero :
      (text : List ℕ) → All (λ c. 0 < c) text → All (λ d. 0 < d) (codes is_space is_print text)
  codes-nonzero [] h = tt
  codes-nonzero (c ∷ text) h =
      All-append (λ d. 0 < d) (code is_space is_print c) (codes is_space is_print text)
        (code-nonzero c h.0) (codes-nonzero text h.1)

  c_string-ended :
      (text rest : List ℕ)
      → All (λ c. 0 < c) text
      → c_string (ended is_space is_print [] text rest) ≡ codes is_space is_print text
  c_string-ended text rest h =
      c_string_all (codes is_space is_print text) _ (codes-nonzero text h)
      ∙ append-nil (codes is_space is_print text)

All-front {ℓ κ} : {A : Type ℓ} (P : A → Type κ) (xs ys : List A) → All P (xs ++ ys) → All P xs
All-front P [] ys h = tt
All-front P (x ∷ xs) ys h = (h.0, All-front P xs ys h.1)

take-nonzero : (n : ℕ) (string : List ℕ) → All (λ c. 0 < c) (take n (c_string string))
take-nonzero zero string = tt
take-nonzero (suc n) [] = tt
take-nonzero (suc n) (c ∷ string) = elim (Bool-cases (c == 0)) [
  | inl nul ↦ rw nul tt
  | inr more ↦
      (let positive : 0 < c = ground (arith, more) in rw more (positive, take-nonzero n string))
]

take-All :
    (P : ℕ → Type 0) (n : ℕ) (string : List ℕ) → All P string → All P (take n (c_string string))
take-All P zero string h = tt
take-All P (suc n) [] h = tt
take-All P (suc n) (c ∷ string) h = elim (Bool-cases (c == 0)) [
  | inl nul ↦ rw nul tt
  | inr more ↦ rw more (h.0, take-All P n string h.1)
]

-- With a size of at least two, that the buffer has, `sxe_strn_encode` of seven-bit characters gives the
-- buffer where the code of the text and two more characters fit in the size, and the code then reads
-- back as the whole text; otherwise it gives NULL, with a code in the buffer that reads back as a
-- beginning of the text. The code has a NUL after it within the size, and no cell past that is
-- changed.
pub sxe_strn_encode-decoded :
    (is_space is_print : ℕ → Bool) (buffer : List ℕ) (size : ℕ) (string : List ℕ) (n : ℕ)
    → 2 ≤ size
    → size ≤ length buffer
    → size + 2 < 2 ^ 32
    → All (λ c. c < 128) string
    → let text = take n (c_string string) in
      let all = codes is_space is_print text in
      let (ok, cells) = sxe_strn_encode is_space is_print buffer size string n in
      let code_of = c_string cells in
      (cells ≡ code_of ++ 0 ∷ drop (suc (length code_of)) buffer)
      × (length code_of < size)
      × (((ok ≡ true) × (length all + 2 ≤ size) × (decoded code_of ≡ text))
          ⊎ ((ok ≡ false)
              × (size < length all + 2)
              × ((rest : List ℕ) × (text ≡ decoded code_of ++ rest))))
unfolding sxe_strn_encode
sxe_strn_encode-decoded is_space is_print buffer size string n two within small seven =
    elim (encode_loop-Ends is_space is_print size small string n [] buffer (omega (arith, two))
      (omega (arith, within))) [
        | inl (more, room, cells) ↦
            let all = codes is_space is_print text in
            let e =
              ap c_string cells
              ∙ c_string-ended is_space is_print text buffer (take-nonzero n string) in
            (
              cells ∙ ap (λ t. t ++ 0 ∷ drop (suc (length t)) buffer) (sym e),
              omega (arith, room, ap length e),
              inl (
                ap not more,
                omega (arith, room),
                ap decoded e ∙ decoded-codes is_space is_print text plain,
              ),
            )
        | inr (more, full, done, later, parts, room, cells) ↦
            let nonzero =
              All-front (λ c. 0 < c) done later
                (subst (All (λ c. 0 < c)) parts (take-nonzero n string)) in
            let plain_done =
              All-front (λ c. c < 128) done later (subst (All (λ c. c < 128)) parts plain) in
            let e = ap c_string cells ∙ c_string-ended is_space is_print done buffer nonzero in
            (
              cells ∙ ap (λ t. t ++ 0 ∷ drop (suc (length t)) buffer) (sym e),
              omega (arith, room, ap length e),
              inr (
                ap not more,
                omega (arith, full),
                (
                  later,
                  parts
                      ∙ ap (λ t. t ++ later)
                          (sym (ap decoded e ∙ decoded-codes is_space is_print done plain_done)),
                ),
              ),
            )
      ]
  where
    text : List ℕ
    text = take n (c_string string)

    plain : All (λ c. c < 128) text
    plain = take-All (λ c. c < 128) n string seven
