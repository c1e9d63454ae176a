-- ===== src/SxeStr/Tests.antt =====
-- Runs of the string helpers, and their theorems at strings that meet their hypotheses.
use libkit.Common.{
  ℕ, suc, ◌+◌, ◌≤◌, ◌<◌, ◌==◌, leb, ◌&&◌, ◌||◌, Bool, true, false, if◌then◌else◌, none, some, List,
  [], ◌∷◌, ◌++◌, take, drop, length, c_string, ◌≡◌, refl, ◌⊎◌, arith,
}
use libkit.SxeStr.Encode.{has_more, store_char, encode_loop, sxe_strn_encode, codes}
use libkit.SxeStr.Encoded.{decoded, sxe_strn_encode-decoded}
use libkit.SxeStr.Copy.{copy_loop, count_on, strlcpy, skip_existing, strlcat}
use libkit.SxeStr.Copied.{strlcpy-cut_off, strlcat-cut_off}
use libkit.SxeStr.Search.{
  head_is, head_in, in_reject, starts_by, equal_chars, scan, scan_back, sxe_strnchr, sxe_rstrnchr,
  sxe_strncspn, sxe_rstrnstr, strnstr, sxe_strncasestr, First, Last, sxe_strnchr-First,
  strnstr-First,
}

program : Unit {0}
unfolding has_more store_char encode_loop sxe_strn_encode copy_loop count_on strlcpy skip_existing
    strlcat in_reject scan scan_back sxe_strnchr sxe_rstrnchr sxe_strncspn sxe_rstrnstr strnstr
    sxe_strncasestr
program = tt

abbrev is_space : ℕ → Bool
is_space c = (c == 32) || (leb 9 c && leb c 13)

abbrev is_print : ℕ → Bool
is_print c = leb 32 c && leb c 126

abbrev to_lower : ℕ → ℕ
to_lower c = if leb 65 c && leb c 90 then c + 32 else c

-- "\t\x7f_=", a NUL and another character
abbrev specials : List ℕ
specials = 9 ∷ 127 ∷ b'_' ∷ b'=' ∷ 0 ∷ b'x' ∷ []

abbrev eight_cells : List ℕ
eight_cells = 1 ∷ 2 ∷ 3 ∷ 4 ∷ 5 ∷ 6 ∷ 7 ∷ 8 ∷ []

-- "=09=7F"
cut_short :
    sxe_strn_encode is_space is_print eight_cells 8 specials 32
    ≡ (false, b'=' ∷ b'0' ∷ b'9' ∷ b'=' ∷ b'7' ∷ b'F' ∷ 0 ∷ 8 ∷ [])
unfolding program
cut_short = refl

-- "a_b" of "a b"
encoded_blank :
    sxe_strn_encode is_space is_print eight_cells 5 (b'a' ∷ b' ' ∷ b'b' ∷ 0 ∷ []) 9
    ≡ (true, b'a' ∷ b'_' ∷ b'b' ∷ 0 ∷ 5 ∷ 6 ∷ 7 ∷ 8 ∷ [])
unfolding program
encoded_blank = refl

-- A text that only just fits with its NUL is there whole, and the result is NULL.
just_fits :
    sxe_strn_encode is_space is_print eight_cells 4 (b'a' ∷ b' ' ∷ b'b' ∷ 0 ∷ []) 9
    ≡ (false, b'a' ∷ b'_' ∷ b'b' ∷ 0 ∷ 5 ∷ 6 ∷ 7 ∷ 8 ∷ [])
unfolding program
just_fits = refl

sxe_strn_encode-decoded_example :
    let text = take 32 (c_string specials) in
    let all = codes is_space is_print text in
    let (ok, cells) = sxe_strn_encode is_space is_print eight_cells 8 specials 32 in
    let code_of = c_string cells in
    (cells ≡ code_of ++ 0 ∷ drop (suc (length code_of)) eight_cells)
    × (length code_of < 8)
    × (((ok ≡ true) × (length all + 2 ≤ 8) × (decoded code_of ≡ text))
        ⊎ ((ok ≡ false)
            × (8 < length all + 2)
            × ((rest : List ℕ) × (text ≡ decoded code_of ++ rest))))
sxe_strn_encode-decoded_example =
    sxe_strn_encode-decoded is_space is_print eight_cells 8 specials 32 (omega arith) (omega arith)
      (omega arith)
      (omega arith, (omega arith, (omega arith, (omega arith, (omega arith, (omega arith, tt))))))

-- "ab" and "cdef" in four of the cells
abbrev ab_cells : List ℕ
ab_cells = b'a' ∷ b'b' ∷ 0 ∷ 4 ∷ 5 ∷ []

abbrev cdef : List ℕ
cdef = b'c' ∷ b'd' ∷ b'e' ∷ b'f' ∷ 0 ∷ []

copied_whole : strlcpy ab_cells cdef 5 ≡ (4, cdef)
unfolding program
copied_whole = refl

copied_part : strlcpy ab_cells cdef 3 ≡ (4, b'c' ∷ b'd' ∷ 0 ∷ 4 ∷ 5 ∷ [])
unfolding program
copied_part = refl

copied_none : strlcpy ab_cells cdef 0 ≡ (4, ab_cells)
copied_none = strlcpy-cut_off ab_cells cdef 0 (omega arith)

strlcat-cut_off_example : strlcat ab_cells cdef 4 ≡ (6, b'a' ∷ b'b' ∷ b'c' ∷ 0 ∷ 5 ∷ [])
strlcat-cut_off_example = strlcat-cut_off ab_cells cdef 4 (omega arith)

-- "aXbxb"
abbrev haystack : List ℕ
haystack = b'a' ∷ b'X' ∷ b'b' ∷ b'x' ∷ b'b' ∷ 0 ∷ []

abbrev xb : List ℕ
xb = b'x' ∷ b'b' ∷ 0 ∷ []

found_text :
    (strnstr haystack xb 5 ≡ some 3)
    × (strnstr haystack xb 4 ≡ none)
    × (sxe_strncasestr to_lower haystack xb 5 ≡ some 1)
    × (sxe_rstrnstr haystack xb 5 ≡ some 3)
unfolding program
found_text = (refl, refl, refl, refl)

found_char : (sxe_strnchr haystack b'b' 5 ≡ some 2) × (sxe_rstrnchr haystack b'b' 4 ≡ some 2)
unfolding program
found_char = (refl, refl)

sxe_strnchr-First_example :
    First (λ k. head_is b'b' (drop k haystack)) 5 (sxe_strnchr haystack b'b' 5)
    × First (λ k. head_in xb (drop k haystack)) 5 (sxe_strncspn haystack xb 5)
    × Last (λ k. head_is b'b' (drop k haystack)) 5 (sxe_rstrnchr haystack b'b' 5)
sxe_strnchr-First_example = sxe_strnchr-First haystack xb b'b' 5 (omega arith) (omega arith)

strnstr-First_example :
    First
      (λ k. starts_by equal_chars (b'x' ∷ b'b' ∷ []) (drop k haystack))
      4
      (strnstr haystack xb 5)
    × First
        (λ k. starts_by (λ b c. to_lower b == to_lower c) (b'x' ∷ b'b' ∷ []) (drop k haystack))
        4
        (sxe_strncasestr to_lower haystack xb 5)
    × Last
        (λ k. starts_by equal_chars (b'x' ∷ b'b' ∷ []) (drop k haystack))
        4
        (sxe_rstrnstr haystack xb 5)
strnstr-First_example = strnstr-First to_lower haystack xb 5
