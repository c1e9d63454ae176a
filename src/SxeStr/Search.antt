-- ===== src/SxeStr/Search.antt =====
-- The searches of lib-sxe-util/sxe-str.c, and `strnstr` of lib-sxe-log/sxe-strlcpy.c.
use libkit.Common.{
  ℕ, zero, suc, ◌+◌, ◌-◌, ◌≤◌, ◌<◌, ◌^◌, ◌==◌, ltb, Bool, true, false, if◌then◌else◌, Option, none,
  some, List, [], ◌∷◌, take, drop, length, c_string, u32, ◌≡◌, sym, ◌∙◌, ap, arith, Bool-cases, inl,
  inr, ==→eq,
}
use mathlib.Core.Path.{subst}

-- The offset of a result from the pointer before.
abbrev pub one_on : Option ℕ → Option ℕ
one_on none = none
one_on (some k) = some (suc k)

abbrev pub head_is : ℕ → List ℕ → Bool
head_is c [] = false
head_is c (b ∷ buf) = b == c

-- `for (j = 0; reject[j] != '\0'; j++)`
unfoldable pub in_reject : ℕ → List ℕ → Bool
in_reject b [] = false
in_reject b (r ∷ reject) =
    let rest = in_reject b reject in if r == 0 then false else if b == r then true else rest

abbrev pub head_in : List ℕ → List ℕ → Bool
head_in reject [] = false
head_in reject (b ∷ buf) = in_reject b reject

-- The comparison of as many characters as the text has, by `memcmp` or `strncmp`, or by `strncasecmp`
-- where characters are the same whose lower cases are.
abbrev pub starts_by : (ℕ → ℕ → Bool) → List ℕ → List ℕ → Bool
starts_by same [] buf = true
starts_by same (c ∷ text) [] = false
starts_by same (c ∷ text) (b ∷ buf) = if same b c then starts_by same text buf else false

abbrev pub equal_chars : ℕ → ℕ → Bool
equal_chars b c = b == c

-- The loops that go forward, and end at the NUL, where the test holds, or after a number of rounds.
unfoldable pub scan : (List ℕ → Bool) → List ℕ → ℕ → Option ℕ
scan test buf zero = none
scan test [] (suc rounds) = none
scan test (b ∷ buf) (suc rounds) =
    let rest = one_on (scan test buf rounds) in
    if b == 0 then none else if test (b ∷ buf) then some 0 else rest

-- The loops that go back to the start, from a number of rounds before it.
unfoldable pub scan_back : (List ℕ → Bool) → List ℕ → ℕ → Option ℕ
scan_back test buf zero = none
scan_back test buf (suc rounds) =
    let rest = scan_back test buf rounds in if test (drop rounds buf) then some rounds else rest

-- The characters up to `&buf[n - 1]`, where `n` is unsigned.
abbrev pub up_to_end : ℕ → ℕ
up_to_end n = suc (u32 (n + 4294967295))

unfoldable pub sxe_strnchr : List ℕ → ℕ → ℕ → Option ℕ
sxe_strnchr buf c n = scan (head_is c) buf (up_to_end n)

unfoldable pub sxe_rstrnchr : List ℕ → ℕ → ℕ → Option ℕ
sxe_rstrnchr buf c n = scan_back (head_is c) buf (up_to_end n)

unfoldable pub sxe_strncspn : List ℕ → List ℕ → ℕ → Option ℕ
sxe_strncspn buf reject n = scan (head_in reject) buf n

unfoldable pub sxe_rstrnstr : List ℕ → List ℕ → ℕ → Option ℕ
sxe_rstrnstr haystack needle haystack_len =
    let text = c_string needle in
    let rounds = if ltb haystack_len (length text) then 0 else haystack_len - length text + 1 in
    scan_back (starts_by equal_chars text) haystack rounds

unfoldable pub strnstr : List ℕ → List ℕ → ℕ → Option ℕ
strnstr buf str n =
    let text = c_string str in
    if ltb n (length text)
    then none
    else scan (starts_by equal_chars text) buf (n - length text + 1)

unfoldable pub sxe_strncasestr : (ℕ → ℕ) → List ℕ → List ℕ → ℕ → Option ℕ
sxe_strncasestr to_lower buf str n =
    let text = c_string str in
    if ltb n (length text)
    then none
    else scan (starts_by (λ b c. to_lower b == to_lower c) text) buf (n - length text + 1)

-- The first, or the last, number below a bound at which a test holds, or none.
abbrev pub First : (ℕ → Bool) → ℕ → Option ℕ → Type 0
First test bound none = (j : ℕ) → j < bound → test j ≡ false
First test bound (some k) = (k < bound) × (test k ≡ true) × ((j : ℕ) → j < k → test j ≡ false)

abbrev pub Last : (ℕ → Bool) → ℕ → Option ℕ → Type 0
Last test bound none = (j : ℕ) → j < bound → test j ≡ false
Last test bound (some k) =
    (k < bound) × (test k ≡ true) × ((j : ℕ) → k < j → j < bound → test j ≡ false)

First-one_on :
    (test : ℕ → Bool) (bound : ℕ) (r : Option ℕ)
    → test 0 ≡ false
    → First (λ j. test (suc j)) bound r
    → First test (suc bound) (one_on r)
First-one_on test bound none miss first = below
  where
    below : (j : ℕ) → j < suc bound → test j ≡ false
    below zero h = miss
    below (suc j) h = first j (omega (arith, h))
First-one_on test bound (some k) miss (h, hit, before) = (omega (arith, h), hit, earlier)
  where
    earlier : (j : ℕ) → j < suc k → test j ≡ false
    earlier zero g = miss
    earlier (suc j) g = before j (omega (arith, g))

module _ (test : List ℕ → Bool) where
  scan-First :
      (buf : List ℕ) (rounds : ℕ)
      → First (λ k. test (drop k buf)) (length (take rounds (c_string buf))) (scan test buf rounds)
  unfolding scan
  scan-First buf zero = λ j h. absurd (omega (arith, h))
  scan-First [] (suc rounds) = λ j h. absurd (omega (arith, h))
  scan-First (b ∷ buf) (suc rounds) = elim (Bool-cases (b == 0)) [
    | inl nul ↦ rw nul (λ j h. absurd (omega (arith, h)))
    | inr more ↦ elim (Bool-cases (test (b ∷ buf))) [
      | inl hit ↦ rw (more, hit) (omega arith, hit, λ j h. absurd (omega (arith, h)))
      | inr miss ↦
          rw (more, miss)
            (First-one_on (λ k. test (drop k (b ∷ buf))) (length (take rounds (c_string buf)))
              (scan test buf rounds) miss (scan-First buf rounds))
    ]
  ]

  scan_back-Last :
      (buf : List ℕ) (rounds : ℕ) → Last (λ k. test (drop k buf)) rounds (scan_back test buf rounds)
  unfolding scan_back
  scan_back-Last buf zero = λ j h. absurd (omega (arith, h))
  scan_back-Last buf (suc rounds) = elim (Bool-cases (test (drop rounds buf))) [
    | inl hit ↦ rw hit (omega arith, hit, λ j g h. absurd (omega (arith, g, h)))
    | inr miss ↦ rw miss (longer (scan_back test buf rounds) miss (scan_back-Last buf rounds))
  ]
    where
      upto :
          (j : ℕ)
          → j < suc rounds
          → test (drop rounds buf) ≡ false
          → (j < rounds → test (drop j buf) ≡ false)
          → test (drop j buf) ≡ false
      upto j h miss before = elim (Bool-cases (j == rounds)) [
        | inl here ↦ ap (λ i. test (drop i buf)) (==→eq j rounds here) ∙ miss
        | inr other ↦ (let less : j < rounds = ground (arith, h, other) in before less)
      ]

      longer :
          (r : Option ℕ)
          → test (drop rounds buf) ≡ false
          → Last (λ k. test (drop k buf)) rounds r
          → Last (λ k. test (drop k buf)) (suc rounds) r
      longer none miss last = λ j h. upto j h miss (last j)
      longer (some k) miss (h, hit, after) =
          (omega (arith, h), hit, λ j g below. upto j below miss (after j g))

up_to_end_self : (n : ℕ) → 1 ≤ n → n < 2 ^ 32 → up_to_end n ≡ n
up_to_end_self n one small = omega arith

-- For a number of characters that is not 0: `sxe_strnchr` and `sxe_strncspn` give the first place of the
-- character, or of one of those to reject, before the NUL and within the number, or NULL if there is none;
-- `sxe_rstrnchr` gives the last place of the character within the number, whether a NUL comes before
-- it or not.
pub sxe_strnchr-First :
    (buf reject : List ℕ) (c n : ℕ)
    → 1 ≤ n
    → n < 2 ^ 32
    → let bound = length (take n (c_string buf)) in
      First (λ k. head_is c (drop k buf)) bound (sxe_strnchr buf c n)
      × First (λ k. head_in reject (drop k buf)) bound (sxe_strncspn buf reject n)
      × Last (λ k. head_is c (drop k buf)) n (sxe_rstrnchr buf c n)
unfolding sxe_strnchr sxe_strncspn sxe_rstrnchr
sxe_strnchr-First buf reject c n one small =
    let e = up_to_end_self n one small in
    (
      subst
          (λ r.
            First (λ k. head_is c (drop k buf)) (length (take n (c_string buf)))
              (scan (head_is c) buf r))
          (sym e) (scan-First (head_is c) buf n),
      scan-First (head_in reject) buf n,
      subst (λ r. Last (λ k. head_is c (drop k buf)) n (scan_back (head_is c) buf r)) (sym e)
          (scan_back-Last (head_is c) buf n),
    )

abbrev places : List ℕ → ℕ → ℕ
places text n = n + 1 - length text

module _ (to_lower : ℕ → ℕ) where
  abbrev same_lower : ℕ → ℕ → Bool
  same_lower b c = to_lower b == to_lower c

  scan-places :
      (same : ℕ → ℕ → Bool) (buf text : List ℕ) (n : ℕ)
      → First
          (λ k. starts_by same text (drop k buf))
          (length (take (places text n) (c_string buf)))
          (if ltb n (length text)
            then none
            else scan (starts_by same text) buf (n - length text + 1))
  scan-places same buf text n = elim (Bool-cases (ltb n (length text))) [
    | inl short ↦
        let zero_places : places text n ≡ 0 = ground (arith, short) in
        rw (short, zero_places) (λ j h. absurd (omega (arith, h)))
    | inr long ↦
        let rounds : places text n ≡ n - length text + 1 = ground (arith, long) in
        rw (long, rounds) (scan-First (starts_by same text) buf (n - length text + 1))
  ]

  -- `strnstr`, and `sxe_strncasestr` apart from upper and lower case, give the first place before the NUL
  -- where the text is and does not go past the number of characters, or NULL if there is none;
  -- `sxe_rstrnstr` gives the last place where the text is within the length, whether a NUL comes before it
  -- or not.
  pub strnstr-First :
      (buf str : List ℕ) (n : ℕ)
      → let text = c_string str in
        let bound = length (take (n + 1 - length text) (c_string buf)) in
        First (λ k. starts_by equal_chars text (drop k buf)) bound (strnstr buf str n)
        × First
            (λ k. starts_by same_lower text (drop k buf))
            bound
            (sxe_strncasestr to_lower buf str n)
        × Last
            (λ k. starts_by equal_chars text (drop k buf))
            (n + 1 - length text)
            (sxe_rstrnstr buf str n)
  unfolding strnstr sxe_strncasestr sxe_rstrnstr
  strnstr-First buf str n = (
    scan-places equal_chars buf (c_string str) n,
    scan-places same_lower buf (c_string str) n,
    elim (Bool-cases (ltb n (length (c_string str)))) [
      | inl short ↦
          let zero_places : places (c_string str) n ≡ 0 = ground (arith, short) in
          rw (short, zero_places) (scan_back-Last (starts_by equal_chars (c_string str)) buf 0)
      | inr long ↦
          let rounds : places (c_string str) n ≡ n - length (c_string str) + 1 =
            ground (arith, long) in
          rw (long, rounds)
            (scan_back-Last (starts_by equal_chars (c_string str)) buf
              (n - length (c_string str) + 1))
    ],
  )
