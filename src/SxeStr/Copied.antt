-- ===== src/SxeStr/Copied.antt =====
-- What `strlcpy` and `strlcat` of lib-sxe-log/sxe-strlcpy.c leave in the destination.
use libkit.Common.{
  ℕ, zero, suc, ◌+◌, ◌-◌, ◌≤◌, ◌==◌, ltb, Bool, true, false, if◌then◌else◌, List, [], ◌∷◌, ◌++◌,
  take, drop, length, length-append, set, c_string, ◌≡◌, refl, sym, ◌∙◌, ap, ap₂, arith, Bool-cases,
  inl, inr,
}
use libkit.SxeStr.Copy.{
  Copied, copy_loop, count_on, strlcpy, skip_existing, strlcat, count_on-c_string,
  skip_existing-c_string, copy_loop-Leaves, cut_off, Leaves-cut_off, Leaves-counted,
}

if-pair :
    (b : Bool) (x z : ℕ) (y w : List ℕ)
    → let pair : ℕ × List ℕ = (if b then x else z, if b then y else w) in
      (if b then (x, y) else (z, w)) ≡ pair
if-pair true x z y w = refl
if-pair false x z y w = refl

if-plus : (b : Bool) (n x z : ℕ) → (if b then n + x else n + z) ≡ n + (if b then x else z)
if-plus true n x z = refl
if-plus false n x z = refl

-- `strlcpy` to a destination that has `size` cells gives the length of the source. If the size is not 0,
-- as much of the source as fits before a NUL is there and then the NUL; the cells after it are
-- kept.
pub strlcpy-cut_off :
    (destination source : List ℕ) (size : ℕ)
    → size ≤ length destination
    → strlcpy destination source size ≡ (
      length (c_string source),
      if size == 0 then destination else cut_off (c_string source) (size - 1) destination,
    )
unfolding strlcpy copy_loop
strlcpy-cut_off destination source zero room =
    ap (λ n. (n, destination)) (count_on-c_string source 0 ∙ omega arith)
strlcpy-cut_off destination source (suc m) room =
    let text = c_string source in
    let end = copy_loop 0 source (suc m) 0 destination in
    let leaves = copy_loop-Leaves 0 source (suc m) 0 [] destination (omega arith) room in
    let some_size : (suc m == 0) ≡ false = ground arith in
    let index : suc m - 1 ≡ 0 + m = omega arith in
    let same : suc m - 1 ≡ m = omega arith in
    ap
      (λ b. if end.at_nul then (end.i, end.destination) else (
        count_on end.source end.i,
        if b then end.destination else set end.destination (suc m - 1) 0,
      ))
      some_size
    ∙ if-pair end.at_nul end.i (count_on end.source end.i) end.destination
        (set end.destination (suc m - 1) 0)
    ∙ ap₂ (λ x y. (x, y)) (Leaves-counted 0 (suc m) 0 text [] destination end leaves ∙ omega arith)
        (ap (λ j. if end.at_nul then end.destination else set end.destination j 0) index
          ∙ Leaves-cut_off 0 m 0 text [] destination end leaves room
          ∙ ap (λ j. cut_off text j destination) (sym same))
    ∙ ap (λ b. (length text, if b then destination else cut_off text (suc m - 1) destination))
        (sym some_size)

c_string-front :
    (n : ℕ) (cells : List ℕ)
    → take n (c_string cells) ++ drop (length (take n (c_string cells))) cells ≡ cells
c_string-front zero cells = refl
c_string-front (suc n) [] = refl
c_string-front (suc n) (c ∷ cells) = elim (Bool-cases (c == 0)) [
  | inl nul ↦ rw nul refl
  | inr more ↦ rw more (ap (λ t. c ∷ t) (c_string-front n cells))
]

length-take_most : (n : ℕ) (text : List ℕ) → length (take n text) ≤ n
length-take_most zero text = omega arith
length-take_most (suc n) [] = omega arith
length-take_most (suc n) (c ∷ text) = omega (arith, length-take_most n text)

module _ (destination source : List ℕ) (size : ℕ) (room : size ≤ length destination) where
  abbrev existing : List ℕ
  existing = take size (c_string destination)

  abbrev text : List ℕ
  text = c_string source

  abbrev n : ℕ
  n = length existing

  abbrev finish : ℕ → Copied → ℕ × List ℕ
  finish before end = if end.at_nul then (before + end.i, end.destination) else (
    before + count_on end.source end.i,
    if ltb before size then set end.destination (size - 1) 0 else end.destination,
  )

  abbrev expected : ℕ × List ℕ
  expected = (
    n + length text,
    if ltb n size
        then existing ++ cut_off text (size - n - 1) (drop n destination)
        else destination,
  )

  appended :
      (m : ℕ)
      → size ≡ n + suc m
      → ltb n size ≡ true
      → finish n (copy_loop n source (size - n) 0 destination) ≡ expected
  appended m e less =
      let rest = drop n destination in
      let whole = c_string-front size destination in
      let end = copy_loop n source (suc m) 0 (existing ++ rest) in
      let room' : suc m ≤ length rest =
        omega (arith, room, e, length-append existing rest, ap length whole) in
      let leaves = copy_loop-Leaves n source (suc m) 0 existing rest (omega arith) room' in
      let rounds : size - n ≡ suc m = omega (arith, e) in
      let index : size - 1 ≡ n + m = omega (arith, e) in
      let last : m ≡ size - n - 1 = omega (arith, e) in
      ap (λ k. finish n (copy_loop n source k 0 destination)) rounds
      ∙ ap (λ b. finish n (copy_loop n source (suc m) 0 b)) (sym whole)
      ∙ if-pair end.at_nul (n + end.i) (n + count_on end.source end.i) end.destination
          (if ltb n size then set end.destination (size - 1) 0 else end.destination)
      ∙ ap₂ (λ x y. (x, y))
          (if-plus end.at_nul n end.i (count_on end.source end.i)
            ∙ ap (λ i. n + i)
                (Leaves-counted n (suc m) 0 text existing rest end leaves ∙ omega arith))
          (ap
              (λ b.
                if end.at_nul
                then end.destination
                else if b
                then set end.destination (size - 1) 0
                else end.destination)
              less
            ∙ ap (λ j. if end.at_nul then end.destination else set end.destination j 0) index
            ∙ Leaves-cut_off n m 0 text existing rest end leaves room'
            ∙ ap (λ j. existing ++ cut_off text j rest) last
            ∙ ap (λ b. if b then existing ++ cut_off text (size - n - 1) rest else destination)
                (sym less))

  kept :
      size ≡ n
      → ltb n size ≡ false
      → finish n (copy_loop n source (size - n) 0 destination) ≡ expected
  unfolding copy_loop
  kept e full =
      let rounds : size - n ≡ 0 = omega (arith, e) in
      ap (λ k. finish n (copy_loop n source k 0 destination)) rounds
      ∙ ap₂ (λ x y. (x, y)) (ap (λ i. n + i) (count_on-c_string source 0 ∙ omega arith))
          (ap (λ b. if b then set destination (size - 1) 0 else destination) full
            ∙ ap
                (λ b.
                  if b
                  then existing ++ cut_off text (size - n - 1) (drop n destination)
                  else destination)
                (sym full))

  -- `strlcat` to a destination that has `size` cells: it gives the sum of the lengths of the string that
  -- is there, or of the size where that does not end before it, and of the source. Where the string
  -- ends before the size, as much of the source as fits before a NUL is after it and then the NUL, and
  -- the cells after it are kept; otherwise all cells are kept.
  pub strlcat-cut_off :
      let existing = take size (c_string destination) in
      let n = length existing in
      strlcat destination source size ≡ (
        n + length (c_string source),
        if ltb n size
            then existing ++ cut_off (c_string source) (size - n - 1) (drop n destination)
            else destination,
      )
  unfolding strlcat
  strlcat-cut_off =
      let start : skip_existing destination size 0 ≡ n =
        skip_existing-c_string destination size 0 ∙ omega arith in
      ap (λ k. finish k (copy_loop k source (size - k) 0 destination)) start
      ∙ elim (Bool-cases (ltb n size)) [
        | inl less ↦ appended (size - n - 1) (ground (arith, less)) less
        | inr full ↦ kept (ground (arith, full, length-take_most size (c_string destination))) full
      ]
