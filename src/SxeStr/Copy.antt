-- ===== src/SxeStr/Copy.antt =====
-- `strlcpy` and `strlcat` of lib-sxe-log/sxe-strlcpy.c.
use libkit.Common.{
  ℕ, zero, suc, ◌+◌, ◌-◌, ◌≤◌, ◌<◌, ◌==◌, ltb, Bool, true, false, if◌then◌else◌, List, [], ◌∷◌,
  ◌++◌, take, drop, length, length-append, length-take_within, append_assoc, append-nil, set,
  set-append, c_string, ◌≡◌, refl, sym, ◌∙◌, ap, arith, Bool-cases, inl, inr, ◌⊎◌, ==→eq,
}
use mathlib.Core.Path.{subst}

-- Where the loop ends: whether at the NUL, `i`, the destination, and what is at `&source[i]`.
pub record Copied : Type 0 where
  pub at_nul : Bool
  pub i : ℕ
  pub destination : List ℕ
  pub source : List ℕ

-- `for (i = 0; i < size - length; i++)`, with `n` rounds to go; `length` is 0 in `strlcpy`.
unfoldable pub copy_loop : ℕ → List ℕ → ℕ → ℕ → List ℕ → Copied
copy_loop length source zero i destination = record {
  at_nul = false;
  i = i;
  destination = destination;
  source = source;
}
copy_loop length [] (suc n) i destination = record {
  at_nul = true;
  i = i;
  destination = set destination (i + length) 0;
  source = [];
}
copy_loop length (c ∷ source) (suc n) i destination =
    let destination' = set destination (i + length) c in
    let rest = copy_loop length source n (i + 1) destination' in
    if c == 0
    then record { at_nul = true; i = i; destination = destination'; source = c ∷ source }
    else rest

-- `while (source[i]) i++;`
unfoldable pub count_on : List ℕ → ℕ → ℕ
count_on [] i = i
count_on (c ∷ source) i = let rest = count_on source (i + 1) in if c == 0 then i else rest

unfoldable pub strlcpy : List ℕ → List ℕ → ℕ → ℕ × List ℕ
strlcpy destination source size =
    let end = copy_loop 0 source size 0 destination in
    if end.at_nul then (end.i, end.destination) else (
      count_on end.source end.i,
      if size == 0 then end.destination else set end.destination (size - 1) 0,
    )

-- `for (length = 0; length < size && destination[length] != '\0'; length++)`, with `n` rounds to go
unfoldable pub skip_existing : List ℕ → ℕ → ℕ → ℕ
skip_existing destination zero length = length
skip_existing [] (suc n) length = length
skip_existing (d ∷ destination) (suc n) length =
    let rest = skip_existing destination n (length + 1) in if d == 0 then length else rest

unfoldable pub strlcat : List ℕ → List ℕ → ℕ → ℕ × List ℕ
strlcat destination source size =
    let length = skip_existing destination size 0 in
    let end = copy_loop length source (size - length) 0 destination in
    if end.at_nul then (length + end.i, end.destination) else (
      length + count_on end.source end.i,
      if ltb length size then set end.destination (size - 1) 0 else end.destination,
    )

pub count_on-c_string : (source : List ℕ) (i : ℕ) → count_on source i ≡ i + length (c_string source)
unfolding count_on
count_on-c_string [] i = omega arith
count_on-c_string (c ∷ source) i = elim (Bool-cases (c == 0)) [
  | inl nul ↦ rw nul (omega arith)
  | inr more ↦ rw more (count_on-c_string source (i + 1) ∙ omega arith)
]

pub skip_existing-c_string :
    (destination : List ℕ) (n i : ℕ)
    → skip_existing destination n i ≡ i + length (take n (c_string destination))
unfolding skip_existing
skip_existing-c_string destination zero i = omega arith
skip_existing-c_string [] (suc n) i = omega arith
skip_existing-c_string (d ∷ destination) (suc n) i = elim (Bool-cases (d == 0)) [
  | inl nul ↦ rw nul (omega arith)
  | inr more ↦ rw more (skip_existing-c_string destination n (i + 1) ∙ omega arith)
]

module _ (off : ℕ) where
  -- What the loop leaves in a destination whose cells before are `front`.
  abbrev Leaves : ℕ → ℕ → List ℕ → List ℕ → List ℕ → Copied → Type 0
  Leaves n i text front rest end =
      ((end.at_nul ≡ true)
        × (length text < n)
        × (end.i ≡ i + length text)
        × (end.destination ≡ (front ++ text) ++ 0 ∷ drop (suc (length text)) rest))
      ⊎ ((end.at_nul ≡ false)
          × (n ≤ length text)
          × (count_on end.source end.i ≡ i + length text)
          × (end.destination ≡ (front ++ take n text) ++ drop n rest))

  Leaves-step :
      (n i c x : ℕ) (text front rest : List ℕ) (end : Copied)
      → Leaves n (i + 1) text (front ++ c ∷ []) rest end
      → Leaves (suc n) i (c ∷ text) front (x ∷ rest) end
  Leaves-step n i c x text front rest end (inl (nul, less, e, cells)) = inl (
    nul,
    omega (arith, less),
    e ∙ omega arith,
    cells ∙ ap (λ t. t ++ 0 ∷ drop (suc (length text)) rest) (append_assoc front (c ∷ []) text),
  )
  Leaves-step n i c x text front rest end (inr (nul, more, e, cells)) = inr (
    nul,
    omega (arith, more),
    e ∙ omega arith,
    cells ∙ ap (λ t. t ++ drop n rest) (append_assoc front (c ∷ []) (take n text)),
  )

  pub copy_loop-Leaves :
      (source : List ℕ) (n i : ℕ) (front rest : List ℕ)
      → length front ≡ i + off
      → n ≤ length rest
      → Leaves n i (c_string source) front rest (copy_loop off source n i (front ++ rest))
  unfolding copy_loop
  copy_loop-Leaves source zero i front rest e room =
      inr (
        refl,
        omega arith,
        count_on-c_string source i,
        ap (λ t. t ++ rest) (sym (append-nil front)),
      )
  copy_loop-Leaves source (suc n) i front [] e room = absurd (omega (arith, room))
  copy_loop-Leaves [] (suc n) i front (x ∷ rest) e room = inl (
    refl,
    omega arith,
    omega arith,
    ap (λ j. set (front ++ x ∷ rest) j 0) (sym e)
        ∙ set-append front x rest 0
        ∙ ap (λ t. t ++ 0 ∷ rest) (sym (append-nil front)),
  )
  copy_loop-Leaves (c ∷ source) (suc n) i front (x ∷ rest) e room =
      let written : set (front ++ x ∷ rest) (i + off) c ≡ front ++ c ∷ rest =
        ap (λ j. set (front ++ x ∷ rest) j c) (sym e) ∙ set-append front x rest c in
      elim (Bool-cases (c == 0)) [
        | inl nul ↦ rw nul (
            inl (
              refl,
              omega arith,
              omega arith,
              written
                  ∙ ap (λ d. front ++ d ∷ rest) (==→eq c 0 nul)
                  ∙ ap (λ t. t ++ 0 ∷ rest) (sym (append-nil front)),
            ))
        | inr more ↦
            let next : length (front ++ c ∷ []) ≡ i + 1 + off =
              omega (arith, e, length-append front (c ∷ [])) in
            let later =
              copy_loop-Leaves source n (i + 1) (front ++ c ∷ []) rest next (omega (arith, room)) in
            let step = Leaves-step n i c x (c_string source) front rest _ later in
            let same = written ∙ sym (append_assoc front (c ∷ []) rest) in
            rw more (
              subst
                (λ b.
                  Leaves (suc n) i (c ∷ c_string source) front (x ∷ rest)
                    (copy_loop off source n (i + 1) b))
                (sym same) step)
      ]

take-next :
    (m : ℕ) (text : List ℕ)
    → m < length text
    → (x : ℕ) × (take (suc m) text ≡ take m text ++ x ∷ [])
take-next m [] h = absurd (omega (arith, h))
take-next zero (x ∷ text) h = (x, refl)
take-next (suc m) (y ∷ text) h =
    let (x, e) = take-next m text (omega (arith, h)) in (x, ap (λ t. y ∷ t) e)

take_whole : (m : ℕ) (text : List ℕ) → length text ≤ m → take m text ≡ text
take_whole zero [] h = refl
take_whole zero (x ∷ text) h = absurd (omega (arith, h))
take_whole (suc m) [] h = refl
take_whole (suc m) (x ∷ text) h = ap (λ t. x ∷ t) (take_whole m text (omega (arith, h)))

-- As much of a text as there is room for before a NUL, and the NUL, in place of the cells there.
abbrev pub cut_off : List ℕ → ℕ → List ℕ → List ℕ
cut_off text m rest = take m text ++ 0 ∷ drop (suc (length (take m text))) rest

-- The last cell is set to the NUL where the text does not end before it.
pub Leaves-cut_off :
    (off m i : ℕ) (text front rest : List ℕ) (end : Copied)
    → Leaves off (suc m) i text front rest end
    → suc m ≤ length rest
    → (if end.at_nul then end.destination else set end.destination (length front + m) 0)
      ≡ front ++ cut_off text m rest
Leaves-cut_off off m i text front rest end (inl (nul, less, e, cells)) room = rw nul (
    cells
    ∙ append_assoc front text (0 ∷ drop (suc (length text)) rest)
    ∙ ap (λ t. front ++ (t ++ 0 ∷ drop (suc (length t)) rest))
        (sym (take_whole m text (omega (arith, less)))))
Leaves-cut_off off m i text front rest end (inr (nul, more, e, cells)) room =
    let (x, next) = take-next m text (omega (arith, more)) in
    let kept = front ++ take m text in
    let long = length-take_within m text (omega (arith, more)) in
    let at : length front + m ≡ length kept =
      omega (arith, length-append front (take m text), long) in
    let regroup = append_assoc kept (x ∷ []) (drop (suc m) rest) in
    rw nul (
      ap (λ t. set t (length front + m) 0)
        (cells
          ∙ ap (λ t. (front ++ t) ++ drop (suc m) rest) next
          ∙ ap (λ t. t ++ drop (suc m) rest) (sym (append_assoc front (take m text) (x ∷ [])))
          ∙ regroup)
      ∙ ap (λ j. set (kept ++ x ∷ drop (suc m) rest) j 0) at
      ∙ set-append kept x (drop (suc m) rest) 0
      ∙ append_assoc front (take m text) (0 ∷ drop (suc m) rest)
      ∙ ap (λ n. front ++ (take m text ++ 0 ∷ drop (suc n) rest)) (sym long))

pub Leaves-counted :
    (off n i : ℕ) (text front rest : List ℕ) (end : Copied)
    → Leaves off n i text front rest end
    → (if end.at_nul then end.i else count_on end.source end.i) ≡ i + length text
Leaves-counted off n i text front rest end (inl (nul, less, e, cells)) = rw nul e
Leaves-counted off n i text front rest end (inr (nul, more, e, cells)) = rw nul e
