-- ===== src/SxeRot13/Copy.antt =====
-- The copying `sxe_strn_rot13` of lib-sxe-util/sxe-rot13.c.
use libkit.Common.{
  c_string, ℕ, zero, suc, ◌+◌, ◌<◌, ◌≤◌, ◌==◌, ltb, if◌then◌else◌, List, [], ◌∷◌, ◌++◌, take, drop,
  length, map, All, set-append, append_assoc, length-append, ◌≡◌, refl, sym, ap, ◌∙◌, true,
  Bool-cases, inl, inr, arith,
}
use libkit.SxeRot13.Defs.{rot13_loop, sxe_strn_rot13}
use libkit.SxeRot13.Laws.{rotated, rot13_char-rotated}

-- A text in a buffer: after it a NUL where it is shorter than the length, and the buffer's rest.
abbrev pub placed : List ℕ → ℕ → List ℕ → List ℕ
placed text n buffer =
    text
    ++ (if ltb (length text) n
        then 0 ∷ drop (suc (length text)) buffer
        else drop (length text) buffer)

rot13_loop-placed :
    (string : List ℕ) (left : ℕ) (front rest : List ℕ)
    → All (λ c. c < 256) string
    → left ≤ length rest
    → rot13_loop string left (length front) (front ++ rest)
      ≡ front ++ placed (map rotated (take left (c_string string))) left rest
unfolding rot13_loop
rot13_loop-placed string zero front rest small room = refl
rot13_loop-placed string (suc left) front [] small room = absurd (omega arith)
rot13_loop-placed [] (suc left) front (a ∷ rest) small room =
    let test : ltb 0 (suc left) ≡ true = ground arith in rw test (set-append front a rest 0)
rot13_loop-placed (c ∷ string) (suc left) front (a ∷ rest) small room = elim (Bool-cases (c == 0)) [
  | inl nul ↦
      let test : ltb 0 (suc left) ≡ true = ground arith in
      rw (nul, test) (set-append front a rest 0)
  | inr more ↦
      let text = map rotated (take left (c_string string)) in
      let next : length front + 1 ≡ length (front ++ rotated c ∷ []) =
        omega (arith, length-append front (rotated c ∷ [])) in
      let test : ltb (suc (length text)) (suc left) ≡ ltb (length text) left = ground arith in
      rw (more, rot13_char-rotated c small.0, set-append front a rest (rotated c), next, test)
        (ap (rot13_loop string left (length (front ++ rotated c ∷ [])))
            (sym (append_assoc front (rotated c ∷ []) rest))
          ∙ rot13_loop-placed string left (front ++ rotated c ∷ []) rest small.1 (omega arith)
          ∙ append_assoc front (rotated c ∷ []) _)
]

-- Into a buffer of at least `length` characters, `sxe_strn_rot13` writes the characters before the NUL
-- and within the length with their letters turned, and a NUL after them exactly where the string
-- ends within the length; it keeps the rest of the buffer.
pub sxe_strn_rot13-placed :
    (buffer string : List ℕ) (n : ℕ)
    → All (λ c. c < 256) string
    → n ≤ length buffer
    → sxe_strn_rot13 buffer string n ≡ placed (map rotated (take n (c_string string))) n buffer
unfolding sxe_strn_rot13
sxe_strn_rot13-placed buffer string n small room = rot13_loop-placed string n [] buffer small room
