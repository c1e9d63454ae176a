-- ===== src/SxeStr/Encode.antt =====
-- lib-sxe-log/sxe-str-encode.c: text without blanks and unprintable characters.
use libkit.Common.{
  ℕ, zero, suc, ◌+◌, ◌/◌, ◌%◌, ◌≤◌, ◌<◌, ◌^◌, ◌==◌, ltb, leb, not, ◌&&◌, ◌||◌, Bool, true, false,
  if◌then◌else◌, List, [], ◌∷◌, ◌++◌, take, drop, length, length-append, append_assoc, append-nil,
  set, set-append, c_string, ◌≡◌, refl, sym, ◌∙◌, ap, arith, Bool-cases, inl, inr, ◌⊎◌, ==→eq, u32,
}
use mathlib.Core.Path.{subst}

abbrev pub hex_upper : ℕ → ℕ
hex_upper digit = if ltb digit 10 then digit + 48 else digit + 55

-- The characters that `snprintf` of a size of 4 writes for "=%02X", before its NUL: a `char` is signed,
-- and a negative one is an int of eight digits, of which the first two are F and the others are cut off.
abbrev pub printed : ℕ → List ℕ
printed c =
    61
    ∷ (if ltb c 128 then hex_upper (c / 16) else 70)
    ∷ (if ltb c 128 then hex_upper (c % 16) else 70)
    ∷ []

-- Writing characters from an index on.
abbrev pub write : List ℕ → ℕ → List ℕ → List ℕ
write buffer i [] = buffer
write buffer i (c ∷ cs) = write (set buffer i c) (i + 1) cs

-- Where the loop ends: `i`, the buffer, and what is at `&string[j]` with what is left of `length`.
pub record Place : Type 0 where
  pub i : ℕ
  pub buffer : List ℕ
  pub string : List ℕ
  pub left : ℕ

-- `(j < length) && (string[j] != '\0')`
unfoldable pub has_more : List ℕ → ℕ → Bool
has_more [] left = false
has_more (c ∷ string) left = ltb 0 left && not (c == 0)

module _ (is_space is_print : ℕ → Bool) where
  abbrev pub is_special : ℕ → Bool
  is_special c = (c == 95) || ((c == 61) || (is_space c || not (is_print c)))

  -- What a round leaves in the buffer, if it does not end the loop.
  unfoldable pub store_char : ℕ → ℕ → List ℕ → List ℕ
  store_char c i buffer =
      if c == 32
      then set buffer i 95
      else if is_special c
      then write buffer i (printed c ++ 0 ∷ [])
      else set buffer i c

  -- `for (...; (j < length) && (string[j] != '\0'); j++)`
  unfoldable pub encode_loop : ℕ → List ℕ → ℕ → ℕ → List ℕ → Place
  encode_loop size string zero i buffer = record {
    i = i;
    buffer = buffer;
    string = string;
    left = 0;
  }
  encode_loop size [] (suc left) i buffer = record {
    i = i;
    buffer = buffer;
    string = [];
    left = suc left;
  }
  encode_loop size (c ∷ string) (suc left) i buffer =
      let three = not (c == 32) && is_special c in
      let i' = u32 (i + (if three then 3 else 1)) in
      let buffer' = store_char c i buffer in
      let rest = encode_loop size string left i' buffer' in
      if (c == 0) || (three && leb size (u32 (i + 3)))
      then record { i = i; buffer = buffer; string = c ∷ string; left = suc left }
      else if i' == u32 (size + 4294967295)
      then record { i = i'; buffer = buffer'; string = c ∷ string; left = suc left }
      else rest

  -- The result says whether it is the buffer, and not NULL.
  unfoldable pub sxe_strn_encode : List ℕ → ℕ → List ℕ → ℕ → Bool × List ℕ
  sxe_strn_encode buffer size string length =
      let place = encode_loop size string length 0 buffer in
      (not (has_more place.string place.left), set place.buffer place.i 0)

  -- What a character becomes.
  abbrev pub code : ℕ → List ℕ
  code c = if c == 32 then 95 ∷ [] else if is_special c then printed c else c ∷ []

  abbrev pub codes : List ℕ → List ℕ
  codes [] = []
  codes (c ∷ text) = code c ++ codes text

  write-append :
      (front rest cs : List ℕ)
      → length cs ≤ length rest
      → write (front ++ rest) (length front) cs ≡ front ++ (cs ++ drop (length cs) rest)
  write-append front rest [] room = refl
  write-append front [] (c ∷ cs) room = absurd (omega (arith, room))
  write-append front (x ∷ rest) (c ∷ cs) room =
      let next : length front + 1 ≡ length (front ++ c ∷ []) =
        omega (arith, length-append front (c ∷ [])) in
      ap (λ b. write b (length front + 1) cs)
        (set-append front x rest c ∙ sym (append_assoc front (c ∷ []) rest))
      ∙ ap (λ i. write ((front ++ c ∷ []) ++ rest) i cs) next
      ∙ write-append (front ++ c ∷ []) rest cs (omega (arith, room))
      ∙ append_assoc front (c ∷ []) (cs ++ drop (length cs) rest)

  -- What is left of a buffer after a character's code.
  record Stored (c : ℕ) (front rest : List ℕ) : Type 0 where
    after : List ℕ
    cells : store_char c (length front) (front ++ rest) ≡ (front ++ code c) ++ after
    number : length (code c) + length after ≡ length rest
    past : (k : ℕ) → drop (suc k) after ≡ drop (suc (length (code c) + k)) rest

  store_char-Stored :
      (c : ℕ) (front rest : List ℕ) → length (code c) < length rest → Stored c front rest
  unfolding store_char
  store_char-Stored c front rest room = elim (Bool-cases (c == 32)) [
    | inl blank ↦ one 95 rest (rw blank refl) (rw blank refl) room
    | inr other ↦ elim (Bool-cases (is_special c)) [
      | inl special ↦ four rest (rw (other, special) refl) (rw (other, special) refl) room
      | inr plain ↦ one c rest (rw (other, plain) refl) (rw (other, plain) refl) room
    ]
  ]
    where
      one :
          (d : ℕ) (rest : List ℕ)
          → code c ≡ d ∷ []
          → store_char c (length front) (front ++ rest) ≡ set (front ++ rest) (length front) d
          → length (code c) < length rest
          → Stored c front rest
      one d [] e f room = absurd (omega (arith, room))
      one d (x ∷ rest) e f room = record {
        after = rest;
        cells =
            f
            ∙ set-append front x rest d
            ∙ sym (append_assoc front (d ∷ []) rest)
            ∙ ap (λ t. (front ++ t) ++ rest) (sym e);
        number = ap (λ t. length t + length rest) e ∙ omega arith;
        past = λ k.
            (let g : suc k ≡ length (code c) + k = omega (arith, ap length e) in
              ap (λ n. drop n rest) g);
      }

      four :
          (rest : List ℕ)
          → code c ≡ printed c
          → store_char c (length front) (front ++ rest)
            ≡ write (front ++ rest) (length front) (printed c ++ 0 ∷ [])
          → length (code c) < length rest
          → Stored c front rest
      four [] e f room = absurd (omega (arith, room, ap length e))
      four (x ∷ []) e f room = absurd (omega (arith, room, ap length e))
      four (x ∷ y ∷ []) e f room = absurd (omega (arith, room, ap length e))
      four (x ∷ y ∷ z ∷ []) e f room = absurd (omega (arith, room, ap length e))
      four (x ∷ y ∷ z ∷ w ∷ rest) e f room = record {
        after = 0 ∷ rest;
        cells =
            f
            ∙ write-append front (x ∷ y ∷ z ∷ w ∷ rest) (printed c ++ 0 ∷ []) (omega arith)
            ∙ sym (append_assoc front (printed c) (0 ∷ rest))
            ∙ ap (λ t. (front ++ t) ++ 0 ∷ rest) (sym e);
        number = ap (λ t. length t + suc (length rest)) e ∙ omega arith;
        past = λ k.
            (let g : suc (suc (suc k)) ≡ length (code c) + k = omega (arith, ap length e) in
              ap (λ n. drop n (y ∷ z ∷ w ∷ rest)) g);
      }

  -- The buffer with a code in it and the NUL.
  abbrev pub ended : List ℕ → List ℕ → List ℕ → List ℕ
  ended front text rest = (front ++ codes text) ++ 0 ∷ drop (suc (length (codes text))) rest

  abbrev pub Ends : ℕ → List ℕ → List ℕ → List ℕ → Place → Type 0
  Ends size front rest text place =
      ((has_more place.string place.left ≡ false)
        × (length front + length (codes text) + 1 < size)
        × (set place.buffer place.i 0 ≡ ended front text rest))
      ⊎ ((has_more place.string place.left ≡ true)
          × (size ≤ length front + length (codes text) + 1)
          × (done : List ℕ) × (rest_of_text : List ℕ) × (text ≡ done ++ rest_of_text)
          × (length front + length (codes done) < size)
          × (set place.buffer place.i 0 ≡ ended front done rest))

  set_end :
      (front rest : List ℕ)
      → 0 < length rest
      → set (front ++ rest) (length front) 0 ≡ front ++ 0 ∷ drop 1 rest
  set_end front [] room = absurd (omega (arith, room))
  set_end front (x ∷ rest) room = set-append front x rest 0

  ended-step :
      (c : ℕ) (front rest text : List ℕ) (stored : Stored c front rest)
      → ended (front ++ code c) text stored.after ≡ ended front (c ∷ text) rest
  ended-step c front rest text stored =
      rw
        (
          append_assoc front (code c) (codes text),
          stored.past (length (codes text)),
          length-append (code c) (codes text),
        )
        refl

  Ends-step :
      (size c : ℕ) (front rest text : List ℕ) (stored : Stored c front rest) (place : Place)
      → Ends size (front ++ code c) stored.after text place
      → Ends size front rest (c ∷ text) place
  Ends-step size c front rest text stored place (inl (more, room, cells)) = inl (
    more,
    omega (arith, room, length-append front (code c), length-append (code c) (codes text)),
    cells ∙ ended-step c front rest text stored,
  )
  Ends-step size c front rest text stored place (inr (more, full, done, later, e, room, cells)) =
      inr (
        more,
        omega (arith, full, length-append front (code c), length-append (code c) (codes text)),
        c ∷ done,
        later,
        ap (λ t. c ∷ t) e,
        omega (arith, room, length-append front (code c), length-append (code c) (codes done)),
        cells ∙ ended-step c front rest done stored,
      )

  -- How many characters a code has.
  abbrev three : ℕ → Bool
  three c = not (c == 32) && is_special c

  length-code : (c : ℕ) → length (code c) ≡ (if three c then 3 else 1)
  length-code c = elim (Bool-cases (c == 32)) [
    | inl blank ↦ rw blank refl
    | inr other ↦ elim (Bool-cases (is_special c)) [
      | inl special ↦ rw (other, special) refl
      | inr plain ↦ rw (other, plain) refl
    ]
  ]

  no_more : (string : List ℕ) → has_more string 0 ≡ false
  unfolding has_more
  no_more [] = refl
  no_more (c ∷ string) = refl

  set_ended :
      (front rest : List ℕ)
      → 0 < length rest
      → set (front ++ rest) (length front) 0 ≡ ended front [] rest
  set_ended front rest room =
      set_end front rest room ∙ ap (λ t. t ++ 0 ∷ drop 1 rest) (sym (append-nil front))

  has_more-char :
      (c : ℕ) (string : List ℕ) (left : ℕ) → has_more (c ∷ string) (suc left) ≡ not (c == 0)
  unfolding has_more
  has_more-char c string left =
      (let some_left : ltb 0 (suc left) ≡ true = ground arith in rw some_left refl)

  char_more :
      (c : ℕ) (string : List ℕ) (left : ℕ)
      → (c == 0) ≡ false
      → has_more (c ∷ string) (suc left) ≡ true
  char_more c string left more = has_more-char c string left ∙ ap not more

  text_more :
      (c : ℕ) (string : List ℕ) (left : ℕ)
      → (c == 0) ≡ false
      → c ∷ take left (c_string string) ≡ take (suc left) (c_string (c ∷ string))
  text_more c string left more =
      sym (ap (λ b. take (suc left) (if b then [] else c ∷ c_string string)) more)

  module _ (size : ℕ) (small : size + 2 < 2 ^ 32) where
    abbrev width : ℕ → ℕ
    width c = if three c then 3 else 1

    abbrev full : ℕ → ℕ → Bool
    full c i = three c && leb size (u32 (i + 3))

    -- The three ways of a round.
    round-stop :
        (c : ℕ) (string : List ℕ) (left i : ℕ) (buffer : List ℕ)
        → ((c == 0) || full c i) ≡ true
        → encode_loop size (c ∷ string) (suc left) i buffer
          ≡ record { i = i; buffer = buffer; string = c ∷ string; left = suc left }
    unfolding encode_loop
    round-stop c string left i buffer e = rw e refl

    round-last :
        (c : ℕ) (string : List ℕ) (left i : ℕ) (buffer : List ℕ)
        → ((c == 0) || full c i) ≡ false
        → (u32 (i + width c) == u32 (size + 4294967295)) ≡ true
        → encode_loop size (c ∷ string) (suc left) i buffer ≡ record {
          i = u32 (i + width c);
          buffer = store_char c i buffer;
          string = c ∷ string;
          left = suc left;
        }
    unfolding encode_loop
    round-last c string left i buffer e f = rw (e, f) refl

    round-next :
        (c : ℕ) (string : List ℕ) (left i : ℕ) (buffer : List ℕ)
        → ((c == 0) || full c i) ≡ false
        → (u32 (i + width c) == u32 (size + 4294967295)) ≡ false
        → encode_loop size (c ∷ string) (suc left) i buffer
          ≡ encode_loop size string left (u32 (i + width c)) (store_char c i buffer)
    unfolding encode_loop
    round-next c string left i buffer e f = rw (e, f) refl

    width_fits : (c i : ℕ) → i + 1 < size → full c i ≡ false → i + width c < size
    width_fits c i begin fits = elim (Bool-cases (three c)) [
      | inr one ↦ rw one begin
      | inl long ↦ rw long (fits_three (sym (ap (λ b. b && leb size (u32 (i + 3))) long) ∙ fits))
    ]
      where
        fits_three : leb size (u32 (i + 3)) ≡ false → i + 3 < size
        fits_three h =
            let no_wrap : u32 (i + 3) ≡ i + 3 = omega (arith, small, begin) in
            ground (arith, h, no_wrap)

    abbrev Loops : List ℕ → ℕ → List ℕ → List ℕ → Type 0
    Loops string left front rest =
        Ends size front rest (take left (c_string string))
          (encode_loop size string left (length front) (front ++ rest))

    -- No room is left for a long code.
    wide : (c i : ℕ) → i + 1 < size → full c i ≡ true → size ≤ i + length (code c)
    wide c i begin long = elim (Bool-cases (three c)) [
      | inl yes_three ↦
          let no_wrap : u32 (i + 3) ≡ i + 3 = omega (arith, small, begin) in
          let n : length (code c) ≡ 3 = length-code c ∙ ap (λ b. if b then 3 else 1) yes_three in
          let h : leb size (u32 (i + 3)) ≡ true =
            sym (ap (λ b. b && leb size (u32 (i + 3))) yes_three) ∙ long in
          ground (arith, h, no_wrap, n)
      | inr one ↦ absurd (cc (sym (ap (λ b. b && leb size (u32 (i + 3))) one) ∙ long))
    ]

    -- A round that stores a character.
    go_on :
        (c : ℕ) (string : List ℕ) (left : ℕ) (front rest : List ℕ)
        → length front + 1 < size
        → size ≤ length front + length rest
        → (c == 0) ≡ false
        → full c (length front) ≡ false
        → ((front' rest' : List ℕ)
            → length front' + 1 < size
            → size ≤ length front' + length rest'
            → Loops string left front' rest')
        → Ends size front rest
            (c ∷ take left (c_string string))
            (encode_loop size (c ∷ string) (suc left) (length front) (front ++ rest))
    go_on c string left front rest begin within more fits loops =
        let text = take left (c_string string) in
        let front' = front ++ code c in
        let n = length-code c in
        let below = width_fits c (length front) begin fits in
        let stored = store_char-Stored c front rest (omega (arith, n, below, within)) in
        let goes : ((c == 0) || full c (length front)) ≡ false = rw more fits in
        let i : u32 (length front + width c) ≡ length front' =
          omega (arith, n, below, small, length-append front (code c)) in
        let last : suc (u32 (size + 4294967295)) ≡ size = omega (arith, small, begin) in
        let room : 0 < length stored.after = omega (arith, stored.number, n, below, within) in
        elim (Bool-cases (u32 (length front + width c) == u32 (size + 4294967295))) [
          | inl ends ↦
              let at : length front' + 1 ≡ size = omega (arith, i, last, ==→eq _ _ ends) in
              subst (Ends size front rest (c ∷ text))
                (sym (round-last c string left (length front) (front ++ rest) goes ends))
                (inr (
                  char_more c string left more,
                  omega (
                    arith,
                    at,
                    length-append front (code c),
                    length-append (code c) (codes text),
                  ),
                  c ∷ [],
                  text,
                  refl,
                  omega (arith, at, length-append front (code c), length-append (code c) []),
                  ap (λ b. set b (u32 (length front + width c)) 0) stored.cells
                      ∙ ap (λ j. set (front' ++ stored.after) j 0) i
                      ∙ set_ended front' stored.after room
                      ∙ ended-step c front rest [] stored,
                ))
          | inr goes_on ↦
              let begin' : length front' + 1 < size =
                ground (arith, i, last, goes_on, below, n, length-append front (code c)) in
              let within' : size ≤ length front' + length stored.after =
                omega (arith, within, stored.number, length-append front (code c)) in
              subst (Ends size front rest (c ∷ text))
                (sym (
                  round-next c string left (length front) (front ++ rest) goes goes_on
                  ∙ ap (encode_loop size string left (u32 (length front + width c))) stored.cells
                  ∙ ap (λ j. encode_loop size string left j (front' ++ stored.after)) i))
                (Ends-step size c front rest text stored _
                  (loops front' stored.after begin' within'))
        ]

    pub encode_loop-Ends :
        (string : List ℕ) (left : ℕ) (front rest : List ℕ)
        → length front + 1 < size
        → size ≤ length front + length rest
        → Loops string left front rest
    unfolding encode_loop has_more
    encode_loop-Ends string zero front rest begin within =
        inl (
          no_more string,
          omega (arith, begin),
          set_ended front rest (omega (arith, begin, within)),
        )
    encode_loop-Ends [] (suc left) front rest begin within =
        inl (refl, omega (arith, begin), set_ended front rest (omega (arith, begin, within)))
    encode_loop-Ends (c ∷ string) (suc left) front rest begin within = elim (Bool-cases (c == 0)) [
      | inl nul ↦
          let stop : ((c == 0) || full c (length front)) ≡ true = rw nul refl in
          subst (Ends size front rest (take (suc left) (c_string (c ∷ string))))
            (sym (round-stop c string left (length front) (front ++ rest) stop))
            (subst (λ text. Ends size front rest text (here c string left front rest))
              (sym (ap (λ b. take (suc left) (if b then [] else c ∷ c_string string)) nul))
              (inl (
                has_more-char c string left ∙ ap not nul,
                omega (arith, begin),
                set_ended front rest (omega (arith, begin, within)),
              )))
      | inr more ↦
          subst
            (λ text.
              Ends size front rest text
                (encode_loop size (c ∷ string) (suc left) (length front) (front ++ rest)))
            (text_more c string left more)
            (elim (Bool-cases (full c (length front))) [
              | inr fits ↦
                  go_on c string left front rest begin within more fits
                    (encode_loop-Ends string left)
              | inl long ↦ stopped c string left front rest begin within more long
            ])
    ]
      where
        here : ℕ → List ℕ → ℕ → List ℕ → List ℕ → Place
        here c string left front rest = record {
          i = length front;
          buffer = front ++ rest;
          string = c ∷ string;
          left = suc left;
        }

        stopped :
            (c : ℕ) (string : List ℕ) (left : ℕ) (front rest : List ℕ)
            → length front + 1 < size
            → size ≤ length front + length rest
            → (c == 0) ≡ false
            → full c (length front) ≡ true
            → Ends size front rest
                (c ∷ take left (c_string string))
                (encode_loop size (c ∷ string) (suc left) (length front) (front ++ rest))
        stopped c string left front rest begin within more long =
            let text = take left (c_string string) in
            let stop : ((c == 0) || full c (length front)) ≡ true = rw more long in
            let tall : size ≤ length front + length (code c) = wide c (length front) begin long in
            subst (Ends size front rest (c ∷ text))
              (sym (round-stop c string left (length front) (front ++ rest) stop))
              (inr (
                char_more c string left more,
                omega (arith, tall, length-append (code c) (codes text)),
                [],
                c ∷ text,
                refl,
                omega (arith, begin),
                set_ended front rest (omega (arith, begin, within)),
              ))
