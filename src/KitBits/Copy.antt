-- ===== src/KitBits/Copy.antt =====
-- The bits that `kit_bits_copy` of lib-kit/kit-bits.c leaves.
use libkit.Common.{
  ℕ, zero, suc, ◌+◌, ◌-◌, ◌/◌, ◌%◌, ◌^◌, ◌<◌, ◌≤◌, ◌==◌, ◌≢◌, Bool, true, false, if◌then◌else◌, ltb,
  List, [], ◌∷◌, ◌++◌, length, length-set, take, drop, get_or, set, All, ◌≡◌, refl, ap, ◌∙◌,
  Bool-cases, inl, inr, ==→eq, all_below, all_below_sound, arith,
}
use libkit.KitBits.Defs.{test_bit, kit_bits_isset, keep_high, kit_bits_copy}
use libkit.KitBits.Laws.{same, same→eq, get_or-set_self, get_or-set_ne, get_or-small}

kept_test : ℕ → ℕ → ℕ → Bool
kept_test x bits b =
    same (test_bit (keep_high x bits) b) (if ltb b bits then test_bit x b else false)

kept_pass : all_below 256 (λ x. all_below 8 (λ bits. all_below 8 (kept_test x bits))) ≡ true
unfolding kept_test same keep_high test_bit all_below
kept_pass = refl

-- The high bits of a byte are kept, the others are cleared.
keep_high-test_bit :
    (x bits b : ℕ)
    → x < 256
    → bits < 8
    → b < 8
    → test_bit (keep_high x bits) b ≡ (if ltb b bits then test_bit x b else false)
unfolding kept_test
keep_high-test_bit x bits b small p q =
    let rows =
      all_below_sound 256 (λ x. all_below 8 (λ bits. all_below 8 (kept_test x bits))) x kept_pass
        small in
    let row = all_below_sound 8 (λ bits. all_below 8 (kept_test x bits)) bits rows p in
    same→eq _ _ (all_below_sound 8 (kept_test x bits) b row q)

get_or-copied :
    (s d : List ℕ) (n k : ℕ)
    → n ≤ length s
    → n ≤ length d
    → get_or (take n s ++ drop n d) k 0 ≡ (if ltb k n then get_or s k 0 else get_or d k 0)
get_or-copied s d zero k p q = (let e : ltb k 0 ≡ false = ground arith in rw e refl)
get_or-copied [] d (suc n) k p q = absurd (omega arith)
get_or-copied (x ∷ s) [] (suc n) k p q = absurd (omega arith)
get_or-copied (x ∷ s) (y ∷ d) (suc n) zero p q =
    let e : ltb 0 (suc n) ≡ true = ground arith in rw e refl
get_or-copied (x ∷ s) (y ∷ d) (suc n) (suc k) p q =
    let e : ltb (suc k) (suc n) ≡ ltb k n = ground arith in
    rw e (get_or-copied s d n k (omega arith) (omega arith))

length-copied :
    (s d : List ℕ) (n : ℕ) → n ≤ length s → n ≤ length d → length (take n s ++ drop n d) ≡ length d
length-copied s d zero p q = refl
length-copied [] d (suc n) p q = absurd (omega arith)
length-copied (x ∷ s) [] (suc n) p q = absurd (omega arith)
length-copied (x ∷ s) (y ∷ d) (suc n) p q = ap suc (length-copied s d n (omega arith) (omega arith))

module _ (d s : List ℕ) (num_bits : ℕ) (small : All (λ x. x < 2 ^ 8) s)
    (no_wrap : num_bits + 7 < 2 ^ 64) (source : (num_bits + 7) / 8 ≤ length s)
    (room : (num_bits + 7) / 8 ≤ length d) where
  abbrev num_bytes : ℕ
  num_bytes = (num_bits + 7) / 8

  abbrev copied : List ℕ
  copied = take num_bytes s ++ drop num_bytes d

  -- What bit `j` is to be.
  abbrev pub WantedBit : ℕ → Bool → Type 0
  WantedBit j bit = bit ≡ (
      if ltb j num_bits
      then kit_bits_isset s j
      else if ltb (j / 8) num_bytes
      then false
      else kit_bits_isset d j)

  bytes_asked : (num_bits + 7) % 2 ^ 64 / 8 ≡ num_bytes
  bytes_asked = omega (arith, no_wrap)

  byte_of : (k : ℕ) → get_or copied k 0 ≡ (if ltb k num_bytes then get_or s k 0 else get_or d k 0)
  byte_of k = get_or-copied s d num_bytes k source room

  whole : num_bits % 8 ≡ 0 → (j : ℕ) → WantedBit j (kit_bits_isset copied j)
  unfolding kit_bits_isset
  whole none j = elim (Bool-cases (ltb j num_bits)) [
    | inl low ↦
        let inside : ltb (j / 8) num_bytes ≡ true = ground (arith, low, none) in
        rw (byte_of (j / 8), low, inside) refl
    | inr high ↦
        let outside : ltb (j / 8) num_bytes ≡ false = ground (arith, high, none) in
        rw (byte_of (j / 8), high, outside) refl
  ]

  partial :
      (v : ℕ)
      → 0 < num_bits % 8
      → v ≡ keep_high (get_or copied (num_bytes - 1) 0) (num_bits % 8)
      → (j : ℕ) → WantedBit j (kit_bits_isset (set copied (num_bytes - 1) v) j)
  unfolding kit_bits_isset
  partial v some_left e j = elim (Bool-cases (j / 8 == num_bytes - 1)) [
    | inl here ↦
        let place : j / 8 ≡ num_bytes - 1 = ==→eq _ _ here in
        let inside : ltb (num_bytes - 1) num_bytes ≡ true = ground (arith, some_left) in
        let fits : num_bytes - 1 < length copied =
          omega (arith, some_left, room, length-copied s d num_bytes source room) in
        let from_source : get_or copied (num_bytes - 1) 0 ≡ get_or s (num_bytes - 1) 0 =
          byte_of (num_bytes - 1) ∙ rw inside refl in
        let same_test : ltb (j % 8) (num_bits % 8) ≡ ltb j num_bits =
          ground (arith, place, some_left) in
        let bit =
          keep_high-test_bit (get_or s (num_bytes - 1) 0) (num_bits % 8) (j % 8)
            (get_or-small s (num_bytes - 1) small) (omega arith) (omega arith) in
        rw
          (
            place,
            get_or-set_self copied (num_bytes - 1) v fits,
            inside,
            e,
            from_source,
            bit,
            same_test,
          )
          refl
    | inr elsewhere ↦
        let ne : num_bytes - 1 ≢ j / 8 = λ f. absurd (ground (arith, elsewhere, f)) in
        rw (get_or-set_ne copied (num_bytes - 1) (j / 8) v ne, byte_of (j / 8))
          (elim (Bool-cases (ltb (j / 8) num_bytes)) [
            | inl inside ↦
                let low : ltb j num_bits ≡ true = ground (arith, inside, elsewhere) in
                rw (inside, low) refl
            | inr outside ↦
                let high : ltb j num_bits ≡ false = ground (arith, outside) in
                rw (outside, high) refl
          ])
  ]

  -- Copying bits between areas that have the room: the first `num_bits` bits are those of the source,
  -- the other bits of the last byte written are zero, all further bits and the length are as before;
  -- and the result is the number of bytes, rounded up.
  pub kit_bits_copy-kit_bits_isset :
      (j : ℕ)
      → let (bytes, d') = kit_bits_copy d s num_bits in
        (bytes ≡ (num_bits + 7) / 8) × WantedBit j (kit_bits_isset d' j) × (length d' ≡ length d)
  unfolding kit_bits_copy
  kit_bits_copy-kit_bits_isset j = elim (Bool-cases (ltb 0 (num_bits % 8))) [
    | inl some_left ↦
        let v = keep_high (get_or copied (num_bytes - 1) 0) (num_bits % 8) in
        rw (bytes_asked, some_left)
          (
            refl,
            partial v (ground (arith, some_left)) refl j,
            length-set copied (num_bytes - 1) v ∙ length-copied s d num_bytes source room,
          )
    | inr none_left ↦
        rw (bytes_asked, none_left)
          (refl, whole (ground (arith, none_left)) j, length-copied s d num_bytes source room)
  ]
