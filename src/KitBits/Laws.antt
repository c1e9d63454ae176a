-- ===== src/KitBits/Laws.antt =====
-- The bit masks of lib-kit/kit-bits.h as functions from places to bits.
use libkit.Common.{
  ℕ, zero, suc, ◌/◌, ◌%◌, ◌^◌, ◌<◌, ◌==◌, ◌≢◌, ◌&&◌, Bool, true, false, not, if◌then◌else◌, List,
  [], ◌∷◌, length, length-set, get_or, set, All, ◌≡◌, refl, ap, Bool-cases, inl, inr, ==→eq,
  all_below, all_below_sound, arith,
}
use libkit.KitBits.Defs.{set_bit, clear_bit, test_bit, kit_bits_set, kit_bits_clear, kit_bits_isset}

unfoldable pub same : Bool → Bool → Bool
same true b = b
same false b = not b

pub same→eq : (a b : Bool) → same a b ≡ true → a ≡ b
unfolding same
same→eq true true h = refl
same→eq true false h = absurd (cc h)
same→eq false true h = absurd (cc h)
same→eq false false h = refl

bit_test : ℕ → ℕ → ℕ → Bool
bit_test x a b =
    same (test_bit (set_bit x a) b) (if a == b then true else test_bit x b)
    && same (test_bit (clear_bit x a) b) (if a == b then false else test_bit x b)

bits_pass : all_below 256 (λ x. all_below 8 (λ a. all_below 8 (bit_test x a))) ≡ true
unfolding bit_test same set_bit clear_bit test_bit all_below
bits_pass = refl

both_true : (a b : Bool) → a && b ≡ true → (a ≡ true) × (b ≡ true)
both_true true b h = (refl, h)
both_true false b h = absurd (cc h)

-- A bit of a byte after another, or the same, is set or cleared.
bits_of_byte :
    (x a b : ℕ)
    → x < 256
    → a < 8
    → b < 8
    → (test_bit (set_bit x a) b ≡ (if a == b then true else test_bit x b))
      × (test_bit (clear_bit x a) b ≡ (if a == b then false else test_bit x b))
unfolding bit_test
bits_of_byte x a b small p q =
    let rows =
      all_below_sound 256 (λ x. all_below 8 (λ a. all_below 8 (bit_test x a))) x bits_pass small in
    let row = all_below_sound 8 (λ a. all_below 8 (bit_test x a)) a rows p in
    let both = both_true _ _ (all_below_sound 8 (bit_test x a) b row q) in
    (same→eq _ _ both.0, same→eq _ _ both.1)

pub get_or-set_self : (me : List ℕ) (n v : ℕ) → n < length me → get_or (set me n v) n 0 ≡ v
get_or-set_self [] n v h = absurd (omega arith)
get_or-set_self (x ∷ me) zero v h = refl
get_or-set_self (x ∷ me) (suc n) v h = get_or-set_self me n v (omega arith)

pub get_or-set_ne : (me : List ℕ) (n k v : ℕ) → n ≢ k → get_or (set me n v) k 0 ≡ get_or me k 0
get_or-set_ne [] n k v h = refl
get_or-set_ne (x ∷ me) zero zero v h = absurd (h refl)
get_or-set_ne (x ∷ me) zero (suc k) v h = refl
get_or-set_ne (x ∷ me) (suc n) zero v h = refl
get_or-set_ne (x ∷ me) (suc n) (suc k) v h = get_or-set_ne me n k v (λ e. h (ap suc e))

pub get_or-small : (me : List ℕ) (n : ℕ) → All (λ x. x < 2 ^ 8) me → get_or me n 0 < 256
get_or-small [] n small = omega arith
get_or-small (x ∷ me) zero small = small.0
get_or-small (x ∷ me) (suc n) small = get_or-small me n small.1

-- Setting or clearing bit `i` of a mask that has it changes the answer for `i` and for no other bit,
-- and leaves a mask of as many bytes.
pub kit_bits_isset-kit_bits_set :
    (me : List ℕ) (i j : ℕ)
    → All (λ x. x < 2 ^ 8) me
    → i / 8 < length me
    → (kit_bits_isset (kit_bits_set me i) j ≡ (if i == j then true else kit_bits_isset me j))
      × (kit_bits_isset (kit_bits_clear me i) j ≡ (if i == j then false else kit_bits_isset me j))
      × (length (kit_bits_set me i) ≡ length me)
      × (length (kit_bits_clear me i) ≡ length me)
unfolding kit_bits_isset kit_bits_set kit_bits_clear
kit_bits_isset-kit_bits_set me i j small room = elim (Bool-cases (i / 8 == j / 8)) [
  | inl here ↦
      let byte : i / 8 ≡ j / 8 = ==→eq _ _ here in
      let place : (i % 8 == j % 8) ≡ (i == j) = ground arith in
      let bits =
        bits_of_byte (get_or me (i / 8) 0) (i % 8) (j % 8) (get_or-small me (i / 8) small)
          (omega arith) (omega arith) in
      rw
        (
          ← byte,
          get_or-set_self me (i / 8) (set_bit (get_or me (i / 8) 0) (i % 8)) room,
          get_or-set_self me (i / 8) (clear_bit (get_or me (i / 8) 0) (i % 8)) room,
          ← place,
        )
        (bits.0, bits.1, length-set me (i / 8) _, length-set me (i / 8) _)
  | inr elsewhere ↦
      let other : i / 8 ≢ j / 8 = λ e. absurd (ground (arith, elsewhere, e)) in
      let apart : (i == j) ≡ false = ground (arith, elsewhere) in
      rw
        (
          get_or-set_ne me (i / 8) (j / 8) (set_bit (get_or me (i / 8) 0) (i % 8)) other,
          get_or-set_ne me (i / 8) (j / 8) (clear_bit (get_or me (i / 8) 0) (i % 8)) other,
          apart,
        )
        (refl, refl, length-set me (i / 8) _, length-set me (i / 8) _)
]
