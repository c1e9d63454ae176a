-- ===== src/Common/Digits.antt =====
-- The binary digits of a number, highest first: how the codecs' bit buffers are read.
use libkit.Common.Lists.{length, length-append, append_inj, replicate, replicate_end, All}
use Prim.Native.Nat.{ℕ, zero, suc, ◌+◌, ◌*◌, ◌/◌, ◌%◌, ◌^◌, ◌≤◌, ◌<◌}
use mathlib.Core.Path.{◌≡◌, refl, sym, ap, ap₂, ◌∙◌}
use mathlib.Core.List.{List, [], ◌∷◌, ◌++◌, append_assoc, append-nil, head-eq_of_cons-eq}
use native.Mathlib.Nat.{
  pow-suc, pow-succ', div-div-eq-div-mul, mul-div_cancel, one-le-pow, mod-add-div',
}
use native.Mathlib.Omega.{arith}

-- The low `n` binary digits of `x`, highest first.
unfoldable pub bits_of : ℕ → ℕ → List ℕ
bits_of zero x = []
bits_of (suc n) x = bits_of n (x / 2) ++ x % 2 ∷ []

pub length-bits_of : (n x : ℕ) → length (bits_of n x) ≡ n
unfolding bits_of
length-bits_of zero x = refl
length-bits_of (suc n) x =
    omega (arith, length-append (bits_of n (x / 2)) (x % 2 ∷ []), length-bits_of n (x / 2))

mul-pow-suc : (q k : ℕ) → q * 2 ^ suc k ≡ 2 * (q * 2 ^ k)
mul-pow-suc q k = omega (arith, ap (λ (t : ℕ). q * t) (pow-suc 2 k))

div-pow-suc : (x n : ℕ) → x / 2 ^ suc n ≡ x / 2 / 2 ^ n
div-pow-suc x n = ap (λ (t : ℕ). x / t) (pow-succ' 2 n) ∙ sym (div-div-eq-div-mul x 2 (2 ^ n))

-- The digits of a number split at any place.
pub bits_of_split : (m n x : ℕ) → bits_of (m + n) x ≡ bits_of m (x / 2 ^ n) ++ bits_of n x
unfolding bits_of
bits_of_split m zero x =
    let e : m + 0 ≡ m = omega arith in let d : x / 2 ^ 0 ≡ x = omega arith in rw (e, d, append-nil)
bits_of_split m (suc n) x =
    let e : m + suc n ≡ suc (m + n) = omega arith in
    let d : x / 2 ^ suc n ≡ x / 2 / 2 ^ n = ground (arith, div-pow-suc x n) in
    rw (e, d)
      (ap (λ t. t ++ x % 2 ∷ []) (bits_of_split m n (x / 2))
        ∙ append_assoc (bits_of m (x / 2 / 2 ^ n)) (bits_of n (x / 2)) (x % 2 ∷ []))

-- Only the low `n` digits count: a multiple of a higher power of two changes none of them.
pub bits_of_mod : (n m k x y : ℕ) → n ≤ m → x ≡ y + k * 2 ^ m → bits_of n x ≡ bits_of n y
unfolding bits_of
bits_of_mod zero m k x y h e = refl
bits_of_mod (suc n) zero k x y h e = absurd (omega arith)
bits_of_mod (suc n) (suc m) k x y h e =
    ap₂ (λ s t. s ++ t ∷ [])
      (bits_of_mod n m k (x / 2) (y / 2) (omega arith) (omega (arith, mul-pow-suc k m)))
      (omega (arith, mul-pow-suc k m))

-- A remainder by a higher power of two keeps the low digits.
pub bits_of_low : (n m x : ℕ) → n ≤ m → bits_of n (x % 2 ^ m) ≡ bits_of n x
bits_of_low n m x h =
    sym (bits_of_mod n m (x / 2 ^ m) x (x % 2 ^ m) h (sym (mod-add-div' x (2 ^ m))))

pub bits_of-zero : (n : ℕ) → bits_of n 0 ≡ replicate n 0
unfolding bits_of
bits_of-zero zero = refl
bits_of-zero (suc n) = rw (bits_of-zero n) (replicate_end n 0)

-- A shift to the left puts zeros below the digits.
pub bits_of_shift : (n k x : ℕ) → bits_of (n + k) (x * 2 ^ k) ≡ bits_of n x ++ replicate k 0
bits_of_shift n k x = rw (
  bits_of_split n k (x * 2 ^ k),
  mul-div_cancel x {n = 2 ^ k} (one-le-pow k 2 (omega arith)),
  bits_of_mod k k x (x * 2 ^ k) 0 (omega arith) (omega arith),
  bits_of-zero k,
)

pub bits_of_inj : (n x y : ℕ) → x < 2 ^ n → y < 2 ^ n → bits_of n x ≡ bits_of n y → x ≡ y
unfolding bits_of
bits_of_inj zero x y p q e = omega arith
bits_of_inj (suc n) x y p q e =
    let r =
      append_inj (bits_of n (x / 2)) (bits_of n (y / 2))
        (length-bits_of n (x / 2) ∙ sym (length-bits_of n (y / 2))) e in
    let low = head-eq_of_cons-eq r.1 in
    let high =
      bits_of_inj n (x / 2) (y / 2) (omega (arith, pow-suc 2 n)) (omega (arith, pow-suc 2 n)) r.0 in
    omega arith

-- The digits of a row of `w`-bit numbers.
unfoldable pub flat : ℕ → List ℕ → List ℕ
flat w [] = []
flat w (v ∷ vs) = bits_of w v ++ flat w vs

pub flat-append : (w : ℕ) (vs us : List ℕ) → flat w (vs ++ us) ≡ flat w vs ++ flat w us
unfolding flat
flat-append w [] us = refl
flat-append w (v ∷ vs) us =
    rw (flat-append w vs us) (sym (append_assoc (bits_of w v) (flat w vs) (flat w us)))

pub flat_end : (w v : ℕ) (vs : List ℕ) → flat w (vs ++ v ∷ []) ≡ flat w vs ++ bits_of w v
unfolding flat
flat_end w v vs = flat-append w vs (v ∷ []) ∙ ap (λ t. flat w vs ++ t) (append-nil (bits_of w v))

pub length-flat : (w : ℕ) (vs : List ℕ) → length (flat w vs) ≡ w * length vs
unfolding flat
length-flat w [] = omega arith
length-flat w (v ∷ vs) =
    omega (arith, length-append (bits_of w v) (flat w vs), length-bits_of w v, length-flat w vs)

pub flat_inj :
    (w : ℕ) (vs us : List ℕ)
    → All (λ v. v < 2 ^ w) vs
    → All (λ v. v < 2 ^ w) us
    → length vs ≡ length us
    → flat w vs ≡ flat w us
    → vs ≡ us
unfolding flat
flat_inj w [] [] p q n e = refl
flat_inj w [] (u ∷ us) p q n e = absurd (omega arith)
flat_inj w (v ∷ vs) [] p q n e = absurd (omega arith)
flat_inj w (v ∷ vs) (u ∷ us) p q n e =
    let r =
      append_inj (bits_of w v) (bits_of w u) (length-bits_of w v ∙ sym (length-bits_of w u)) e in
    ap₂ (λ a l. a ∷ l) (bits_of_inj w v u p.0 q.0 r.0) (flat_inj w vs us p.1 q.1 (omega arith) r.1)
