-- ===== src/Common/Words.antt =====
-- Fixed widths, shifts and masks, as arithmetic on native numbers.
use Prim.Native.Nat.{
  ℕ, zero, suc, ◌+◌, ◌-◌, ◌*◌, ◌/◌, ◌%◌, ◌^◌, ◌≤◌, ◌<◌, min, max, digits, bitwise, bit_and, bit_or,
  bit_and-bitwise, bit_or-bitwise,
}
use mathlib.Core.Path.{◌≡◌, refl, ap, ◌∙◌}
use native.Mathlib.Decide.{dec_lt}
use native.Mathlib.Nat.{
  mod-add-div', mul_assoc, mod-lt, mul-add-mod_self_right, mod-eq_of_lt, le_refl, pow-suc,
  one-le-pow,
}
use native.Mathlib.Omega.{arith}

abbrev pub u8 : ℕ → ℕ
u8 n = n % 2 ^ 8

abbrev pub u32 : ℕ → ℕ
u32 n = n % 2 ^ 32

infixl 75 ◌<<<◌ ◌>>>◌
abbrev pub ◌<<<◌ : ℕ → ℕ → ℕ
x <<< k = x * 2 ^ k

abbrev pub ◌>>>◌ : ℕ → ℕ → ℕ
x >>> k = x / 2 ^ k

-- The native bit operations go through the digits of their first argument with a counter. A counter
-- that reaches that argument is as good as any larger one, so it drops out of the equations.
module _ (last : ℕ → ℕ) (op : ℕ → ℕ → ℕ) where
  spare_digit :
      (count x y : ℕ) → x ≤ count → digits last op (suc count) x y ≡ digits last op count x y
  spare_digit zero zero y h = refl
  spare_digit (suc count) zero y h = refl
  spare_digit zero (suc x) y h = absurd (omega arith)
  spare_digit (suc count) (suc x) y h =
      ap (λ (t : ℕ). t * 2 + op (suc x % 2) (y % 2))
        (spare_digit count (suc x / 2) (y / 2) (omega arith))

  enough_digits : (count x y : ℕ) → x ≤ count → digits last op count x y ≡ bitwise last op x y
  enough_digits zero zero y h = refl
  enough_digits zero (suc x) y h = absurd (omega arith)
  enough_digits (suc count) x y h = elim (dec_lt count x) [
    | yes more ↦ (let e : x ≡ suc count = omega arith in rw e refl)
    | no small ↦ spare_digit count x y (omega arith) ∙ enough_digits count x y (omega arith)
  ]

  lowest_digit :
      (x y : ℕ)
      → ((t : ℕ) → last t ≡ last (t / 2) * 2 + op 0 (t % 2))
      → bitwise last op x y ≡ bitwise last op (x / 2) (y / 2) * 2 + op (x % 2) (y % 2)
  lowest_digit zero y law = law y
  lowest_digit (suc x) y law =
      ap (λ (t : ℕ). t * 2 + op (suc x % 2) (y % 2))
        (enough_digits x (suc x / 2) (y / 2) (omega arith))

pub bit_or_step : (x y : ℕ) → bit_or x y ≡ bit_or (x / 2) (y / 2) * 2 + max (x % 2) (y % 2)
bit_or_step x y = simp bit_or-bitwise (lowest_digit (λ t. t) max x y (λ t. omega arith))

pub bit_and_step : (x y : ℕ) → bit_and x y ≡ bit_and (x / 2) (y / 2) * 2 + min (x % 2) (y % 2)
bit_and_step x y = simp bit_and-bitwise (lowest_digit (λ t. 0) min x y (λ t. omega arith))

bit_ops-zero : (bound x : ℕ) → x ≤ bound → (bit_or x 0 ≡ x) × (bit_and x 0 ≡ 0)
bit_ops-zero bound zero h = (refl, refl)
bit_ops-zero zero (suc x) h = absurd (omega arith)
bit_ops-zero (suc bound) (suc x) h =
    let (or_half, and_half) = bit_ops-zero bound (suc x / 2) (omega arith) in
    (omega (arith, bit_or_step (suc x) 0, or_half), omega (arith, bit_and_step (suc x) 0, and_half))

-- A field of `k` bits beside the higher bits `high`: `(high << k) | low` is a sum.
pub bit_or_fields : (k high low : ℕ) → low < 2 ^ k → bit_or (high * 2 ^ k) low ≡ high * 2 ^ k + low
bit_or_fields zero high low h = ground (arith, bit_ops-zero high high (le_refl high))
bit_or_fields (suc k) high low h =
    let wider : high * 2 ^ suc k ≡ high * 2 ^ k * 2 =
      omega (arith, ap (λ (t : ℕ). high * t) (pow-suc 2 k)) in
    let halves = bit_or_fields k high (low / 2) (omega (arith, pow-suc 2 k)) in
    ground (arith, wider, halves, bit_or_step (high * 2 ^ suc k) low)

mod_double : (x n : ℕ) → 0 < n → x % (n * 2) ≡ x / 2 % n * 2 + x % 2
mod_double x n pos =
    let high = x / 2 / n in
    let low = x / 2 % n * 2 + x % 2 in
    let whole : x ≡ high * (n * 2) + low =
      omega (arith, mod-add-div' (x / 2) n, mul_assoc high n 2) in
    let small : low < n * 2 = omega (arith, mod-lt (x / 2) pos) in
    ap (λ t. t % (n * 2)) whole ∙ mul-add-mod_self_right high (n * 2) low ∙ mod-eq_of_lt small

-- A mask of `k` ones is the remainder by `2 ^ k`: digit by digit, one more than the half's.
pub bit_and_mask : (k x : ℕ) → bit_and x (2 ^ k - 1) ≡ x % 2 ^ k
bit_and_mask zero x = ground (arith, bit_ops-zero x x (le_refl x))
bit_and_mask (suc k) x =
    let pos : 0 < 2 ^ k = one-le-pow k 2 (omega arith) in
    let wider : 2 ^ suc k ≡ 2 ^ k * 2 = pow-suc 2 k in
    let half : (2 ^ suc k - 1) / 2 ≡ 2 ^ k - 1 = omega (arith, wider, pos) in
    let odd : (2 ^ suc k - 1) % 2 ≡ 1 = omega (arith, wider, pos) in
    let goal_half : bit_and (x / 2) ((2 ^ suc k - 1) / 2) ≡ x / 2 % 2 ^ k =
      rw half (bit_and_mask k (x / 2)) in
    let split : x % 2 ^ suc k ≡ x / 2 % 2 ^ k * 2 + x % 2 = rw wider (mod_double x (2 ^ k) pos) in
    ground (arith, bit_and_step x (2 ^ suc k - 1), goal_half, split, odd)
