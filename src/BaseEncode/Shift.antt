-- ===== src/BaseEncode/Shift.antt =====
-- The 32-bit buffer of `encode` and `decode` in lib-kit/kit-base-encode.c, as binary digits.
use libkit.Common.{
  ℕ, zero, suc, ◌+◌, ◌-◌, ◌*◌, ◌/◌, ◌%◌, ◌^◌, ◌≤◌, ◌<◌, ◌++◌, ◌≡◌, ap, ◌∙◌, u32, ◌<<<◌, bit_or,
  bit_or_fields, arith,
}
use libkit.Common.Digits.{bits_of, bits_of_split, bits_of_low, bits_of_mod}
use native.Mathlib.Nat.{mul-add-div_right, div-eq_of_lt, one-le-pow}

-- A shift by up to a byte keeps the low digits that fit the word.
u32-shift : (s x : ℕ) → s ≤ 8 → u32 (x * 2 ^ s) ≡ x % 2 ^ (32 - s) * 2 ^ s
u32-shift zero x h = omega arith
u32-shift (suc zero) x h = omega arith
u32-shift (suc (suc zero)) x h = omega arith
u32-shift (suc (suc (suc zero))) x h = omega arith
u32-shift (suc (suc (suc (suc zero)))) x h = omega arith
u32-shift (suc (suc (suc (suc (suc zero))))) x h = omega arith
u32-shift (suc (suc (suc (suc (suc (suc zero)))))) x h = omega arith
u32-shift (suc (suc (suc (suc (suc (suc (suc zero))))))) x h = omega arith
u32-shift (suc (suc (suc (suc (suc (suc (suc (suc zero)))))))) x h = omega arith
u32-shift (suc (suc (suc (suc (suc (suc (suc (suc (suc s))))))))) x h = absurd (omega arith)

-- Shifting `s` bits into the buffer puts their digits behind up to 24 pending ones.
pub shift_in :
    (s b buf v : ℕ)
    → s ≤ 8
    → b ≤ 24
    → v < 2 ^ s
    → bits_of (b + s) (bit_or (u32 (buf <<< s)) v) ≡ bits_of b buf ++ bits_of s v
shift_in s b buf v few pending small =
    let q = buf % 2 ^ (32 - s) in
    let joined : bit_or (u32 (buf <<< s)) v ≡ q * 2 ^ s + v =
      ap (λ t. bit_or t v) (u32-shift s buf few) ∙ bit_or_fields s q v small in
    let high : (q * 2 ^ s + v) / 2 ^ s ≡ q = omega (
      arith,
      mul-add-div_right {m = 2 ^ s} (one-le-pow s 2 (omega arith)) q v,
      div-eq_of_lt small,
    ) in
    rw (joined, bits_of_split b s (q * 2 ^ s + v), high, bits_of_low b (32 - s) buf (omega arith))
      (ap (λ t. bits_of b buf ++ t)
        (bits_of_mod s s q (q * 2 ^ s + v) v (omega arith) (omega arith)))
