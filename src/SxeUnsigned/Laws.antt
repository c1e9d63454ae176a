-- ===== src/SxeUnsigned/Laws.antt =====
-- What lib-sxe-util/sxe-unsigned.c computes: the highest bit of a number, and all bits up to it.
use libkit.Common.{
  ℕ, zero, suc, ◌+◌, ◌-◌, ◌*◌, ◌/◌, ◌^◌, ◌<◌, ◌≤◌, ◌==◌, ◌&&◌, ◌||◌, Bool, true, leb, ltb, ltb→lt,
  get_or, ◌≡◌, refl, ap, Bool-cases, inl, inr, all_below, all_below_sound, ==→eq, arith,
}
use libkit.SxeUnsigned.Defs.{
  sxe_log2_table, sxe_mask_table, log2_of_byte, sxe_unsigned_log2, sxe_unsigned_mask,
}
use native.Mathlib.Nat.{pow-suc, mul_assoc}

-- `k` is the place of the highest bit of `n`.
abbrev pub IsLog2 : ℕ → ℕ → Type 0
IsLog2 n k = (2 ^ k ≤ n) × (n < 2 ^ k * 2)

byte_test : ℕ → Bool
byte_test n =
    (n == 0)
    || (leb (2 ^ log2_of_byte n) n && ltb n (2 ^ log2_of_byte n * 2) && ltb (log2_of_byte n) 8)

bytes_pass : all_below 256 byte_test ≡ true
unfolding byte_test log2_of_byte sxe_log2_table all_below
bytes_pass = refl

log2_of_byte-IsLog2 : (n : ℕ) → 0 < n → n < 256 → IsLog2 n (log2_of_byte n) × (log2_of_byte n < 8)
unfolding byte_test
log2_of_byte-IsLog2 n pos small =
    let t = all_below_sound 256 byte_test n bytes_pass small in ground arith

pow_plus : (k s : ℕ) → 2 ^ (k + s) ≡ 2 ^ k * 2 ^ s
pow_plus k zero = let none_more : k + 0 ≡ k = omega arith in rw none_more (omega arith)
pow_plus k (suc s) =
    let one_more : k + suc s ≡ suc (k + s) = omega arith in
    rw one_more (
      omega (
        arith,
        pow-suc 2 (k + s),
        pow_plus k s,
        ap (λ (t : ℕ). 2 ^ k * t) (pow-suc 2 s),
        mul_assoc (2 ^ k) (2 ^ s) 2,
      ))

-- A number over the byte at its top: 8, 16 or 24 bits further down.
under_8 : (n k : ℕ) → IsLog2 (n / 2 ^ 8) k → IsLog2 n (k + 8)
under_8 n k h = (omega (arith, pow_plus k 8, h.0), omega (arith, pow_plus k 8, h.1))

under_16 : (n k : ℕ) → IsLog2 (n / 2 ^ 16) k → IsLog2 n (k + 16)
under_16 n k h = (omega (arith, pow_plus k 16, h.0), omega (arith, pow_plus k 16, h.1))

under_24 : (n k : ℕ) → IsLog2 (n / 2 ^ 24) k → IsLog2 n (k + 24)
under_24 n k h = (omega (arith, pow_plus k 24, h.0), omega (arith, pow_plus k 24, h.1))

-- For every positive 32-bit number, `sxe_unsigned_log2` returns the place of its highest bit.
pub sxe_unsigned_log2-IsLog2 :
    (number : ℕ)
    → 0 < number
    → number < 2 ^ 32
    → IsLog2 number (sxe_unsigned_log2 number) × (sxe_unsigned_log2 number < 32)
unfolding sxe_unsigned_log2
sxe_unsigned_log2-IsLog2 number pos small = elim (Bool-cases (ltb 0xFFFF number)) [
  | inl wide ↦ elim (Bool-cases (ltb 0xFFFFFF number)) [
    | inl wider ↦
        let r =
          log2_of_byte-IsLog2 (number / 2 ^ 24) (omega (arith, ltb→lt _ _ wider)) (omega arith) in
        rw (wide, wider) (under_24 number _ r.0, omega (arith, r.1))
    | inr not_wider ↦
        let bound : number < 2 ^ 24 = ground (arith, not_wider) in
        let r =
          log2_of_byte-IsLog2 (number / 2 ^ 16) (omega (arith, ltb→lt _ _ wide)) (omega arith) in
        rw (wide, not_wider) (under_16 number _ r.0, omega (arith, r.1))
  ]
  | inr not_wide ↦
      let bound : number < 2 ^ 16 = ground (arith, not_wide) in
      elim (Bool-cases (ltb 0xFF number)) [
        | inl two_bytes ↦
            let r =
              log2_of_byte-IsLog2 (number / 2 ^ 8) (omega (arith, ltb→lt _ _ two_bytes))
                (omega arith) in
            rw (not_wide, two_bytes) (under_8 number _ r.0, omega (arith, r.1))
        | inr one_byte ↦
            let bound' : number < 2 ^ 8 = ground (arith, one_byte) in
            let r = log2_of_byte-IsLog2 number pos bound' in
            rw (not_wide, one_byte) (r.0, omega (arith, r.1))
      ]
]

masks_pass : all_below 32 (λ k. get_or sxe_mask_table k 0 == 2 ^ k * 2 - 1) ≡ true
unfolding sxe_mask_table all_below
masks_pass = refl

-- For every positive 32-bit number, `sxe_unsigned_mask` returns the ones up to its highest bit: one
-- less than the power of two above it, and so at least the number and less than twice the number.
pub sxe_unsigned_mask-IsLog2 :
    (number : ℕ)
    → 0 < number
    → number < 2 ^ 32
    → ((k : ℕ) × IsLog2 number k × (sxe_unsigned_mask number + 1 ≡ 2 ^ k * 2))
      × (number ≤ sxe_unsigned_mask number)
      × (sxe_unsigned_mask number < 2 * number)
unfolding sxe_unsigned_mask
sxe_unsigned_mask-IsLog2 number pos small =
    let k = sxe_unsigned_log2 number in
    let (top, bound) = sxe_unsigned_log2-IsLog2 number pos small in
    let mask : get_or sxe_mask_table k 0 ≡ 2 ^ k * 2 - 1 =
      ==→eq _ _
        (all_below_sound 32 (λ i. get_or sxe_mask_table i 0 == 2 ^ i * 2 - 1) k masks_pass bound) in
    (
      (k, top, omega (arith, mask, top.1)),
      omega (arith, mask, top.1),
      omega (arith, mask, top.0, top.1),
    )
