-- ===== src/SxeUnsigned/Align.antt =====
-- `sxe_uint64_align` of lib-sxe-util/sxe-uint64.c.
use libkit.Common.{
  ℕ, zero, suc, ◌+◌, ◌-◌, ◌*◌, ◌/◌, ◌%◌, ◌^◌, ◌≤◌, ◌<◌, ◌==◌, not, if◌then◌else◌, bit_and,
  bit_and_step, bit_and_mask, ◌≡◌, refl, sym, ◌∙◌, ap, arith, Bool-cases, inl, inr, ==→eq,
}
use native.Mathlib.Nat.{mod-lt, mod-add-div', mul-mod_left, add-mul, pow-suc}
use mathlib.Core.Path.{subst}

abbrev u64 : ℕ → ℕ
u64 x = x % 2 ^ 64

-- `mod ? value - mod + multiple : value`
unfoldable pub next_multiple : ℕ → ℕ → ℕ → ℕ
next_multiple value multiple remainder =
    if not (remainder == 0) then u64 (value - remainder + multiple) else value

-- `multiple - 1` is that of 64 bits.
unfoldable pub sxe_uint64_align : ℕ → ℕ → ℕ
sxe_uint64_align value multiple =
    let ones = u64 (multiple + (2 ^ 64 - 1)) in
    if not (bit_and multiple ones == 0)
    then next_multiple value multiple (value % multiple)
    else next_multiple value multiple (bit_and value ones)

half_of_self : (bound x : ℕ) → x ≤ bound → bit_and x x ≡ x
half_of_self bound zero h = refl
half_of_self zero (suc x) h = absurd (omega arith)
half_of_self (suc bound) (suc x) h =
    let half = half_of_self bound (suc x / 2) (omega arith) in
    omega (arith, bit_and_step (suc x) (suc x), half)

-- A number that has no bit in common with the one before it is a power of two.
power_of_two : (bound m : ℕ) → m ≤ bound → 0 < m → bit_and m (m - 1) ≡ 0 → (k : ℕ) × (m ≡ 2 ^ k)
power_of_two zero m h pos e = absurd (omega (arith, h, pos))
power_of_two (suc bound) m h pos e = elim (Bool-cases (m % 2 == 0)) [
  | inl even ↦
      let even' = ==→eq _ _ even in
      let before : (m - 1) / 2 ≡ m / 2 - 1 = omega (arith, even', pos) in
      let half : bit_and (m / 2) (m / 2 - 1) ≡ 0 =
        omega (arith, bit_and_step m (m - 1), e, ap (bit_and (m / 2)) before) in
      let (k, two) =
        power_of_two bound (m / 2) (omega (arith, h, pos)) (omega (arith, even', pos)) half in
      (suc k, (let p = pow-suc 2 k in omega (arith, p, two, even')))
  | inr odd ↦
      let odd' : m % 2 ≡ 1 = ground (arith, odd) in
      let before : (m - 1) / 2 ≡ m / 2 = omega (arith, odd') in
      let half : bit_and (m / 2) (m / 2) ≡ 0 =
        omega (arith, bit_and_step m (m - 1), e, ap (bit_and (m / 2)) before) in
      (
        0,
        (let none_above = half_of_self (m / 2) (m / 2) (omega arith) in
            omega (arith, odd', half, none_above)),
      )
]

-- The least multiple that is not below the value.
abbrev pub IsAligned : ℕ → ℕ → ℕ → Type 0
IsAligned value multiple result =
    (result % multiple ≡ 0) × (value ≤ result) × (result < value + multiple)

next_multiple-IsAligned :
    (value multiple : ℕ)
    → 0 < multiple
    → value + multiple ≤ 2 ^ 64
    → IsAligned value multiple (next_multiple value multiple (value % multiple))
unfolding next_multiple
next_multiple-IsAligned value multiple pos small = elim (Bool-cases (value % multiple == 0)) [
  | inl whole ↦ rw whole (==→eq _ _ whole, omega arith, omega (arith, pos))
  | inr part ↦
      let q = value / multiple in
      let r = value % multiple in
      let some_rest : 0 < r = ground (arith, part) in
      let below : r < multiple = mod-lt value pos in
      let split : value ≡ q * multiple + r = omega (arith, mod-add-div' value multiple) in
      let next : value - r + multiple ≡ (q + 1) * multiple =
        omega (arith, split, add-mul q 1 multiple) in
      let no_wrap : u64 (value - r + multiple) ≡ value - r + multiple =
        omega (arith, small, some_rest) in
      rw part (
        ap (λ x. x % multiple) (no_wrap ∙ next) ∙ mul-mod_left _ _,
        omega (arith, no_wrap, below),
        omega (arith, no_wrap, some_rest, split),
      )
]

-- For a positive multiple that the value leaves room for in 64 bits, a power of two or not, the result
-- is the least multiple that is not below the value.
pub sxe_uint64_align-IsAligned :
    (value multiple : ℕ)
    → 0 < multiple
    → value + multiple ≤ 2 ^ 64
    → IsAligned value multiple (sxe_uint64_align value multiple)
unfolding sxe_uint64_align
sxe_uint64_align-IsAligned value multiple pos small =
    let before : u64 (multiple + (2 ^ 64 - 1)) ≡ multiple - 1 = omega (arith, pos, small) in
    elim (Bool-cases (bit_and multiple (u64 (multiple + (2 ^ 64 - 1))) == 0)) [
      | inr other ↦ rw other (next_multiple-IsAligned value multiple pos small)
      | inl power ↦
          let none_in_common = ap (bit_and multiple) (sym before) ∙ ==→eq _ _ power in
          let (k, two) = power_of_two multiple multiple (omega arith) pos none_in_common in
          let rest : bit_and value (u64 (multiple + (2 ^ 64 - 1))) ≡ value % multiple =
            ap (bit_and value) (before ∙ ap (λ m. m - 1) two)
            ∙ bit_and_mask k value
            ∙ ap (λ m. value % m) (sym two) in
          rw power (
            subst (λ r. IsAligned value multiple (next_multiple value multiple r)) (sym rest)
              (next_multiple-IsAligned value multiple pos small))
    ]
