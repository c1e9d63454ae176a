-- ===== src/KitBits/Tests.antt =====
-- A run of the bit masks, and their theorem at a mask.
use libkit.Common.{
  ℕ, ◌+◌, ◌/◌, ◌==◌, if◌then◌else◌, ltb, true, false, List, [], ◌∷◌, length, ◌≡◌, refl, arith,
}
use libkit.KitBits.Defs.{
  set_bit, kit_bits_set, kit_bits_clear, kit_bits_isset, kit_bits_copy, keep_high,
}
use libkit.KitBits.Copy.{kit_bits_copy-kit_bits_isset}
use libkit.KitBits.Laws.{kit_bits_isset-kit_bits_set}

abbrev mask_24 : List ℕ
mask_24 = 0xFF ∷ 0xFF ∷ 0xFF ∷ 0x00 ∷ []

-- From /24 to /25.
kit_bits_set-mask_24 : kit_bits_set mask_24 24 ≡ 0xFF ∷ 0xFF ∷ 0xFF ∷ 0x80 ∷ []
unfolding kit_bits_set set_bit
kit_bits_set-mask_24 = refl

kit_bits_isset-kit_bits_set_example :
    (kit_bits_isset (kit_bits_set mask_24 24) 25
      ≡ (if 24 == 25 then true else kit_bits_isset mask_24 25))
    × (kit_bits_isset (kit_bits_clear mask_24 24) 25
        ≡ (if 24 == 25 then false else kit_bits_isset mask_24 25))
    × (length (kit_bits_set mask_24 24) ≡ length mask_24)
    × (length (kit_bits_clear mask_24 24) ≡ length mask_24)
kit_bits_isset-kit_bits_set_example =
    kit_bits_isset-kit_bits_set mask_24 24 25
      (omega arith, (omega arith, (omega arith, (omega arith, tt)))) (omega arith)

abbrev zeros : List ℕ
zeros = 0 ∷ 0 ∷ 0xAA ∷ []

-- The first 13 bits.
kit_bits_copy-mask_24 : kit_bits_copy zeros mask_24 13 ≡ (2, 0xFF ∷ 0xF8 ∷ 0xAA ∷ [])
unfolding kit_bits_copy keep_high
kit_bits_copy-mask_24 = refl

copied_bits :
    let (bytes, d') = kit_bits_copy zeros mask_24 13 in
    (bytes ≡ (13 + 7) / 8)
    × (kit_bits_isset d' 12 ≡ (
        if ltb 12 13
        then kit_bits_isset mask_24 12
        else if ltb (12 / 8) ((13 + 7) / 8)
        then false
        else kit_bits_isset zeros 12))
    × (length d' ≡ length zeros)
copied_bits =
    kit_bits_copy-kit_bits_isset zeros mask_24 13
      (omega arith, (omega arith, (omega arith, (omega arith, tt)))) (omega arith) (omega arith)
      (omega arith) 12
