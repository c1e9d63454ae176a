-- ===== src/SxeUnsigned/Defs.antt =====
-- lib-sxe-util/sxe-unsigned.c: logarithms and masks of 32-bit numbers.
use libkit.Common.{
  ℕ, ◌+◌, ◌*◌, List, [], ◌∷◌, ◌++◌, replicate, get_or, ltb, if◌then◌else◌, ◌>>>◌, bit_and,
}

-- The logarithms of all bytes, eight to a word, the lowest byte's in the lowest four bits.
unfoldable pub sxe_log2_table : List ℕ
sxe_log2_table =
    (0x22221100 ∷ 0x33333333 ∷ 0x44444444 ∷ 0x44444444 ∷ [])
    ++ replicate 4 0x55555555
    ++ replicate 8 0x66666666
    ++ replicate 16 0x77777777

unfoldable pub sxe_mask_table : List ℕ
sxe_mask_table =
    0x00000001 ∷ 0x00000003 ∷ 0x00000007 ∷ 0x0000000F ∷ 0x0000001F ∷ 0x0000003F ∷ 0x0000007F
    ∷ 0x000000FF ∷ 0x000001FF ∷ 0x000003FF ∷ 0x000007FF ∷ 0x00000FFF ∷ 0x00001FFF ∷ 0x00003FFF
    ∷ 0x00007FFF ∷ 0x0000FFFF ∷ 0x0001FFFF ∷ 0x0003FFFF ∷ 0x0007FFFF ∷ 0x000FFFFF ∷ 0x001FFFFF
    ∷ 0x003FFFFF ∷ 0x007FFFFF ∷ 0x00FFFFFF ∷ 0x01FFFFFF ∷ 0x03FFFFFF ∷ 0x07FFFFFF ∷ 0x0FFFFFFF
    ∷ 0x1FFFFFFF ∷ 0x3FFFFFFF ∷ 0x7FFFFFFF ∷ 0xFFFFFFFF ∷ []

-- `(sxe_log2_table[number >> 3] >> ((number & 0x7) * 4)) & 0xF`
unfoldable pub log2_of_byte : ℕ → ℕ
log2_of_byte number =
    bit_and (get_or sxe_log2_table (number >>> 3) 0 >>> (bit_and number 0x7 * 4)) 0xF

unfoldable pub sxe_unsigned_log2 : ℕ → ℕ
sxe_unsigned_log2 number =
    if ltb 0xFFFF number
    then (let shift = if ltb 0xFFFFFF number then 24 else 16 in
        log2_of_byte (number >>> shift) + shift)
    else if ltb 0xFF number
    then log2_of_byte (number >>> 8) + 8
    else log2_of_byte number

unfoldable pub sxe_unsigned_mask : ℕ → ℕ
sxe_unsigned_mask number = get_or sxe_mask_table (sxe_unsigned_log2 number) 0
