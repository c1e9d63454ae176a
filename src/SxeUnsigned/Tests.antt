-- ===== src/SxeUnsigned/Tests.antt =====
-- Runs of the bit functions, and their theorems at a number.
use libkit.Common.{ℕ, ◌+◌, ◌*◌, ◌≤◌, ◌<◌, ◌^◌, ◌≡◌, refl, arith}
use libkit.SxeUnsigned.Defs.{
  sxe_log2_table, sxe_mask_table, log2_of_byte, sxe_unsigned_log2, sxe_unsigned_mask,
}
use libkit.SxeUnsigned.Align.{
  next_multiple, sxe_uint64_align, IsAligned, sxe_uint64_align-IsAligned,
}
use libkit.SxeUnsigned.Laws.{IsLog2, sxe_unsigned_log2-IsLog2, sxe_unsigned_mask-IsLog2}

program : Unit {0}
unfolding next_multiple sxe_uint64_align sxe_log2_table sxe_mask_table log2_of_byte
    sxe_unsigned_log2 sxe_unsigned_mask
program = tt

sxe_unsigned_mask-million : sxe_unsigned_mask 1000000 ≡ 0xfffff
unfolding program
sxe_unsigned_mask-million = refl

sxe_unsigned_log2-zero : sxe_unsigned_log2 0 ≡ 0
unfolding program
sxe_unsigned_log2-zero = refl

highest_bit : IsLog2 1000000 (sxe_unsigned_log2 1000000) × (sxe_unsigned_log2 1000000 < 32)
highest_bit = sxe_unsigned_log2-IsLog2 1000000 (omega arith) (omega arith)

mask_of_million :
    ((k : ℕ) × IsLog2 1000000 k × (sxe_unsigned_mask 1000000 + 1 ≡ 2 ^ k * 2))
    × (1000000 ≤ sxe_unsigned_mask 1000000)
    × (sxe_unsigned_mask 1000000 < 2 * 1000000)
mask_of_million = sxe_unsigned_mask-IsLog2 1000000 (omega arith) (omega arith)

aligned_thousand : (sxe_uint64_align 1000 64 ≡ 1024) × (sxe_uint64_align 1000 24 ≡ 1008)
unfolding program
aligned_thousand = (refl, refl)

sxe_uint64_align-IsAligned_example : IsAligned 1000 64 (sxe_uint64_align 1000 64)
sxe_uint64_align-IsAligned_example = sxe_uint64_align-IsAligned 1000 64 (omega arith) (omega arith)
