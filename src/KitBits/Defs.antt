-- ===== src/KitBits/Defs.antt =====
-- lib-kit/kit-bits.h and kit-bits.c: bit masks whose bit 0 is the highest of the first byte.
use libkit.Common.{
  ℕ, ◌+◌, ◌-◌, ltb, if◌then◌else◌, ◌++◌, take, drop, ◌/◌, ◌%◌, ◌^◌, ◌==◌, Bool, not, List, get_or,
  set, u8, ◌<<<◌, bit_and, bit_or,
}

-- `|= 1 << (7 - i % 8)` on a byte, with `i % 8` given.
unfoldable pub set_bit : ℕ → ℕ → ℕ
set_bit byte i = u8 (bit_or byte (1 <<< (7 - i)))

-- `&= ~(1 << (7 - i % 8))`: the complement is that of a 32-bit integer.
unfoldable pub clear_bit : ℕ → ℕ → ℕ
clear_bit byte i = u8 (bit_and byte (2 ^ 32 - 1 - (1 <<< (7 - i))))

-- `(… & (1 << (7 - i % 8))) != 0`
unfoldable pub test_bit : ℕ → ℕ → Bool
test_bit byte i = not (bit_and byte (1 <<< (7 - i)) == 0)

unfoldable pub kit_bits_set : List ℕ → ℕ → List ℕ
kit_bits_set me i = set me (i / 8) (set_bit (get_or me (i / 8) 0) (i % 8))

unfoldable pub kit_bits_clear : List ℕ → ℕ → List ℕ
kit_bits_clear me i = set me (i / 8) (clear_bit (get_or me (i / 8) 0) (i % 8))

unfoldable pub kit_bits_isset : List ℕ → ℕ → Bool
kit_bits_isset me i = test_bit (get_or me (i / 8) 0) (i % 8)

-- `&= 0xFF << (8 - num_bits % 8)` on a byte, with `num_bits % 8` given.
unfoldable pub keep_high : ℕ → ℕ → ℕ
keep_high byte bits = u8 (bit_and byte (0xFF <<< (8 - bits)))

-- The number of bytes written, and the memory at `d`.
unfoldable pub kit_bits_copy : List ℕ → List ℕ → ℕ → ℕ × List ℕ
kit_bits_copy d s num_bits =
    let num_bytes = (num_bits + 7) % 2 ^ 64 / 8 in
    let copied = take num_bytes s ++ drop num_bytes d in
    (
      num_bytes,
      if ltb 0 (num_bits % 8)
          then set copied (num_bytes - 1)
              (keep_high (get_or copied (num_bytes - 1) 0) (num_bits % 8))
          else copied,
    )
