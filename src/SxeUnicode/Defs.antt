-- ===== src/SxeUnicode/Defs.antt =====
-- lib-sxe-jitson/sxe-unicode.c: UTF-8.
use libkit.Common.{ℕ, List, leb, if◌then◌else◌, set, u8, ◌>>>◌, bit_and, bit_or}

-- A continuation byte: `(char)(0x80 | (bits & 0x3F))`
unfoldable pub continuation : ℕ → ℕ
continuation bits = u8 (bit_or 0x80 (bit_and bits 0x3F))

-- The number of bytes, and the buffer `utf_out`. For what is no code point nothing is written.
unfoldable pub sxe_unicode_to_utf8 : ℕ → List ℕ → ℕ × List ℕ
sxe_unicode_to_utf8 unicode utf_out =
    if leb unicode 0x7F
    then (1, set utf_out 0 (u8 unicode))
    else if leb unicode 0x7FF
    then (2, set (set utf_out 0 (u8 (bit_or 0xC0 (unicode >>> 6)))) 1 (continuation unicode))
    else if leb unicode 0xFFFF
    then (
      3,
      set (set (set utf_out 0 (u8 (bit_or 0xE0 (unicode >>> 12)))) 1 (continuation (unicode >>> 6)))
          2 (continuation unicode),
    )
    else if leb unicode 0x10FFFF
    then (
      4,
      set
          (set
            (set (set utf_out 0 (u8 (bit_or 0xF0 (unicode >>> 18)))) 1
              (continuation (unicode >>> 12)))
            2 (continuation (unicode >>> 6)))
          3 (continuation unicode),
    )
    else (0, utf_out)
