-- ===== src/SxeUnicode/Tests.antt =====
-- Runs of the encoder, and its theorem at a code point.
use libkit.Common.{[], ◌∷◌, replicate, take, drop, some, none, if◌then◌else◌, leb, ◌≡◌, refl}
use libkit.SxeUnicode.Defs.{continuation, sxe_unicode_to_utf8}
use libkit.SxeUnicode.Laws.{utf8_length, decoded, sxe_unicode_to_utf8-decoded}

-- The euro sign.
sxe_unicode_to_utf8-euro :
    sxe_unicode_to_utf8 0x20AC (replicate 4 0) ≡ (3, 0xE2 ∷ 0x82 ∷ 0xAC ∷ 0 ∷ [])
unfolding sxe_unicode_to_utf8 continuation
sxe_unicode_to_utf8-euro = refl

sxe_unicode_to_utf8-decoded_example :
    let (n, out) = sxe_unicode_to_utf8 0x20AC (1 ∷ 2 ∷ 3 ∷ 4 ∷ 5 ∷ []) in
    (n ≡ utf8_length 0x20AC)
    × (decoded (take n out) ≡ (if leb 0x20AC 0x10FFFF then some 0x20AC else none))
    × (drop n out ≡ drop n (1 ∷ 2 ∷ 3 ∷ 4 ∷ 5 ∷ []))
sxe_unicode_to_utf8-decoded_example = sxe_unicode_to_utf8-decoded 0x20AC 1 2 3 4 (5 ∷ [])
