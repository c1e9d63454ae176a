-- ===== src/Guid/Tests.antt =====
-- The theorems on identifiers, at identifiers that meet their hypotheses.
use libkit.Common.{ℕ, List, [], ◌∷◌, replicate, some, none, ◌≡◌, ◌↔◌, refl, arith}
use libkit.Guid.Defs.{
  memcmp, negative, Guid, negative, null, fresh_str, kit_guid_to_buf, kit_guid_from_str,
  kit_guid_cmp,
}
use libkit.Guid.Text.{kit_guid_from_str-kit_guid_to_buf, kit_guid_from_str-kept}
use libkit.Guid.Order.{opposite, kit_guid_cmp-opposite, kit_guid_cmp_trans}

abbrev some_bytes : List ℕ
some_bytes =
    0xc8 ∷ 0xed ∷ 0x12 ∷ 0x37 ∷ 0x5c ∷ 0x81 ∷ 0xa6 ∷ 0xcb ∷ 0xf0 ∷ 0x15 ∷ 0x3a ∷ 0x5f ∷ 0x84 ∷ 0xa9
    ∷ 0xce ∷ 0xf3 ∷ []

abbrev some_guid : Guid
some_guid = record { bytes = some_bytes }

abbrev zeros : Guid
zeros = record { bytes = replicate 16 0 }

kit_guid_from_str-kit_guid_to_buf_example :
    kit_guid_from_str zeros (kit_guid_to_buf (some some_guid) fresh_str) ≡ some_guid
kit_guid_from_str-kit_guid_to_buf_example =
    kit_guid_from_str-kit_guid_to_buf some_guid zeros fresh_str [] (refl, ground arith) refl
      (omega arith) refl

-- The letter g and 31 zeros.
kit_guid_from_str-kept_example : kit_guid_from_str some_guid (b'g' ∷ replicate 31 b'0') ≡ some_guid
kit_guid_from_str-kept_example =
    kit_guid_from_str-kept some_guid b'g' (replicate 31 b'0') (omega arith) refl refl

compared :
    (kit_guid_cmp (some some_guid) (some zeros)
      ≡ opposite (kit_guid_cmp (some zeros) (some some_guid)))
    × ((kit_guid_cmp (some zeros) (some some_guid) ≡ null) ↔ (some zeros ≡ some some_guid))
compared = kit_guid_cmp-opposite (some zeros) (some some_guid) refl refl

zeros_less : kit_guid_cmp (some zeros) (some some_guid) ≡ negative
unfolding kit_guid_cmp memcmp
zeros_less = refl

null_less : kit_guid_cmp none (some zeros) ≡ negative
unfolding kit_guid_cmp
null_less = refl

less_by_steps : kit_guid_cmp none (some some_guid) ≡ negative
less_by_steps =
    kit_guid_cmp_trans none (some zeros) (some some_guid) tt refl refl null_less zeros_less
