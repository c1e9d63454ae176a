-- ===== src/Guid/Defs.antt =====
-- lib-kit/kit-guid.c: identifiers of sixteen bytes and their texts.
use libkit.Common.{
  c_string, ℕ, ◌+◌, ◌*◌, ◌==◌, if◌then◌else◌, ltb, not, List, [], ◌∷◌, Option, none, some, length,
  replicate,
}
use libkit.SxeHex.Defs.{sxe_hex_to_bytes, sxe_hex_from_bytes}

abbrev pub kit_guid_size : ℕ
kit_guid_size = 16

abbrev pub kit_guid_str_len : ℕ
kit_guid_str_len = 2 * kit_guid_size

-- `bytes`, of which there are `kit_guid_size`.
pub record Guid : Type 0 where
  pub bytes : List ℕ

unfoldable pub kit_guid_nil : Guid
kit_guid_nil = record { bytes = replicate kit_guid_size 0 }

-- A null pointer is `none`, and stands for the nil identifier. The result is the buffer.
unfoldable pub kit_guid_to_buf : Option Guid → List ℕ → List ℕ
kit_guid_to_buf none buf = sxe_hex_from_bytes buf (kit_guid_nil.bytes)
kit_guid_to_buf (some guid) buf = sxe_hex_from_bytes buf guid.bytes

-- The thread's static buffer `str`, of `kit_guid_str_len + 1` characters, starts with zeros; a call
-- takes what it holds and returns what it then holds.
abbrev pub fresh_str : List ℕ
fresh_str = replicate (kit_guid_str_len + 1) 0

unfoldable pub kit_guid_to_str : Option Guid → List ℕ → List ℕ
kit_guid_to_str guid str = kit_guid_to_buf guid str

abbrev pub strlen : List ℕ → ℕ
strlen str = length (c_string str)

-- What `*guid` becomes, from what it was. An error of `sxe_hex_to_bytes` is not looked at.
unfoldable pub kit_guid_from_str : Guid → List ℕ → Guid
kit_guid_from_str guid str_hex =
    let (result, bytes) = sxe_hex_to_bytes guid.bytes str_hex kit_guid_str_len in
    if not (strlen str_hex == kit_guid_str_len) then kit_guid_nil else record { bytes = bytes }

-- The sign of an `int`.
pub data Sign : Type 0 where
  negative null positive : Sign

-- `memcmp` of two areas of one size: the first bytes that differ decide.
unfoldable pub memcmp : List ℕ → List ℕ → Sign
memcmp [] ys = null
memcmp (x ∷ xs) [] = null
memcmp (x ∷ xs) (y ∷ ys) =
    let rest = memcmp xs ys in if ltb x y then negative else if ltb y x then positive else rest

unfoldable pub kit_guid_cmp : Option Guid → Option Guid → Sign
kit_guid_cmp none none = null
kit_guid_cmp none (some guid2) = negative
kit_guid_cmp (some guid1) none = positive
kit_guid_cmp (some guid1) (some guid2) = memcmp guid1.bytes guid2.bytes
