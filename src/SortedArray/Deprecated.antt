-- ===== src/SortedArray/Deprecated.antt =====
-- The interfaces of lib-kit/kit-sortedarray.c that are kept for backward compatibility.
use libkit.Common.{ℕ, Bool, false, Option}
use libkit.SortedArray.Defs.{
  Cmp, Flags, SortedArray, kit_sortedarray_find_key, kit_sortedarray_add_elem,
  kit_sortedarray_get_elem, kit_sortedarray_delete_elem,
}

-- `KIT_SORTEDARRAY_DEFAULT`
abbrev pub kit_sortedarray_default : Flags
kit_sortedarray_default = record {
  allow_inserts = false;
  allow_growth = false;
  zero_copy = false;
  cmp_can_fail = false;
}

module _ {ℓ κ} {K : Type κ} {E : Type ℓ} (cmp : K → K → Cmp) (key_of : E → K) where
  unfoldable pub kit_sortedarray_add : Flags → Bool → SortedArray E → E → Option ℕ × SortedArray E
  kit_sortedarray_add flags = kit_sortedarray_add_elem flags cmp key_of

  unfoldable pub kit_sortedarray_find : (ℕ → K) → ℕ → K → ℕ × Bool
  kit_sortedarray_find = kit_sortedarray_find_key kit_sortedarray_default cmp

  unfoldable pub kit_sortedarray_get : SortedArray E → K → Option ℕ
  kit_sortedarray_get = kit_sortedarray_get_elem kit_sortedarray_default cmp key_of

  unfoldable pub kit_sortedarray_delete : SortedArray E → K → Bool × SortedArray E
  kit_sortedarray_delete = kit_sortedarray_delete_elem kit_sortedarray_default cmp key_of
