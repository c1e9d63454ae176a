-- ===== src/SortedArray/Failure.antt =====
-- `kit_sortedarray_add_elem` of lib-kit/kit-sortedarray.c where comparisons fail.
use libkit.Common.{ℕ, zero, suc, ◌+◌, ◌-◌, ◌/◌, ◌^◌, ◌≤◌, ◌<◌, true, false, some, ◌≡◌, arith}
use libkit.SortedArray.Defs.{
  Cmp, int_max, Flags, SortedArray, keys, kit_sortedarray_find_key, find_loop, no_pos, place,
  growth, insert_at, kit_sortedarray_add_elem,
}

module _ {ℓ κ} {K : Type κ} {E : Type ℓ} (flags : Flags) (cmp : K → K → Cmp) (key_of : E → K)
    (a : SortedArray E) (element : E) where
  failing_find :
      (n : ℕ) (key : K)
      → flags.cmp_can_fail ≡ true
      → 0 < n
      → cmp key (keys flags cmp key_of a (n / 2)) ≡ int_max
      → kit_sortedarray_find_key flags cmp (keys flags cmp key_of a) n key ≡ (no_pos, false)
  unfolding kit_sortedarray_find_key find_loop
  failing_find zero key can_fail h e = absurd (omega arith)
  failing_find (suc n) key can_fail h e = ground arith

  failing_place :
      flags.cmp_can_fail ≡ true
      → flags.allow_inserts ≡ true
      → 0 < a.count
      → cmp (keys flags cmp key_of a (a.count - 1)) (key_of element) ≡ int_max
      → cmp (key_of element) (keys flags cmp key_of a (a.count / 2)) ≡ int_max
      → place flags cmp key_of a (key_of element) ≡ some no_pos
  unfolding place
  failing_place can_fail inserts some_elements last middle =
      ground (arith, failing_find a.count (key_of element) can_fail some_elements middle)

  -- Where the class allows failing comparisons and insertions, an element whose comparisons with the
  -- last and the middle element fail is not refused: in an allocated array with a free slot it is
  -- written to slot 2^32 - 1, past every allocated slot, and counted.
  pub add_elem-failing :
      flags.cmp_can_fail ≡ true
      → flags.allow_inserts ≡ true
      → flags.zero_copy ≡ false
      → 0 < a.count
      → a.count < a.alloc
      → a.alloc < 2 ^ 32
      → a.allocated ≡ true
      → cmp (keys flags cmp key_of a (a.count - 1)) (key_of element) ≡ int_max
      → cmp (key_of element) (keys flags cmp key_of a (a.count / 2)) ≡ int_max
      → let (slot, a') = kit_sortedarray_add_elem flags cmp key_of true a element in
        (slot ≡ some no_pos)
        × (a'.slots no_pos ≡ element)
        × (a'.count ≡ a.count + 1)
        × (a'.alloc ≤ no_pos)
  unfolding kit_sortedarray_add_elem insert_at growth
  add_elem-failing can_fail inserts copies some_elements room small backed last middle =
      ground (arith, failing_place can_fail inserts some_elements last middle)
