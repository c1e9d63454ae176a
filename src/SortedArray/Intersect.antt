-- ===== src/SortedArray/Intersect.antt =====
-- `kit_sortedarray_intersect` of lib-kit/kit-sortedarray.c, over arrays at addresses.
use libkit.Common.{ℕ, zero, suc, ◌+◌, ◌-◌, ◌*◌, ◌/◌, Bool, true, false, ◌&&◌, ◌||◌, ltb, ◌==◌}
use libkit.SortedArray.Defs.{Cmp, Flags, no_pos, kit_sortedarray_find_key}

-- Go on with the visitor's new state, unless it or a failure has ended the intersection.
abbrev pub and_then {ℓ} : {V : Type ℓ} → Bool × V → (V → Bool × V) → Bool × V
and_then (false, v) next = (false, v)
and_then (true, v) next = next v

-- `read` gives the key at an address, and `visit` the result and the state that the visitor leaves.
module _ {ℓ κ} {K : Type ℓ} {V : Type κ} (flags : Flags) (cmp : K → K → Cmp) (read : ℕ → K)
    (size keyoffset : ℕ) (visit : V → ℕ → Bool × V) where
  -- `SORTEDARRAY_ELEM` and `SORTEDARRAY_KEY`
  abbrev pub elem_at : ℕ → ℕ → ℕ
  elem_at array idx = array + idx * size

  abbrev pub key_at : ℕ → ℕ → ℕ
  key_at array idx = elem_at array idx + keyoffset

  abbrev pub find_in : ℕ → ℕ → ℕ → ℕ × Bool
  find_in array count key =
      kit_sortedarray_find_key flags cmp (λ i. read (key_at array i)) count (read key)

  abbrev pub failed : ℕ → Bool
  failed idx = (idx == no_pos) && flags.cmp_can_fail

  -- The left array has one element, `left`.
  unfoldable pub intersect_one : ℕ → ℕ → ℕ → V → Bool × V
  intersect_one left right right_count v =
      let (idx, found) = find_in right right_count (left + keyoffset) in
      elim (failed idx) [
        | true ↦ (false, v)
        | false ↦ elim found [
          | true ↦ and_then (visit v left) (λ v'. (true, v'))
          | false ↦ (true, v)
        ]
      ]

  -- The call for the elements before the median, where there are any on both sides; `again` is the
  -- function itself.
  unfoldable pub left_part : (ℕ → ℕ → ℕ → ℕ → V → Bool × V) → ℕ → ℕ → ℕ → ℕ → V → Bool × V
  left_part again left right median idx v = elim (ltb 0 median && ltb 0 idx) [
    | true ↦ again left median right idx v
    | false ↦ (true, v)
  ]

  -- The call at the end, for the elements from `median` and from `idx` on: for the arrays to go on
  -- with, the source passes the addresses of their keys.
  unfoldable pub right_part : (ℕ → ℕ → ℕ → ℕ → V → Bool × V) → ℕ → ℕ → ℕ → ℕ → ℕ → ℕ → V → Bool × V
  right_part again left left_count right right_count median idx v = elim (ltb idx right_count) [
    | true ↦
        again (key_at left median) (left_count - median) (key_at right idx) (right_count - idx) v
    | false ↦ (true, v)
  ]

  -- After a match has been visited, with `median` and `idx` past it.
  unfoldable pub past_match : (ℕ → ℕ → ℕ → ℕ → V → Bool × V) → ℕ → ℕ → ℕ → ℕ → ℕ → ℕ → V → Bool × V
  past_match again left left_count right right_count median idx v =
      elim (median == left_count - 1) [
        | true ↦ elim (ltb idx right_count) [
          | true ↦ intersect_one (elem_at left median) (elem_at right idx) (right_count - idx) v
          | false ↦ (true, v)
        ]
        | false ↦ right_part again left left_count right right_count median idx v
      ]

  -- From the median on.
  unfoldable pub from_median :
      (ℕ → ℕ → ℕ → ℕ → V → Bool × V) → ℕ → ℕ → ℕ → ℕ → ℕ → ℕ → Bool → V → Bool × V
  from_median again left left_count right right_count median idx true v =
      and_then (visit v (elem_at left median))
        (past_match again left left_count right right_count (median + 1) (idx + 1))
  from_median again left left_count right right_count median idx false v =
      right_part again left left_count right right_count (median + 1) idx v

  -- From the search for the median's key on.
  unfoldable pub intersect_many : (ℕ → ℕ → ℕ → ℕ → V → Bool × V) → ℕ → ℕ → ℕ → ℕ → V → Bool × V
  intersect_many again left left_count right right_count v =
      let median = left_count / 2 in
      let (idx, found) = find_in right right_count (key_at left median) in
      elim (failed idx) [
        | true ↦ (false, v)
        | false ↦
            and_then (left_part again left right median idx v)
              (from_median again left left_count right right_count median idx found)
      ]

  -- A call is on fewer left elements, so that as many rounds as left elements are enough.
  unfoldable pub kit_sortedarray_intersect : ℕ → ℕ → ℕ → ℕ → ℕ → V → Bool × V
  kit_sortedarray_intersect zero left left_count right right_count v = (true, v)
  kit_sortedarray_intersect (suc rounds) left left_count right right_count v =
      elim ((left_count == 0) || (right_count == 0)) [
        | true ↦ (true, v)
        | false ↦ elim (left_count == 1) [
          | true ↦ intersect_one left right right_count v
          | false ↦
              intersect_many (kit_sortedarray_intersect rounds) left left_count right right_count v
        ]
      ]
