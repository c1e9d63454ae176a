-- ===== src/SortedArray/Intersected.antt =====
-- `kit_sortedarray_intersect` of lib-kit/kit-sortedarray.c visits what a search through all finds.
use libkit.Common.{
  ℕ, zero, suc, ◌+◌, ◌-◌, ◌*◌, ◌/◌, ◌≤◌, ◌<◌, ◌==◌, ltb, ◌&&◌, Bool, true, false, if◌then◌else◌,
  List, [], ◌∷◌, ◌++◌, ◌≡◌, inl, inr, refl, sym, ◌∙◌, ap, arith, Bool-cases, ==→eq,
}
use mathlib.Core.Path.{subst}
use libkit.SortedArray.Defs.{Cmp, Flags, no_pos, kit_sortedarray_find_key}
use libkit.SortedArray.Order.{IsOrder, IsSorted}
use libkit.SortedArray.Find.{Locates, find_key-Locates}
use libkit.SortedArray.Intersect.{
  and_then, intersect_one, kit_sortedarray_intersect, left_part, right_part, past_match,
  from_median, intersect_many,
}
use libkit.SortedArray.Matching.{key_of_index, common, visit_all, visit_all-append}
use libkit.SortedArray.Cuts.{
  Cut, Cut-Locates, keys_of, shared, IsSorted-shift, common_none, common-cut,
}

and_then_same {κ} :
    {V : Type κ} (r : Bool × V) (f g : V → Bool × V)
    → ((v : V) → f v ≡ g v)
    → and_then r f ≡ and_then r g
and_then_same (false, v) f g h = refl
and_then_same (true, v) f g h = h v

module _ {ℓ κ} {K : Type ℓ} {V : Type κ} (flags : Flags) {cmp : K → K → Cmp} (o : IsOrder cmp)
    (read : ℕ → K) (size keyoffset : ℕ) (visit : V → ℕ → Bool × V) where
  abbrev keys : ℕ → ℕ → K
  keys = keys_of cmp read size keyoffset

  abbrev both : ℕ → ℕ → ℕ → ℕ → List ℕ
  both = shared cmp read size keyoffset

  abbrev SortedKeys : ℕ → ℕ → Type 0
  SortedKeys array count = IsSorted cmp (keys array) count

  -- What the search in the right array gives.
  record Searched (right right_count : ℕ) (k : K) : Type ℓ where
    idx : ℕ
    found : Bool
    given : kit_sortedarray_find_key flags cmp (keys right) right_count k ≡ (idx, found)
    no_failure : ((idx == no_pos) && flags.cmp_can_fail) ≡ false
    cut : Cut cmp (keys right) right_count k idx (if found then idx + 1 else idx) found

  searched :
      (right right_count : ℕ) (k : K)
      → right_count < no_pos
      → SortedKeys right right_count
      → Searched right right_count k
  searched right right_count k small sorted =
      go (kit_sortedarray_find_key flags cmp (keys right) right_count k) refl
        (find_key-Locates flags o (keys right) right_count k sorted)
    where
      go :
          (r : ℕ × Bool)
          → kit_sortedarray_find_key flags cmp (keys right) right_count k ≡ r
          → Locates cmp (keys right) right_count k r
          → Searched right right_count k
      go (idx, found) e located =
          let c = Cut-Locates o (keys right) right_count k sorted idx found located in
          let other : (idx == no_pos) ≡ false = ground (arith, c.low_high, c.within, small) in
          record { idx = idx; found = found; given = e; no_failure = rw other refl; cut = c }

  one-visit_all :
      (left right right_count : ℕ) (v : V)
      → right_count < no_pos
      → SortedKeys right right_count
      → intersect_one flags cmp read size keyoffset visit left right right_count v
        ≡ visit_all visit (both left 1 right right_count) v
  unfolding intersect_one
  one-visit_all left right right_count v small sorted =
      let s = searched right right_count (read (left + keyoffset)) small sorted in
      rw (intersect_one, s.given, s.no_failure, s.given, s.cut.here) (go s.found)
    where
      go :
          (found : Bool)
          → elim found [ true ↦ and_then (visit v left) (λ v'. (true, v')) | false ↦ (true, v) ]
            ≡ visit_all visit (if found then left ∷ [] else []) v
      go true = refl
      go false = refl

  module _ (start : keyoffset ≡ 0) where
    -- What a call on fewer elements does.
    abbrev Meets : (ℕ → ℕ → ℕ → ℕ → V → Bool × V) → ℕ → Type κ
    Meets again rounds =
        (left left_count right right_count : ℕ) (v : V)
        → left_count ≤ rounds
        → right_count < no_pos
        → SortedKeys left left_count
        → SortedKeys right right_count
        → again left left_count right right_count v
          ≡ visit_all visit (both left left_count right right_count) v

    module _ (again : ℕ → ℕ → ℕ → ℕ → V → Bool × V) (rounds : ℕ) (meets : Meets again rounds)
        (left left_count right right_count : ℕ) (bounded : left_count ≤ suc rounds)
        (small : right_count < no_pos) (left_sorted : SortedKeys left left_count)
        (right_sorted : SortedKeys right right_count) where
      right_visits :
          (median idx : ℕ) (v : V)
          → 0 < median
          → median ≤ left_count
          → idx ≤ right_count
          → right_part flags cmp read size keyoffset visit again left left_count right right_count
              median idx v
            ≡ visit_all visit
                (both
                  (left + median * size)
                  (left_count - median)
                  (right + idx * size)
                  (right_count - idx))
                v
      unfolding right_part
      right_visits median idx v past inside within = elim (Bool-cases (ltb idx right_count)) [
        | inl more ↦
            let place : left + median * size + keyoffset ≡ left + median * size =
              omega (arith, start) in
            let place' : right + idx * size + keyoffset ≡ right + idx * size =
              omega (arith, start) in
            let all : median + (left_count - median) ≡ left_count = omega (arith, inside) in
            let all' : idx + (right_count - idx) ≡ right_count = omega (arith, within) in
            rw (right_part, more, place, place')
              (meets (left + median * size) (left_count - median) (right + idx * size)
                (right_count - idx) v (omega (arith, past, bounded)) (omega (arith, small))
                (IsSorted-shift cmp read size keyoffset left median (left_count - median)
                  (subst (SortedKeys left) (sym all) left_sorted))
                (IsSorted-shift cmp read size keyoffset right idx (right_count - idx)
                  (subst (SortedKeys right) (sym all') right_sorted)))
        | inr no_more ↦
            let nothing : right_count - idx ≡ 0 = ground (arith, no_more, within) in
            rw
              (
                right_part,
                no_more,
                nothing,
                common_none cmp read size keyoffset (left + median * size) (left_count - median)
                    (right + idx * size),
              )
              refl
      ]

      left_visits :
          (median idx : ℕ) (v : V)
          → median < left_count
          → idx ≤ right_count
          → left_part flags cmp read size keyoffset visit again left right median idx v
            ≡ visit_all visit (both left median right idx) v
      unfolding left_part
      left_visits median idx v inside within = elim (Bool-cases (ltb 0 median)) [
        | inr nothing ↦
            let e : median ≡ 0 = ground (arith, nothing) in rw (left_part, nothing, e) refl
        | inl some_left ↦ elim (Bool-cases (ltb 0 idx)) [
          | inr nothing ↦
              let e : idx ≡ 0 = ground (arith, nothing) in
              rw
                (
                  left_part,
                  some_left,
                  nothing,
                  e,
                  common_none cmp read size keyoffset left median right,
                )
                refl
          | inl some_right ↦
              rw (left_part, some_left, some_right)
                (meets left median right idx v (omega (arith, inside, bounded))
                  (omega (arith, within, small))
                  (λ i j lt b. left_sorted i j lt (omega (arith, b, inside)))
                  (λ i j lt b. right_sorted i j lt (omega (arith, b, within))))
        ]
      ]

      past_visits :
          (median idx : ℕ) (v : V)
          → 0 < median
          → median ≤ left_count
          → idx ≤ right_count
          → past_match flags cmp read size keyoffset visit again left left_count right right_count
              median idx v
            ≡ visit_all visit
                (both
                  (left + median * size)
                  (left_count - median)
                  (right + idx * size)
                  (right_count - idx))
                v
      unfolding past_match
      past_visits median idx v past inside within = elim (Bool-cases (median == left_count - 1)) [
        | inr other ↦ rw (past_match, other) (right_visits median idx v past inside within)
        | inl last ↦
            let one : left_count - median ≡ 1 = omega (arith, ==→eq _ _ last, past, inside) in
            elim (Bool-cases (ltb idx right_count)) [
              | inl more ↦
                  let all : idx + (right_count - idx) ≡ right_count = omega (arith, within) in
                  rw (past_match, last, more, one)
                    (one-visit_all (left + median * size) (right + idx * size) (right_count - idx) v
                      (omega (arith, small))
                      (IsSorted-shift cmp read size keyoffset right idx (right_count - idx)
                        (subst (SortedKeys right) (sym all) right_sorted)))
              | inr no_more ↦
                  let nothing : right_count - idx ≡ 0 = ground (arith, no_more, within) in
                  rw
                    (
                      past_match,
                      last,
                      no_more,
                      nothing,
                      common_none cmp read size keyoffset (left + median * size)
                          (left_count - median) (right + idx * size),
                    )
                    refl
            ]
      ]

      median_visits :
          (median idx : ℕ) (found : Bool) (v : V)
          → median < left_count
          → (if found then idx + 1 else idx) ≤ right_count
          → let high = if found then idx + 1 else idx in
            from_median flags cmp read size keyoffset visit again left left_count right right_count
              median idx found v
            ≡ visit_all visit
                ((if found then (left + median * size) ∷ [] else [])
                  ++ both
                      (left + (median + 1) * size)
                      (left_count - (median + 1))
                      (right + high * size)
                      (right_count - high))
                v
      unfolding from_median
      median_visits median idx true v inside within =
          and_then_same (visit v (left + median * size)) _ _ (λ v'.
            past_visits (median + 1) (idx + 1) v' (omega arith) (omega (arith, inside)) within)
      median_visits median idx false v inside within =
          right_visits (median + 1) idx v (omega arith) (omega (arith, inside)) within

      many_visits :
          (v : V)
          → 0 < left_count
          → intersect_many flags cmp read size keyoffset visit again left left_count right
              right_count v
            ≡ visit_all visit (both left left_count right right_count) v
      unfolding intersect_many
      many_visits v some_left =
          let median = left_count / 2 in
          let inside : median < left_count = omega (arith, some_left) in
          let s = searched right right_count (keys left median) small right_sorted in
          let lower : s.idx ≤ right_count = omega (arith, s.cut.low_high, s.cut.within) in
          let high = if s.found then s.idx + 1 else s.idx in
          let rest =
            (if s.found then (left + median * size) ∷ [] else [])
            ++ both (left + (median + 1) * size) (left_count - (median + 1)) (right + high * size)
                (right_count - high) in
          rw (intersect_many, s.given, s.no_failure, s.given)
            (ap
                (λ r. and_then r (
                  from_median flags cmp read size keyoffset visit again left left_count right
                    right_count median s.idx s.found))
                (left_visits median s.idx v inside lower)
              ∙ and_then_same (visit_all visit (both left median right s.idx) v) _
                  (visit_all visit rest)
                  (λ v'. median_visits median s.idx s.found v' inside s.cut.within)
              ∙ sym (visit_all-append visit (both left median right s.idx) rest v)
              ∙ ap (λ xs. visit_all visit xs v)
                  (sym (
                    common-cut cmp read size keyoffset left left_count right right_count median
                      s.idx high s.found inside left_sorted s.cut)))

    -- Under a total order, for arrays with ascending keys and with the key at the start of the element,
    -- the intersection does what visiting, in order, each element of the left array whose key is in
    -- the right one does, until the visitor ends it; as many rounds as left elements are enough.
    pub kit_sortedarray_intersect-visit_all :
        (rounds left left_count right right_count : ℕ) (v : V)
        → left_count ≤ rounds
        → right_count < no_pos
        → IsSorted cmp (key_of_index cmp read size keyoffset left) left_count
        → IsSorted cmp (key_of_index cmp read size keyoffset right) right_count
        → kit_sortedarray_intersect flags cmp read size keyoffset visit rounds left left_count right
            right_count v
          ≡ visit_all visit (common cmp read size keyoffset left left_count right right_count) v
    unfolding kit_sortedarray_intersect
    kit_sortedarray_intersect-visit_all zero left left_count right right_count v bounded small ls
          rs =
        let e : left_count ≡ 0 = omega (arith, bounded) in rw e refl
    kit_sortedarray_intersect-visit_all (suc rounds) left left_count right right_count v bounded
          small ls rs =
        elim (Bool-cases (left_count == 0)) [
          | inl h ↦ let e = ==→eq left_count 0 h in rw (kit_sortedarray_intersect, h, e) refl
          | inr some_left ↦ elim (Bool-cases (right_count == 0)) [
            | inl h ↦
                let e = ==→eq right_count 0 h in
                rw
                  (
                    kit_sortedarray_intersect,
                    some_left,
                    h,
                    e,
                    common_none cmp read size keyoffset left left_count right,
                  )
                  refl
            | inr some_right ↦ elim (Bool-cases (left_count == 1)) [
              | inl h ↦
                  let e = ==→eq left_count 1 h in
                  rw (kit_sortedarray_intersect, some_left, some_right, h, e)
                    (one-visit_all left right right_count v small rs)
              | inr more ↦
                  let again =
                    kit_sortedarray_intersect flags cmp read size keyoffset visit rounds in
                  rw (kit_sortedarray_intersect, some_left, some_right, more)
                    (many_visits again rounds (kit_sortedarray_intersect-visit_all rounds) left
                      left_count right right_count bounded small ls rs v
                      (ground (arith, some_left)))
            ]
          ]
        ]
