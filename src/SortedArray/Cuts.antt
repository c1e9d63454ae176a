-- ===== src/SortedArray/Cuts.antt =====
-- How a key cuts the arrays that `kit_sortedarray_intersect` of lib-kit/kit-sortedarray.c is given.
use libkit.Common.{
  ℕ, ◌+◌, ◌-◌, ◌*◌, ◌≤◌, ◌<◌, Bool, true, false, if◌then◌else◌, List, [], ◌∷◌, ◌++◌, ◌≡◌, ◌≢◌, ◌⊎◌,
  inl, inr, refl, sym, ◌∙◌, ap, arith,
}
use native.Mathlib.Decide.{dec_lt}
use libkit.SortedArray.Defs.{Cmp, less, equal, greater}
use libkit.SortedArray.Order.{IsOrder, IsSorted, flip, less_above_equal, greater_below_equal}
use libkit.SortedArray.Find.{Locates}
use libkit.SortedArray.Matching.{
  contains, contains_not, contains_at, contains_same, key_of_index, common, if_true, contains-split,
  passing, passing-split, passing_same, passing_none,
}

-- The key `k` cuts the keys in two: those before `low`, and those from `high` on; `found` says whether
-- it is between them.
pub record Cut {ℓ} {K : Type ℓ} (cmp : K → K → Cmp) (keys : ℕ → K) (count : ℕ) (k : K)
    (low high : ℕ) (found : Bool) : Type ℓ where
  pub low_high : low ≤ high
  pub within : high ≤ count
  pub lesser :
      (key : K) → cmp key k ≡ less → (j : ℕ) → low ≤ j → j < count → cmp key (keys j) ≢ equal
  pub larger : (key : K) → cmp k key ≡ less → (j : ℕ) → j < high → cmp key (keys j) ≢ equal
  pub here : contains cmp keys count k ≡ found

module _ {ℓ} {K : Type ℓ} {cmp : K → K → Cmp} (o : IsOrder cmp) (keys : ℕ → K) (count : ℕ) (k : K)
    (sorted : IsSorted cmp keys count) where
  lesser_by :
      (key r : K) → cmp key k ≡ less → (cmp k r ≡ less) ⊎ (cmp k r ≡ equal) → cmp key r ≢ equal
  lesser_by key r e (inl f) same = absurd (cc (o.trans key k r e f, same))
  lesser_by key r e (inr f) same =
      let turned : cmp r key ≡ greater = sym (o.congr k r key f) ∙ o.flips key k ∙ ap flip e in
      let back : cmp r key ≡ equal = o.flips key r ∙ ap flip same in absurd (cc (turned, back))

  larger_by :
      (key r : K) → cmp k key ≡ less → (cmp k r ≡ greater) ⊎ (cmp k r ≡ equal) → cmp key r ≢ equal
  larger_by key r e (inl f) same =
      let below : cmp r k ≡ less = o.flips k r ∙ ap flip f in
      let lower : cmp r key ≡ less = o.trans r k key below e in
      let back : cmp r key ≡ equal = o.flips key r ∙ ap flip same in absurd (cc (lower, back))
  larger_by key r e (inr f) same =
      let lower : cmp r key ≡ less = sym (o.congr k r key f) ∙ e in
      let back : cmp r key ≡ equal = o.flips key r ∙ ap flip same in absurd (cc (lower, back))

  pub Cut-Locates :
      (idx : ℕ) (found : Bool)
      → Locates cmp keys count k (idx, found)
      → Cut cmp keys count k idx (if found then idx + 1 else idx) found
  Cut-Locates idx true (below, same) = record {
    low_high = omega arith;
    within = omega (arith, below);
    lesser = λ key e j from upto. lesser_by key (keys j) e (elim (dec_lt idx j) [
      | yes lt ↦ inl (less_above_equal o keys count k sorted idx j lt upto same)
      | no ge ↦ inr (let at_idx : j ≡ idx = omega (arith, from, ge) in rw at_idx same)
    ]);
    larger = λ key e j upto. larger_by key (keys j) e (elim (dec_lt j idx) [
      | yes lt ↦ inl (greater_below_equal o keys count k sorted j idx lt below same)
      | no ge ↦ inr (let at_idx : j ≡ idx = omega (arith, upto, ge) in rw at_idx same)
    ]);
    here = contains_at cmp keys count k idx below same;
  }
  Cut-Locates idx false (within, below, above) = record {
    low_high = omega arith;
    within = within;
    lesser = λ key e j from upto. lesser_by key (keys j) e (inl (above j from upto));
    larger = λ key e j upto. larger_by key (keys j) e (inl (below j upto));
    here = contains_not cmp keys count k (λ i b same. elim (dec_lt i idx) [
      | yes lt ↦ absurd (cc (below i lt, same))
      | no ge ↦ absurd (cc (above i (omega (arith, ge)) b, same))
    ]);
  }

module _ {ℓ} {K : Type ℓ} (cmp : K → K → Cmp) (read : ℕ → K) (size keyoffset : ℕ) where
  abbrev pub keys_of : ℕ → ℕ → K
  keys_of array i = key_of_index cmp read size keyoffset array i

  abbrev pub shared : ℕ → ℕ → ℕ → ℕ → List ℕ
  shared left left_count right right_count =
      common cmp read size keyoffset left left_count right right_count

  shift :
      (array m j : ℕ) → array + m * size + j * size + keyoffset ≡ array + (m + j) * size + keyoffset
  shift array m j = omega arith

  pub IsSorted-shift :
      (array m count : ℕ)
      → IsSorted cmp (keys_of array) (m + count)
      → IsSorted cmp (keys_of (array + m * size)) count
  IsSorted-shift array m count h i j less_than below =
      rw (shift array m i, shift array m j) (h (m + i) (m + j) (omega arith) (omega arith))

  pub common_none : (left n right : ℕ) → shared left n right 0 ≡ []
  common_none left n right = passing_none size (λ a. false) n left (λ i b. refl)

  module _ (left left_count right right_count median low high : ℕ) (found : Bool)
      (inside : median < left_count) (sorted : IsSorted cmp (keys_of left) left_count)
      (cut : Cut cmp (keys_of right) right_count (keys_of left median) low high found) where
    abbrev after_median : ℕ
    after_median = left + (median + 1) * size

    abbrev left_over : ℕ
    left_over = left_count - (median + 1)

    before : shared left median right right_count ≡ shared left median right low
    before = passing_same size _ _ median left (λ i b.
        let key = keys_of left i in
        let split = contains-split cmp (keys_of right) low (right_count - low) key in
        let all : low + (right_count - low) ≡ right_count =
          omega (arith, cut.low_high, cut.within) in
        let none_after =
          contains_not cmp (λ j. keys_of right (low + j)) (right_count - low) key
            (λ j upto.
              cut.lesser key (sorted i median b inside) (low + j) (omega arith)
                (omega (arith, upto, all))) in
        ap (λ n. contains cmp (keys_of right) n key) (sym all) ∙ split ∙ rw none_after refl)

    after :
        shared after_median left_over right right_count
        ≡ shared after_median left_over (right + high * size) (right_count - high)
    after = passing_same size _ _ left_over after_median (λ i b.
        let key = keys_of left (median + 1 + i) in
        let same_key : read (after_median + i * size + keyoffset) ≡ key =
          ap read (shift left (median + 1) i) in
        let split = contains-split cmp (keys_of right) high (right_count - high) key in
        let all : high + (right_count - high) ≡ right_count = omega (arith, cut.within) in
        let larger_key = sorted median (median + 1 + i) (omega arith) (omega (arith, b, inside)) in
        let none_before = contains_not cmp (keys_of right) high key (cut.larger key larger_key) in
        let moved =
          contains_same cmp (λ j. keys_of right (high + j)) (keys_of (right + high * size))
            (right_count - high) key (λ j. ap read (sym (shift right high j))) in
        rw same_key (
          ap (λ n. contains cmp (keys_of right) n key) (sym all)
          ∙ split
          ∙ rw none_before
              (if_true (contains cmp (λ j. keys_of right (high + j)) (right_count - high) key))
          ∙ moved))

    -- The elements before the median, the median, and those after it.
    pub common-cut :
        shared left left_count right right_count
        ≡ shared left median right low
          ++ ((if found then (left + median * size) ∷ [] else [])
              ++ shared after_median left_over (right + high * size) (right_count - high))
    common-cut =
        let test : ℕ → Bool =
          λ a. contains cmp (keys_of right) right_count (read (a + keyoffset)) in
        let total : left_count ≡ median + (1 + left_over) = omega (arith, inside) in
        let next : left + median * size + 1 * size ≡ after_median = omega arith in
        ap (λ n. shared left n right right_count) total
        ∙ passing-split size test median (1 + left_over) left
        ∙ ap (λ xs. xs ++ passing test size (1 + left_over) (left + median * size)) before
        ∙ ap (λ xs. shared left median right low ++ xs)
            (passing-split size test 1 left_over (left + median * size)
              ∙ rw (cut.here, next)
                  (ap (λ xs. (if found then (left + median * size) ∷ [] else []) ++ xs) after))
