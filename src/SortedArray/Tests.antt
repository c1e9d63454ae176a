-- ===== src/SortedArray/Tests.antt =====
-- Runs of the sorted array on numbers, and its theorems at arrays that meet their hypotheses.
use libkit.Common.{
  ℕ, ◌-◌, ◌*◌, Bool, List, [], ◌∷◌, not, ◌+◌, ◌≤◌, true, false, none, some, ◌≡◌, refl, arith, ltb,
  ◌==◌, if◌then◌else◌,
}
use libkit.SortedArray.Defs.{
  Cmp, less, equal, greater, int_max, Flags, SortedArray, kit_sortedarray_find_key, find_loop,
  no_pos, place, growth, insert_at, kit_sortedarray_add_elem, kit_sortedarray_get_elem,
  kit_sortedarray_delete_elem,
}
use libkit.SortedArray.Order.{IsOrder}
use libkit.SortedArray.Find.{Locates, find_key-Locates}
use libkit.SortedArray.Insert.{IsValid, Outcome, add_elem-Outcome}
use libkit.SortedArray.Access.{Looked, Removed, get_elem-Looked, delete_elem-Removed}
use libkit.SortedArray.Intersect.{
  intersect_one, left_part, right_part, past_match, from_median, intersect_many,
  kit_sortedarray_intersect,
}
use libkit.SortedArray.Matching.{common, visit_all}
use libkit.SortedArray.Intersected.{kit_sortedarray_intersect-visit_all}
use libkit.SortedArray.Failure.{add_elem-failing}

program : Unit {0}
unfolding find_loop kit_sortedarray_find_key place growth insert_at kit_sortedarray_add_elem
    kit_sortedarray_get_elem kit_sortedarray_delete_elem intersect_one left_part right_part
    past_match from_median intersect_many kit_sortedarray_intersect
program = tt

abbrev nat_cmp : ℕ → ℕ → Cmp
nat_cmp a b = if ltb a b then less else if a == b then equal else greater

nat_order : IsOrder nat_cmp
nat_order = record {
  never_fails = λ a b h. ground arith;
  flips = λ a b. ground arith;
  trans = λ a b c p q. ground arith;
  congr = λ a b c p. ground arith;
}

abbrev growing : Flags
growing = record {
  allow_inserts = true;
  allow_growth = true;
  zero_copy = false;
  cmp_can_fail = false;
}

-- 2, 4, 6, 8 in four slots
abbrev evens : SortedArray ℕ
evens = record { allocated = true; count = 4; alloc = 4; slots = λ i. i + i + 2 }

evens-IsValid : IsValid growing nat_order (λ e. e) evens
evens-IsValid = record {
  sorted = λ i j h b. ground arith;
  fits = omega arith;
  small = omega arith;
  backed = λ h. cc;
}

find_hit : kit_sortedarray_find_key growing nat_cmp (evens.slots) 4 6 ≡ (2, true)
unfolding program
find_hit = refl

find_gap : kit_sortedarray_find_key growing nat_cmp (evens.slots) 4 5 ≡ (2, false)
unfolding program
find_gap = refl

-- 5 goes between 4 and 6, and the array grows.
add_middle :
    let (slot, a) = kit_sortedarray_add_elem growing nat_cmp (λ e. e) true evens 5 in
    (slot ≡ some 2)
    × (a.slots 1 ≡ 4)
    × (a.slots 2 ≡ 5)
    × (a.slots 3 ≡ 6)
    × (a.slots 4 ≡ 8)
    × (a.alloc ≡ 14)
unfolding program
add_middle = (refl, refl, refl, refl, refl, refl)

add_duplicate : kit_sortedarray_add_elem growing nat_cmp (λ e. e) true evens 6 ≡ (none, evens)
unfolding program
add_duplicate = refl

find_key-Locates_example :
    Locates nat_cmp (evens.slots) 4 5 (kit_sortedarray_find_key growing nat_cmp (evens.slots) 4 5)
find_key-Locates_example =
    find_key-Locates growing nat_order (evens.slots) 4 5 (evens-IsValid.sorted)

add_elem-Outcome_example :
    Outcome growing nat_order
      (λ e. e)
      evens
      5
      (kit_sortedarray_add_elem growing nat_cmp (λ e. e) true evens 5)
add_elem-Outcome_example =
    add_elem-Outcome growing nat_order (λ e. e) refl evens evens-IsValid 5 true (omega arith)

get_elem-Looked_example :
    Looked growing nat_order
      (λ e. e)
      evens
      evens-IsValid
      6
      (kit_sortedarray_get_elem growing nat_cmp (λ e. e) evens 6)
get_elem-Looked_example = get_elem-Looked growing nat_order (λ e. e) evens evens-IsValid 6

delete_elem-Removed_example :
    Removed growing nat_order
      (λ e. e)
      evens
      evens-IsValid
      4
      (kit_sortedarray_delete_elem growing nat_cmp (λ e. e) evens 4)
delete_elem-Removed_example = delete_elem-Removed growing nat_order (λ e. e) evens evens-IsValid 4

-- A class whose comparisons all fail, and an array with a free slot.
abbrev failing : Flags
failing = record {
  allow_inserts = true;
  allow_growth = true;
  zero_copy = false;
  cmp_can_fail = true;
}

abbrev roomy : SortedArray ℕ
roomy = record { allocated = true; count = 1; alloc = 4; slots = λ i. 7 }

add_elem-failing_example :
    let (slot, a) = kit_sortedarray_add_elem failing (λ _ _. int_max) (λ (e : ℕ). e) true roomy 9 in
    (slot ≡ some no_pos) × (a.slots no_pos ≡ 9) × (a.count ≡ 2) × (a.alloc ≤ no_pos)
add_elem-failing_example =
    add_elem-failing failing (λ _ _. int_max) (λ (e : ℕ). e) roomy 9 refl refl refl (omega arith)
      (omega arith) (omega arith) refl refl refl

-- Elements of two bytes: 0, 2, 4 and so on from address 0, and 0, 6, 12, 18 from address 100.
abbrev at_address : ℕ → ℕ
at_address a = if ltb a 100 then a else (a - 100) * 3

-- The visitor notes what it sees, and ends it at 6.
abbrev note : List ℕ → ℕ → Bool × List ℕ
note seen a = (not (a == 6), a ∷ seen)

abbrev note_all : List ℕ → ℕ → Bool × List ℕ
note_all seen a = (true, a ∷ seen)

kit_sortedarray_intersect-visit_all_example :
    kit_sortedarray_intersect growing nat_cmp at_address 2 0 note 9 0 7 100 4 []
    ≡ visit_all note (common nat_cmp at_address 2 0 0 7 100 4) []
kit_sortedarray_intersect-visit_all_example =
    kit_sortedarray_intersect-visit_all growing nat_order at_address 2 0 note refl 9 0 7 100 4 []
      (omega arith) (omega arith) (λ i j lt b. ground arith) (λ i j lt b. ground arith)

intersect_all :
    kit_sortedarray_intersect growing nat_cmp at_address 2 0 note_all 9 0 7 100 4 []
    ≡ (true, 12 ∷ 6 ∷ 0 ∷ [])
unfolding program
intersect_all = refl

intersect_ended :
    kit_sortedarray_intersect growing nat_cmp at_address 2 0 note 9 0 7 100 4 []
    ≡ (false, 6 ∷ 0 ∷ [])
unfolding program
intersect_ended = refl

-- The same arrays with a byte before each key: elements past the median are missed.
abbrev with_offset : ℕ → ℕ
with_offset a = at_address (a - 1)

intersect_offset :
    kit_sortedarray_intersect growing nat_cmp with_offset 2 1 note_all 9 0 7 100 4 []
    ≡ (true, 6 ∷ 0 ∷ [])
unfolding program
intersect_offset = refl
