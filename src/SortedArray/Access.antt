-- ===== src/SortedArray/Access.antt =====
-- `kit_sortedarray_get_elem` and `kit_sortedarray_delete_elem` of lib-kit/kit-sortedarray.c.
use libkit.Common.{
  ℕ, ◌+◌, ◌-◌, ◌≤◌, ◌<◌, Bool, true, false, Option, none, some, ◌≡◌, ◌≢◌, ◌⊎◌, inl, inr, refl, ap,
  ◌∙◌, ◌==◌, if◌then◌else◌, Bool-cases, arith, not, ◌||◌,
}
use native.Mathlib.Decide.{dec_lt}
use libkit.SortedArray.Defs.{
  Cmp, equal, Flags, SortedArray, keys, kit_sortedarray_find_key, move_slots,
  kit_sortedarray_get_elem, kit_sortedarray_delete_elem,
}
use libkit.SortedArray.Order.{IsOrder, IsSorted}
use libkit.SortedArray.Find.{Locates, find_key-Locates}
use libkit.SortedArray.Insert.{IsValid}

module _ {ℓ κ} {K : Type κ} {E : Type ℓ} (flags : Flags) {cmp : K → K → Cmp} (o : IsOrder cmp)
    (key_of : E → K) (a : SortedArray E) (v : IsValid flags o key_of a) (key : K) where
  -- No element of the array has the key.
  abbrev pub Absent : Type 0
  Absent = (i : ℕ) → i < a.count → cmp key (key_of (a.slots i)) ≢ equal

  -- Slot `pos` has the key.
  abbrev pub Holds : ℕ → Type 0
  Holds pos = (pos < a.count) × (cmp key (key_of (a.slots pos)) ≡ equal)

  abbrev search : ℕ × Bool
  search = kit_sortedarray_find_key flags cmp (keys flags cmp key_of a) a.count key

  search-Locates : Locates cmp (keys flags cmp key_of a) a.count key search
  search-Locates = find_key-Locates flags o (keys flags cmp key_of a) a.count key v.sorted

  found-Holds : (pos : ℕ) → search ≡ (pos, true) → Holds pos
  found-Holds pos e = rw e at search-Locates

  missed-Absent : (pos : ℕ) → search ≡ (pos, false) → Absent
  missed-Absent pos e i b h =
      let (within, below, above) = rw e at search-Locates in
      elim (dec_lt i pos) [ yes low ↦ cc (below i low) | no high ↦ cc (above i (omega arith) b) ]

  empty-Absent : a.count ≡ 0 → Absent
  empty-Absent e i b h = omega arith

  -- The two ways in which a search ends.
  search-cases : ((pos : ℕ) × (search ≡ (pos, true))) ⊎ ((pos : ℕ) × (search ≡ (pos, false)))
  search-cases = go search refl
    where
      go :
          (r : ℕ × Bool)
          → search ≡ r
          → ((pos : ℕ) × (search ≡ (pos, true))) ⊎ ((pos : ℕ) × (search ≡ (pos, false)))
      go (pos, true) e = inl (pos, e)
      go (pos, false) e = inr (pos, e)

  -- The slot of the element with the key, or none where there is no such element.
  abbrev pub Looked : Option ℕ → Type 0
  Looked (some pos) = Holds pos
  Looked none = Absent

  get_run :
      (pos : ℕ) (found : Bool)
      → (if a.allocated then search else (a.count, false)) ≡ (pos, found)
      → kit_sortedarray_get_elem flags cmp key_of a key ≡ (if found then some pos else none)
  unfolding kit_sortedarray_get_elem
  get_run pos found e = rw e

  choose : a.allocated ≡ true → (if a.allocated then search else (a.count, false)) ≡ search
  choose h = simp h

  -- In a valid array a lookup returns the slot of the element with the key, and none exactly where no
  -- element has it.
  pub get_elem-Looked : Looked (kit_sortedarray_get_elem flags cmp key_of a key)
  get_elem-Looked = elim (Bool-cases a.allocated) [
    | inr h ↦ rw (get_run a.count false (simp h)) (empty-Absent (v.backed h))
    | inl h ↦ elim search-cases [
      | inl (pos, e) ↦ rw (get_run pos true (choose h ∙ e)) (found-Holds pos e)
      | inr (pos, e) ↦ rw (get_run pos false (choose h ∙ e)) (missed-Absent pos e)
    ]
  ]

  -- The array without slot `pos`: the elements above it move down one slot.
  pub record Deleted (pos : ℕ) (a' : SortedArray E) : Type ℓ where
    pub held : Holds pos
    pub count : a'.count + 1 ≡ a.count
    pub before : (i : ℕ) → i < pos → a'.slots i ≡ a.slots i
    pub after : (i : ℕ) → pos ≤ i → i < a'.count → a'.slots i ≡ a.slots (i + 1)
    pub valid : IsValid flags o key_of a'

  -- The outcome of a deletion.
  abbrev pub Removed : Bool × SortedArray E → Type ℓ
  Removed (true, a') = (pos : ℕ) × Deleted pos a'
  Removed (false, a') = (a' ≡ a) × Absent

  abbrev closed_up : ℕ → SortedArray E
  closed_up pos = record a {
    slots = move_slots a.slots pos (pos + 1) (a.count - pos - 1);
    count = a.count - 1;
  }

  closed_up-below : (pos i : ℕ) → i < pos → (closed_up pos).slots i ≡ a.slots i
  closed_up-below pos i h = ground arith

  closed_up-above :
      (pos i : ℕ) → pos ≤ i → i < a.count - 1 → (closed_up pos).slots i ≡ a.slots (i + 1)
  closed_up-above pos i h b =
      let same : pos + 1 + (i - pos) ≡ i + 1 = omega arith in
      ground (arith, ap (λ n. a.slots n) same)

  closed_up-IsSorted :
      (pos : ℕ) → pos < a.count → IsSorted cmp (λ i. key_of ((closed_up pos).slots i)) (a.count - 1)
  closed_up-IsSorted pos h i j lt b = elim (dec_lt j pos) [
    | yes low ↦
        rw (closed_up-below pos i (omega arith), closed_up-below pos j low)
          (v.sorted i j lt (omega arith))
    | no high ↦ elim (dec_lt i pos) [
      | yes under ↦
          rw (closed_up-below pos i under, closed_up-above pos j (omega arith) b)
            (v.sorted i (j + 1) (omega arith) (omega arith))
      | no over ↦
          rw
            (
              closed_up-above pos i (omega arith) (omega arith),
              closed_up-above pos j (omega arith) b,
            )
            (v.sorted (i + 1) (j + 1) (omega arith) (omega arith))
    ]
  ]

  closed_up-Deleted : (pos : ℕ) → Holds pos → Deleted pos (closed_up pos)
  closed_up-Deleted pos h = record {
    held = h;
    count = omega arith;
    before = λ i k. closed_up-below pos i k;
    after = λ i k b. closed_up-above pos i k b;
    valid = record {
      sorted = closed_up-IsSorted pos h.0;
      fits = omega (arith, v.fits);
      small = v.small;
      backed = λ e. omega (arith, v.backed e);
    };
  }

  delete_run :
      (pos : ℕ) (found : Bool)
      → (not a.allocated || (a.count == 0)) ≡ false
      → search ≡ (pos, found)
      → kit_sortedarray_delete_elem flags cmp key_of a key
        ≡ (if found then (true, closed_up pos) else (false, a))
  unfolding kit_sortedarray_delete_elem
  delete_run pos found h e = simp (h, e)

  delete_nothing :
      (not a.allocated || (a.count == 0)) ≡ true
      → kit_sortedarray_delete_elem flags cmp key_of a key ≡ (false, a)
  unfolding kit_sortedarray_delete_elem
  delete_nothing h = simp h

  no_elements : (not a.allocated || (a.count == 0)) ≡ true → a.count ≡ 0
  no_elements h = ground (arith, v.backed)

  -- In a valid array a deletion either takes the element with the key out, moves those above it down
  -- one slot and leaves the array valid, or leaves the array as it is, and no element has the key.
  pub delete_elem-Removed : Removed (kit_sortedarray_delete_elem flags cmp key_of a key)
  delete_elem-Removed = elim (Bool-cases (not a.allocated || (a.count == 0))) [
    | inl h ↦ rw (delete_nothing h) (refl, empty-Absent (no_elements h))
    | inr h ↦ elim search-cases [
      | inl (pos, e) ↦ rw (delete_run pos true h e) (pos, closed_up-Deleted pos (found-Holds pos e))
      | inr (pos, e) ↦ rw (delete_run pos false h e) (refl, missed-Absent pos e)
    ]
  ]
