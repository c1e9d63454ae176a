-- ===== src/SortedArray/Insert.antt =====
-- `kit_sortedarray_add_elem` of lib-kit/kit-sortedarray.c keeps the array in order.
use libkit.Common.{
  ℕ, ◌+◌, ◌-◌, ◌/◌, ◌^◌, ◌≤◌, ◌<◌, Bool, true, false, Option, none, some, ◌≡◌, ◌⊎◌, inl, inr, refl,
  sym, ap, ◌∙◌, u32, ◌==◌, if◌then◌else◌, Bool-cases, Option-cases, arith, not, ◌||◌,
}
use mathlib.Core.Path.{subst}
use native.Mathlib.Decide.{dec_lt}
use libkit.SortedArray.Defs.{
  Cmp, less, Flags, SortedArray, keys, kit_sortedarray_find_key, place, growth, insert_at,
  kit_sortedarray_add_elem,
}
use libkit.SortedArray.Order.{IsOrder, IsSorted, flip, greater_upto}
use libkit.SortedArray.Find.{find_key-Locates}

module _ {ℓ κ} {K : Type κ} {E : Type ℓ} (flags : Flags) {cmp : K → K → Cmp} (o : IsOrder cmp)
    (key_of : E → K) where
  -- The array is in order, its elements fit its slots, and it is allocated if it has any.
  pub record IsValid (a : SortedArray E) : Type 0 where
    pub sorted : IsSorted cmp (λ i. key_of (a.slots i)) a.count
    pub fits : a.count ≤ a.alloc
    pub small : a.alloc < 2 ^ 32
    pub backed : a.allocated ≡ false → a.count ≡ 0

  -- A key belongs between the slots below `pos` and those from it on.
  abbrev pub Belongs : SortedArray E → K → ℕ → Type 0
  Belongs a key pos =
      (pos ≤ a.count)
      × ((i : ℕ) → i < pos → cmp (key_of (a.slots i)) key ≡ less)
      × ((i : ℕ) → pos ≤ i → i < a.count → cmp key (key_of (a.slots i)) ≡ less)

  -- The array with the element in slot `pos`, and the elements from there on one slot up.
  pub record Inserted (a : SortedArray E) (element : E) (pos : ℕ) (a' : SortedArray E)
      : Type ℓ where
    pub count : a'.count ≡ a.count + 1
    pub placed : a'.slots pos ≡ element
    pub before : (i : ℕ) → i < pos → a'.slots i ≡ a.slots i
    pub after : (i : ℕ) → pos ≤ i → i < a.count → a'.slots (i + 1) ≡ a.slots i

  found-Belongs :
      (a : SortedArray E) (key : K)
      → IsSorted cmp (keys flags cmp key_of a) a.count
      → (pos : ℕ)
      → kit_sortedarray_find_key flags cmp (keys flags cmp key_of a) a.count key ≡ (pos, false)
      → Belongs a key pos
  found-Belongs a key sorted pos e =
      let l = find_key-Locates flags o (keys flags cmp key_of a) a.count key sorted in
      let (within, below, above) = rw e at l in
      (within, λ i h. o.flips key (key_of (a.slots i)) ∙ ap flip (below i h), above)

  last-Belongs :
      (a : SortedArray E) (key : K)
      → IsSorted cmp (keys flags cmp key_of a) a.count
      → cmp (keys flags cmp key_of a (a.count - 1)) key ≡ less
      → Belongs a key a.count
  last-Belongs a key sorted e = (
    omega arith,
    λ i h.
        o.flips key (key_of (a.slots i))
        ∙ ap flip (
            greater_upto o (keys flags cmp key_of a) a.count key sorted i (a.count - 1)
              (omega arith) (omega arith)
              (o.flips (key_of (a.slots (a.count - 1))) key ∙ ap flip e)),
    λ i h b. absurd (omega arith),
  )

  place-cases :
      (a : SortedArray E) (key : K) (pos : ℕ)
      → place flags cmp key_of a key ≡ some pos
      → ((a.count ≡ 0) × (pos ≡ 0))
        ⊎ (((cmp (keys flags cmp key_of a (a.count - 1)) key ≡ less) × (pos ≡ a.count))
            ⊎ (kit_sortedarray_find_key flags cmp (keys flags cmp key_of a) a.count key
                ≡ (pos, false)))
  unfolding place
  place-cases a key pos e = ground arith

  -- Where `place` sends a key, it belongs.
  place-Belongs :
      (a : SortedArray E) (key : K) (pos : ℕ)
      → IsSorted cmp (keys flags cmp key_of a) a.count
      → place flags cmp key_of a key ≡ some pos
      → Belongs a key pos
  place-Belongs a key pos sorted e = elim (place-cases a key pos e) [
    | inl (none_yet, first) ↦
        (omega arith, λ i h. absurd (omega arith), λ i h b. absurd (omega arith))
    | inr (inl (last, end)) ↦ rw end (last-Belongs a key sorted last)
    | inr (inr found) ↦ found-Belongs a key sorted pos found
  ]

  insert_at-Inserted :
      (a : SortedArray E) (element : E) (pos : ℕ)
      → flags.zero_copy ≡ false
      → pos ≤ a.count
      → a.count + 1 < 2 ^ 32
      → Inserted a element pos (insert_at flags cmp key_of a pos element)
  unfolding insert_at
  insert_at-Inserted a element pos copies within small = record {
    count = omega arith;
    placed = ground arith;
    before = λ i h. ground arith;
    after = λ i h b. ground arith;
  }

  Inserted-IsSorted :
      (a : SortedArray E) (element : E) (pos : ℕ) (a' : SortedArray E)
      → IsSorted cmp (λ i. key_of (a.slots i)) a.count
      → Belongs a (key_of element) pos
      → Inserted a element pos a'
      → IsSorted cmp (λ i. key_of (a'.slots i)) a'.count
  Inserted-IsSorted a element pos a' sorted b w i j h k = elim (dec_lt j pos) [
    | yes low ↦ rw (w.before i (omega arith), w.before j low) (sorted i j h (omega (arith, b.0)))
    | no high ↦ elim (dec_lt i pos) [
      | yes under ↦ rw (w.before i under) (elim (dec_lt pos j) [
        | yes over ↦
            shifted j over k (λ e. cmp (key_of (a.slots i)) (key_of e) ≡ less)
              (sorted i (j - 1) (omega arith) (omega (arith, w.count)))
        | no at ↦ let same : j ≡ pos = omega arith in rw (same, w.placed) (b.1 i under)
      ])
      | no reached ↦ elim (dec_lt pos i) [
        | yes over ↦
            shifted i over (omega arith) (λ e. cmp (key_of e) (key_of (a'.slots j)) ≡ less)
              (shifted j (omega arith) k (λ e. cmp (key_of (a.slots (i - 1))) (key_of e) ≡ less)
                (sorted (i - 1) (j - 1) (omega arith) (omega (arith, w.count))))
        | no at ↦
            let same : i ≡ pos = omega arith in
            rw (same, w.placed)
              (shifted j (omega arith) k (λ e. cmp (key_of element) (key_of e) ≡ less)
                (b.2 (j - 1) (omega arith) (omega (arith, w.count))))
      ]
    ]
  ]
    where
      shifted :
          (m : ℕ) → pos < m → m < a'.count → (P : E → Type 0) → P (a.slots (m - 1)) → P (a'.slots m)
      shifted m over in_range P p =
          let same : m ≡ m - 1 + 1 = omega arith in
          subst P
            (sym
              (ap (λ n. a'.slots n) same ∙ w.after (m - 1) (omega arith) (omega (arith, w.count))))
            p

  alloc-insert_at :
      (a : SortedArray E) (pos : ℕ) (element : E)
      → (insert_at flags cmp key_of a pos element).alloc ≡ a.alloc
  unfolding insert_at
  alloc-insert_at a pos element = refl

  allocated-insert_at :
      (a : SortedArray E) (pos : ℕ) (element : E)
      → (insert_at flags cmp key_of a pos element).allocated ≡ a.allocated
  unfolding insert_at
  allocated-insert_at a pos element = refl

  -- What a successful addition does: the element goes where its key belongs, those above it move up
  -- one slot, and the array is valid again.
  pub record Added (a : SortedArray E) (element : E) (pos : ℕ) (a' : SortedArray E) : Type ℓ where
    pub belongs : Belongs a (key_of element) pos
    pub inserted : Inserted a element pos a'
    pub valid : IsValid a'

  -- The outcome of an addition: with no slot returned the array is what it was.
  abbrev pub Outcome : SortedArray E → E → Option ℕ × SortedArray E → Type ℓ
  Outcome a element (none, a') = a' ≡ a
  Outcome a element (some pos, a') = Added a element pos a'

  module _ (copies : flags.zero_copy ≡ false) (a : SortedArray E) (v : IsValid a)
      (element : E) where
    -- An insertion in an array with a free slot.
    insert-Added :
        (pos : ℕ) (a₁ : SortedArray E)
        → Belongs a (key_of element) pos
        → a₁.slots ≡ a.slots
        → a₁.count ≡ a.count
        → a.count < a₁.alloc
        → a₁.alloc < 2 ^ 32
        → a₁.allocated ≡ true
        → Added a element pos (insert_at flags cmp key_of a₁ pos element)
    insert-Added pos a₁ b slots count room small backed =
        let w : Inserted a element pos (insert_at flags cmp key_of a₁ pos element) =
          reached (insert_at-Inserted a₁ element pos copies (omega (arith, b.0)) (omega arith)) in
        record {
          belongs = b;
          inserted = w;
          valid = record {
            sorted = Inserted-IsSorted a element pos _ v.sorted b w;
            fits = omega (arith, w.count, alloc-insert_at a₁ pos element);
            small = omega (arith, alloc-insert_at a₁ pos element);
            backed = λ h. cc (allocated-insert_at a₁ pos element);
          };
        }
      where
        reached :
            Inserted a₁ element pos (insert_at flags cmp key_of a₁ pos element)
            → Inserted a element pos (insert_at flags cmp key_of a₁ pos element)
        reached w = record {
          count = w.count ∙ ap (λ (n : ℕ). n + 1) count;
          placed = w.placed;
          before = λ i h. w.before i h ∙ ap (λ f. f i) slots;
          after = λ i h k. w.after i h (omega arith) ∙ ap (λ f. f i) slots;
        }

    growth-cases :
        (more : ℕ)
        → growth flags cmp key_of a ≡ some more
        → (a.count < a.alloc) × (more ≡ 0)
          ⊎ (a.count ≡ a.alloc) × (0 < more) × (more ≤ a.alloc / 2 + 10)
    unfolding growth
    growth-cases more e = ground arith

    reallocated :
        (realloc_ok : Bool) (pos more : ℕ)
        → Belongs a (key_of element) pos
        → growth flags cmp key_of a ≡ some more
        → a.alloc < 2 ^ 31
        → Outcome a element (
            if realloc_ok
            then (
              some pos,
              insert_at flags cmp key_of
                  (record a { allocated = true; alloc = u32 (a.alloc + more) })
                  pos
                  element,
            )
            else (none, a))
    reallocated true pos more b g small =
        insert-Added pos (record a { allocated = true; alloc = u32 (a.alloc + more) }) b refl refl
          (omega (arith, growth-cases more g, v.fits)) (omega arith) refl
    reallocated false pos more b g small = refl

    nothing_more : (more : ℕ) → (not a.allocated || not (more == 0)) ≡ false → more ≡ 0
    nothing_more more t = ground arith

    -- Whatever else the class allows and the allocator grants, an addition that copies the element
    -- to a valid array of fewer than 2^31 slots either returns no slot and leaves the array as it is,
    -- or puts the element in the slot returned, where its key belongs, moves those above it up one
    -- slot, keeps all others, and leaves the array valid.
    pub add_elem-Outcome :
        (realloc_ok : Bool)
        → a.alloc < 2 ^ 31
        → Outcome a element (kit_sortedarray_add_elem flags cmp key_of realloc_ok a element)
    unfolding kit_sortedarray_add_elem
    add_elem-Outcome realloc_ok small =
        elim (Option-cases (place flags cmp key_of a (key_of element))) [
          | inl e ↦ rw (e, kit_sortedarray_add_elem)
          | inr (pos, e) ↦ elim (Option-cases (growth flags cmp key_of a)) [
            | inl g ↦ rw (e, g, kit_sortedarray_add_elem)
            | inr (more, g) ↦
                let b = place-Belongs a (key_of element) pos v.sorted e in
                elim (Bool-cases (not a.allocated || not (more == 0))) [
                  | inl t ↦
                      rw (e, g, t, kit_sortedarray_add_elem)
                        (reallocated realloc_ok pos more b g small)
                  | inr t ↦
                      rw (e, g, t, kit_sortedarray_add_elem)
                        (insert-Added pos a b refl refl
                          (omega (arith, growth-cases more g, nothing_more more t)) v.small
                          (ground arith))
                ]
          ]
        ]
