-- ===== src/SortedArray/Find.antt =====
-- `kit_sortedarray_find_key` of lib-kit/kit-sortedarray.c, from the invariant of its loop.
use libkit.Common.{
  ℕ, zero, suc, ◌+◌, ◌-◌, ◌/◌, ◌≤◌, ◌<◌, Bool, true, false, ◌≡◌, ◌≢◌, ◌⊎◌, inl, inr, refl, ◌==◌,
  ==→eq, Bool-cases, arith,
}
use libkit.SortedArray.Defs.{
  Cmp, less, equal, greater, int_max, Flags, find_loop, kit_sortedarray_find_key,
}
use libkit.SortedArray.Order.{IsOrder, IsSorted, less_from, greater_upto}

-- Where a key stands among the first `count` slots: at a slot with an equal key, or at the gap
-- between the lesser keys and the greater ones.
abbrev pub Locates {ℓ} : {K : Type ℓ} → (K → K → Cmp) → (ℕ → K) → ℕ → K → ℕ × Bool → Type 0
Locates cmp key_at count key (pos, true) = (pos < count) × (cmp key (key_at pos) ≡ equal)
Locates cmp key_at count key (pos, false) =
    (pos ≤ count)
    × ((i : ℕ) → i < pos → cmp key (key_at i) ≡ greater)
    × ((i : ℕ) → pos ≤ i → i < count → cmp key (key_at i) ≡ less)

Cmp-cases : (c : Cmp) → c ≢ int_max → (c ≡ less) ⊎ ((c ≡ equal) ⊎ (c ≡ greater))
Cmp-cases less h = inl refl
Cmp-cases equal h = inr (inl refl)
Cmp-cases greater h = inr (inr refl)
Cmp-cases int_max h = absurd (h refl)

module _ {ℓ} {K : Type ℓ} (flags : Flags) {cmp : K → K → Cmp} (o : IsOrder cmp) (key_at : ℕ → K)
    (count : ℕ) (key : K) (sorted : IsSorted cmp key_at count) where
  -- The key is not in the slots below `pos`, nor in those from `pos + lim` on.
  record Searching (pos lim : ℕ) : Type 0 where
    within : pos + lim ≤ count
    below : (i : ℕ) → i < pos → cmp key (key_at i) ≡ greater
    above : (i : ℕ) → pos + lim ≤ i → i < count → cmp key (key_at i) ≡ less

  module _ (pos lim : ℕ) (s : Searching pos lim) (some_left : lim ≢ 0) where
    abbrev middle : ℕ
    middle = pos + lim / 2

    go_up : cmp key (key_at middle) ≡ greater → Searching (middle + 1) ((lim - 1) / 2)
    go_up e = record {
      within = omega (arith, s.within);
      below = λ i h.
          greater_upto o key_at count key sorted i middle (omega arith) (omega (arith, s.within)) e;
      above = λ i h b. s.above i (omega arith) b;
    }

    go_down : cmp key (key_at middle) ≡ less → Searching pos (lim / 2)
    go_down e = record {
      within = omega (arith, s.within);
      below = s.below;
      above = λ i h b. less_from o key_at count key sorted middle i h b e;
    }

  loop-Locates :
      (rounds pos lim : ℕ)
      → lim ≤ rounds
      → Searching pos lim
      → Locates cmp key_at count key (find_loop flags cmp key_at key rounds pos lim)
  unfolding find_loop
  loop-Locates zero pos lim enough s = (omega arith, s.below, λ i h b. s.above i (omega arith) b)
  loop-Locates (suc rounds) pos lim enough s = elim (Bool-cases (lim == 0)) [
    | inl h ↦
        rw (h, find_loop) (omega arith, s.below, λ i k b. s.above i (omega (arith, ==→eq _ _ h)) b)
    | inr h ↦ elim (Cmp-cases (cmp key (key_at (pos + lim / 2))) (o.never_fails _ _)) [
      | inl e ↦
          rw (h, e, find_loop)
            (loop-Locates rounds pos (lim / 2) (halved h) (go_down pos lim s (nonzero h) e))
      | inr (inl e) ↦ rw (h, e, find_loop) (inside h, e)
      | inr (inr e) ↦
          rw (h, e, find_loop)
            (loop-Locates rounds (pos + lim / 2 + 1) ((lim - 1) / 2) (halved' h)
              (go_up pos lim s (nonzero h) e))
    ]
  ]
    where
      nonzero : (lim == 0) ≡ false → lim ≢ 0
      nonzero h = ground arith

      halved : (lim == 0) ≡ false → lim / 2 ≤ rounds
      halved h = omega (arith, nonzero h)

      halved' : (lim == 0) ≡ false → (lim - 1) / 2 ≤ rounds
      halved' h = omega (arith, nonzero h)

      inside : (lim == 0) ≡ false → pos + lim / 2 < count
      inside h = omega (arith, nonzero h, s.within)

  -- In a sorted array, under a comparison that is a total order, the search ends with a match at a slot
  -- with an equal key, or without one between the lesser keys and the greater.
  pub find_key-Locates :
      Locates cmp key_at count key (kit_sortedarray_find_key flags cmp key_at count key)
  unfolding kit_sortedarray_find_key
  find_key-Locates = loop-Locates count 0 count (omega arith) (record {
    within = omega arith;
    below = λ i h. absurd (omega arith);
    above = λ i h b. absurd (omega arith);
  })
