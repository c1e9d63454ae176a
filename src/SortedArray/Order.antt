-- ===== src/SortedArray/Order.antt =====
-- What the array relies on of a class's comparison function, and what a sorted array is.
use libkit.Common.{ℕ, ◌≤◌, ◌<◌, ◌≡◌, ◌≢◌, ap, ◌∙◌, arith}
use native.Mathlib.Decide.{dec_lt}
use libkit.SortedArray.Defs.{Cmp, less, equal, greater, int_max}

-- The comparison with its arguments exchanged.
abbrev pub flip : Cmp → Cmp
flip less = greater
flip equal = equal
flip greater = less
flip int_max = int_max

-- A total order that never fails, as the contract of `cmp` asks for.
pub record IsOrder {ℓ} {K : Type ℓ} (cmp : K → K → Cmp) : Type ℓ where
  pub never_fails : (a b : K) → cmp a b ≢ int_max
  pub flips : (a b : K) → cmp b a ≡ flip (cmp a b)
  pub trans : (a b c : K) → cmp a b ≡ less → cmp b c ≡ less → cmp a c ≡ less
  pub congr : (a b c : K) → cmp a b ≡ equal → cmp a c ≡ cmp b c

-- The keys in the first `count` slots ascend, with none twice.
abbrev pub IsSorted {ℓ} : {K : Type ℓ} → (K → K → Cmp) → (ℕ → K) → ℕ → Type 0
IsSorted cmp key_at count = (i j : ℕ) → i < j → j < count → cmp (key_at i) (key_at j) ≡ less

module _ {ℓ} {K : Type ℓ} {cmp : K → K → Cmp} (o : IsOrder cmp) (key_at : ℕ → K) (count : ℕ)
    (key : K) (sorted : IsSorted cmp key_at count) where
  -- Above a slot whose key is not below the one looked for, all keys are greater.
  pub less_above :
      (i j : ℕ) → i < j → j < count → cmp key (key_at i) ≡ less → cmp key (key_at j) ≡ less
  less_above i j h b e = o.trans key (key_at i) (key_at j) e (sorted i j h b)

  pub less_above_equal :
      (i j : ℕ) → i < j → j < count → cmp key (key_at i) ≡ equal → cmp key (key_at j) ≡ less
  less_above_equal i j h b e = o.congr key (key_at i) (key_at j) e ∙ sorted i j h b

  -- Below a slot whose key is not above the one looked for, all keys are less.
  pub greater_below :
      (i j : ℕ) → i < j → j < count → cmp key (key_at j) ≡ greater → cmp key (key_at i) ≡ greater
  greater_below i j h b e =
      o.flips (key_at i) key
      ∙ ap flip
          (o.trans (key_at i) (key_at j) key (sorted i j h b) (o.flips key (key_at j) ∙ ap flip e))

  pub greater_below_equal :
      (i j : ℕ) → i < j → j < count → cmp key (key_at j) ≡ equal → cmp key (key_at i) ≡ greater
  greater_below_equal i j h b e =
      o.congr key (key_at j) (key_at i) e ∙ o.flips (key_at i) (key_at j) ∙ ap flip (sorted i j h b)

  pub less_from :
      (i j : ℕ) → i ≤ j → j < count → cmp key (key_at i) ≡ less → cmp key (key_at j) ≡ less
  less_from i j h b e = elim (dec_lt i j) [
    | yes lt ↦ less_above i j lt b e
    | no ge ↦ let same : i ≡ j = omega arith in rw (← same) e
  ]

  pub greater_upto :
      (i j : ℕ) → i ≤ j → j < count → cmp key (key_at j) ≡ greater → cmp key (key_at i) ≡ greater
  greater_upto i j h b e = elim (dec_lt i j) [
    | yes lt ↦ greater_below i j lt b e
    | no ge ↦ let same : i ≡ j = omega arith in rw same e
  ]
