-- ===== src/SortedArray/Matching.antt =====
-- The intersection of sorted arrays, said by a search through all elements.
use libkit.Common.{
  ℕ, zero, suc, ◌+◌, ◌*◌, ◌<◌, Bool, true, false, if◌then◌else◌, List, [], ◌∷◌, ◌++◌, ◌≡◌, ◌≢◌, inl,
  inr, refl, sym, ◌∙◌, ap, arith, Bool-cases,
}
use native.Mathlib.Decide.{dec_lt}
use mathlib.Core.Path.{subst}
use libkit.SortedArray.Defs.{Cmp, less, equal, greater, int_max}
use libkit.SortedArray.Intersect.{and_then}

abbrev pub is_equal : Cmp → Bool
is_equal equal = true
is_equal _ = false

-- A key is among the first `count` keys.
abbrev pub contains {ℓ} : {K : Type ℓ} → (K → K → Cmp) → (ℕ → K) → ℕ → K → Bool
contains cmp keys zero key = false
contains cmp keys (suc n) key =
    if is_equal (cmp key (keys n)) then true else contains cmp keys n key

-- The addresses, `size` apart from `left` on, of those of `count` elements that pass the test.
abbrev pub passing : (ℕ → Bool) → ℕ → ℕ → ℕ → List ℕ
passing test size zero left = []
passing test size (suc n) left =
    if test left
    then left ∷ passing test size n (left + size)
    else passing test size n (left + size)

-- Visiting addresses in turn, until the visitor ends it.
abbrev pub visit_all {κ} : {V : Type κ} → (V → ℕ → Bool × V) → List ℕ → V → Bool × V
visit_all visit [] v = (true, v)
visit_all visit (x ∷ xs) v = and_then (visit v x) (visit_all visit xs)

pub visit_all-append {κ} :
    {V : Type κ} (visit : V → ℕ → Bool × V) (xs ys : List ℕ) (v : V)
    → visit_all visit (xs ++ ys) v ≡ and_then (visit_all visit xs v) (visit_all visit ys)
visit_all-append visit [] ys v = refl
visit_all-append visit (x ∷ xs) ys v = go (visit v x) (visit_all-append visit xs ys)
  where
    go :
        (r : Bool × _)
        → ((v' : _)
            → visit_all visit (xs ++ ys) v' ≡ and_then (visit_all visit xs v') (visit_all visit ys))
        → and_then r (visit_all visit (xs ++ ys))
          ≡ and_then (and_then r (visit_all visit xs)) (visit_all visit ys)
    go (false, v') h = refl
    go (true, v') h = h v'

module _ (size : ℕ) where
  first_at : (a : ℕ) → a + 0 * size ≡ a
  first_at a = omega arith

  next_at : (a i : ℕ) → a + suc i * size ≡ a + size + i * size
  next_at a i = omega arith

  pub passing-split :
      (test : ℕ → Bool) (a b left : ℕ)
      → passing test size (a + b) left
        ≡ passing test size a left ++ passing test size b (left + a * size)
  passing-split test zero b left =
      ap (λ n. passing test size n left) (omega arith)
      ∙ ap (passing test size b) (sym (first_at left))
  passing-split test (suc n) b left =
      let shape : suc n + b ≡ suc (n + b) = omega arith in
      ap (λ m. passing test size m left) shape ∙ (elim (Bool-cases (test left)) [
        | inl pass ↦
            rw (pass, next_at left n) (ap (λ t. left ∷ t) (passing-split test n b (left + size)))
        | inr fail ↦ rw (fail, next_at left n) (passing-split test n b (left + size))
      ])

  pub passing_same :
      (test test' : ℕ → Bool) (n left : ℕ)
      → ((i : ℕ) → i < n → test (left + i * size) ≡ test' (left + i * size))
      → passing test size n left ≡ passing test' size n left
  passing_same test test' zero left h = refl
  passing_same test test' (suc n) left h =
      let head = subst (λ a. test a ≡ test' a) (first_at left) (h 0 (omega arith)) in
      let rest =
        passing_same test test' n (left + size)
          (λ i b. subst (λ a. test a ≡ test' a) (next_at left i) (h (suc i) (omega (arith, b)))) in
      rw (head, rest) refl

  pub passing_none :
      (test : ℕ → Bool) (n left : ℕ)
      → ((i : ℕ) → i < n → test (left + i * size) ≡ false)
      → passing test size n left ≡ []
  passing_none test zero left h = refl
  passing_none test (suc n) left h =
      rw (subst (λ a. test a ≡ false) (first_at left) (h 0 (omega arith))) (
        passing_none test n (left + size)
          (λ i b. subst (λ a. test a ≡ false) (next_at left i) (h (suc i) (omega (arith, b)))))

module _ {ℓ} {K : Type ℓ} (cmp : K → K → Cmp) where
  pub contains_not :
      (keys : ℕ → K) (n : ℕ) (key : K)
      → ((i : ℕ) → i < n → cmp key (keys i) ≢ equal)
      → contains cmp keys n key ≡ false
  contains_not keys zero key h = refl
  contains_not keys (suc n) key h =
      go (cmp key (keys n)) (h n (omega arith))
        (contains_not keys n key (λ i b. h i (omega (arith, b))))
    where
      go :
          (c : Cmp)
          → c ≢ equal
          → contains cmp keys n key ≡ false
          → (if is_equal c then true else contains cmp keys n key) ≡ false
      go equal ne e = absurd (ne refl)
      go less ne e = e
      go greater ne e = e
      go int_max ne e = e

  pub contains_at :
      (keys : ℕ → K) (n : ℕ) (key : K) (i : ℕ)
      → i < n
      → cmp key (keys i) ≡ equal
      → contains cmp keys n key ≡ true
  contains_at keys zero key i b e = absurd (omega arith)
  contains_at keys (suc n) key i b e = elim (dec_lt i n) [
    | yes lt ↦ rw (contains_at keys n key i lt e) (always (is_equal (cmp key (keys n))))
    | no ge ↦ (let same : n ≡ i = omega (arith, ge) in rw (same, e) refl)
  ]
    where
      always : (t : Bool) → (if t then true else true) ≡ true
      always true = refl
      always false = refl

  -- The first `a` keys, and those from there on.
  pub contains-split :
      (keys : ℕ → K) (a b : ℕ) (key : K)
      → contains cmp keys (a + b) key
        ≡ (if contains cmp (λ j. keys (a + j)) b key then true else contains cmp keys a key)
  contains-split keys a zero key =
      let e : a + 0 ≡ a = omega arith in ap (λ n. contains cmp keys n key) e
  contains-split keys a (suc b) key =
      let e : a + suc b ≡ suc (a + b) = omega arith in
      ap (λ n. contains cmp keys n key) e
      ∙ go (is_equal (cmp key (keys (a + b)))) (contains-split keys a b key)
    where
      go :
          (t : Bool)
          → contains cmp keys (a + b) key
            ≡ (if contains cmp (λ j. keys (a + j)) b key then true else contains cmp keys a key)
          → (if t then true else contains cmp keys (a + b) key) ≡ (
              if (if t then true else contains cmp (λ j. keys (a + j)) b key)
              then true
              else contains cmp keys a key)
      go true e = refl
      go false e = e

  pub contains_same :
      (keys keys' : ℕ → K) (n : ℕ) (key : K)
      → ((j : ℕ) → keys j ≡ keys' j)
      → contains cmp keys n key ≡ contains cmp keys' n key
  contains_same keys keys' zero key h = refl
  contains_same keys keys' (suc n) key h = rw (h n, contains_same keys keys' n key h) refl

  module _ (read : ℕ → K) (size keyoffset : ℕ) where
    -- The key of the element with an index.
    abbrev pub key_of_index : ℕ → ℕ → K
    key_of_index array i = read (array + i * size + keyoffset)

    -- The elements of the left array whose keys are among those of the right one, in order.
    abbrev pub common : ℕ → ℕ → ℕ → ℕ → List ℕ
    common left left_count right right_count =
        passing (λ a. contains cmp (key_of_index right) right_count (read (a + keyoffset))) size
          left_count left

pub if_true : (t : Bool) → (if t then true else false) ≡ t
if_true true = refl
if_true false = refl
