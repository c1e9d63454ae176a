-- ===== src/Common/Lists.antt =====
-- C arrays and strings as lists measured and indexed by native numbers, under the library's names.
use Prim.Native.Nat.{ℕ, zero, suc, ◌+◌, ◌≤◌, ◌<◌}
use mathlib.Core.Path.{◌≡◌, refl, ap, ap₂}
use mathlib.Core.Logic.{◌≢◌}
use mathlib.Core.List.{List, [], ◌∷◌, ◌++◌, map, head-eq_of_cons-eq, tail-eq_of_cons-eq}
use mathlib.Core.Option.{Option, none, some}
use native.Mathlib.Omega.{arith}
use libkit.Common.Tests.{◌==◌, if◌then◌else◌}

module _ {ℓ} {A : Type ℓ} where
  abbrev pub length : List A → ℕ
  length [] = 0
  length (x ∷ xs) = suc (length xs)

  abbrev pub get_elem? : List A → ℕ → Option A
  get_elem? [] i = none
  get_elem? (x ∷ xs) zero = some x
  get_elem? (x ∷ xs) (suc i) = get_elem? xs i

  abbrev pub get_or : List A → ℕ → A → A
  get_or [] i d = d
  get_or (x ∷ xs) zero d = x
  get_or (x ∷ xs) (suc i) d = get_or xs i d

  -- A write out of bounds changes nothing.
  abbrev pub set : List A → ℕ → A → List A
  set [] i v = []
  set (x ∷ xs) zero v = v ∷ xs
  set (x ∷ xs) (suc i) v = x ∷ set xs i v

  abbrev pub take : ℕ → List A → List A
  take zero xs = []
  take (suc n) [] = []
  take (suc n) (x ∷ xs) = x ∷ take n xs

  abbrev pub drop : ℕ → List A → List A
  drop zero xs = xs
  drop (suc n) [] = []
  drop (suc n) (x ∷ xs) = drop n xs

  abbrev pub replicate : ℕ → A → List A
  replicate zero a = []
  replicate (suc n) a = a ∷ replicate n a

-- A predicate of every element, as a tuple that the tactics read and build.
abbrev pub All {ℓ κ} : {A : Type ℓ} → (A → Type κ) → List A → Type κ
All P [] = Unit
All P (x ∷ xs) = P x × All P xs

pub All-append {ℓ κ} :
    {A : Type ℓ} (P : A → Type κ) (xs ys : List A) → All P xs → All P ys → All P (xs ++ ys)
All-append P [] ys p q = q
All-append P (x ∷ xs) ys p q = (p.0, All-append P xs ys p.1 q)

module _ {ℓ} {A : Type ℓ} where
  pub length-append : (xs ys : List A) → length (xs ++ ys) ≡ length xs + length ys
  length-append [] ys = omega arith
  length-append (x ∷ xs) ys = omega (arith, length-append xs ys)

  pub length-set : (xs : List A) (i : ℕ) (v : A) → length (set xs i v) ≡ length xs
  length-set [] i v = refl
  length-set (x ∷ xs) zero v = refl
  length-set (x ∷ xs) (suc i) v = ap suc (length-set xs i v)

  pub get_elem?-set_self :
      (xs : List A) (i : ℕ) (v : A) → i < length xs → get_elem? (set xs i v) i ≡ some v
  get_elem?-set_self [] i v h = elim h [ ]
  get_elem?-set_self (x ∷ xs) zero v h = refl
  get_elem?-set_self (x ∷ xs) (suc i) v h = get_elem?-set_self xs i v (omega arith)

  pub get_elem?-set_ne :
      (xs : List A) (i j : ℕ) (v : A) → i ≢ j → get_elem? (set xs i v) j ≡ get_elem? xs j
  get_elem?-set_ne [] i j v h = refl
  get_elem?-set_ne (x ∷ xs) zero zero v h = absurd (h refl)
  get_elem?-set_ne (x ∷ xs) zero (suc j) v h = refl
  get_elem?-set_ne (x ∷ xs) (suc i) zero v h = refl
  get_elem?-set_ne (x ∷ xs) (suc i) (suc j) v h = get_elem?-set_ne xs i j v (λ e. h (ap suc e))

  -- Writing just past the first `n` cells extends them by the value.
  pub take-set_end :
      (xs : List A) (n : ℕ) (v : A)
      → n < length xs
      → take (suc n) (set xs n v) ≡ take n xs ++ v ∷ []
  take-set_end [] n v h = elim h [ ]
  take-set_end (x ∷ xs) zero v h = refl
  take-set_end (x ∷ xs) (suc n) v h = ap (λ t. x ∷ t) (take-set_end xs n v (omega arith))

  -- A write at the end of a known front.
  pub set-append :
      (front : List A) (x : A) (rest : List A) (v : A)
      → set (front ++ x ∷ rest) (length front) v ≡ front ++ v ∷ rest
  set-append [] x rest v = refl
  set-append (y ∷ front) x rest v = ap (λ t. y ∷ t) (set-append front x rest v)

  pub set_pair-append :
      (front : List A) (x y : A) (rest : List A) (v w : A)
      → set (set (front ++ x ∷ y ∷ rest) (length front) v) (suc (length front)) w
        ≡ front ++ v ∷ w ∷ rest
  set_pair-append [] x y rest v w = refl
  set_pair-append (z ∷ front) x y rest v w = ap (λ t. z ∷ t) (set_pair-append front x y rest v w)

  -- A write at or past `n` leaves the first `n` cells alone.
  pub take-set_past : (xs : List A) (n i : ℕ) (v : A) → n ≤ i → take n (set xs i v) ≡ take n xs
  take-set_past xs zero i v h = refl
  take-set_past [] (suc n) i v h = refl
  take-set_past (x ∷ xs) (suc n) zero v h = absurd (omega arith)
  take-set_past (x ∷ xs) (suc n) (suc i) v h =
      ap (λ t. x ∷ t) (take-set_past xs n i v (omega arith))

  -- A write below `n` leaves the cells from `n` on alone.
  pub drop-set : (xs : List A) (n i : ℕ) (v : A) → i < n → drop n (set xs i v) ≡ drop n xs
  drop-set [] n i v h = refl
  drop-set (x ∷ xs) zero i v h = absurd (omega arith)
  drop-set (x ∷ xs) (suc n) zero v h = refl
  drop-set (x ∷ xs) (suc n) (suc i) v h = drop-set xs n i v (omega arith)

  pub replicate_end : (n : ℕ) (a : A) → replicate n a ++ a ∷ [] ≡ a ∷ replicate n a
  replicate_end zero a = refl
  replicate_end (suc n) a = ap (λ t. a ∷ t) (replicate_end n a)

  pub length-replicate : (n : ℕ) (a : A) → length (replicate n a) ≡ n
  length-replicate zero a = refl
  length-replicate (suc n) a = ap suc (length-replicate n a)

  pub length-take_le : (n : ℕ) (xs : List A) → n ≤ length xs → length (take n xs) ≡ n
  length-take_le zero xs h = refl
  length-take_le (suc n) [] h = absurd (omega arith)
  length-take_le (suc n) (x ∷ xs) h = ap suc (length-take_le n xs (omega arith))

  pub take-append_length : (xs ys : List A) → take (length xs) (xs ++ ys) ≡ xs
  take-append_length [] ys = refl
  take-append_length (x ∷ xs) ys = ap (λ t. x ∷ t) (take-append_length xs ys)

  pub take-append-drop : (n : ℕ) (xs : List A) → take n xs ++ drop n xs ≡ xs
  take-append-drop zero xs = refl
  take-append-drop (suc n) [] = refl
  take-append-drop (suc n) (x ∷ xs) = ap (λ t. x ∷ t) (take-append-drop n xs)

  -- Two joins with first parts of one length have equal parts.
  pub append_inj :
      (s t : List A) {u v : List A} → length s ≡ length t → s ++ u ≡ t ++ v → (s ≡ t) × (u ≡ v)
  append_inj [] [] n e = (refl, e)
  append_inj [] (y ∷ t) n e = absurd (omega arith)
  append_inj (x ∷ s) [] n e = absurd (omega arith)
  append_inj (x ∷ s) (y ∷ t) n e =
      let r = append_inj s t (omega arith) (tail-eq_of_cons-eq e) in
      (ap₂ (λ a l. a ∷ l) (head-eq_of_cons-eq e) r.0, r.1)

pub length-map {ℓ κ} :
    {A : Type ℓ} {B : Type κ} (f : A → B) (xs : List A) → length (map f xs) ≡ length xs
length-map f [] = refl
length-map f (x ∷ xs) = ap suc (length-map f xs)

-- The text of a C string: the characters before the NUL.
abbrev pub c_string : List ℕ → List ℕ
c_string [] = []
c_string (c ∷ rest) = if c == 0 then [] else c ∷ c_string rest

pub length-take_within {ℓ} :
    {A : Type ℓ} (n : ℕ) (xs : List A) → n ≤ length xs → length (take n xs) ≡ n
length-take_within zero xs h = refl
length-take_within (suc n) [] h = absurd (omega (arith, h))
length-take_within (suc n) (x ∷ xs) h = ap suc (length-take_within n xs (omega (arith, h)))
