-- ===== src/SxeList/Linked.antt =====
-- Chains of nodes in memory, and how they change when a node is put in or taken out.
use libkit.Common.{ℕ, List, [], ◌∷◌, ◌++◌, ◌≡◌, ◌≢◌, sym, ◌∙◌, All}
use libkit.SxeList.Defs.{Memory}

-- From `a` along `xs` to `z`, each node's `next` is the one after it and its `prev` the one before.
abbrev pub Linked : Memory → ℕ → List ℕ → ℕ → Type 0
Linked m a [] z = (m.next a ≡ z) × (m.prev z ≡ a)
Linked m a (x ∷ xs) z = (m.next a ≡ x) × (m.prev x ≡ a) × Linked m x xs z

abbrev pub last : ℕ → List ℕ → ℕ
last a [] = a
last a (x ∷ xs) = last x xs

abbrev pub first : List ℕ → ℕ → ℕ
first [] z = z
first (x ∷ xs) z = x

abbrev pub Fresh : ℕ → List ℕ → Type 0
Fresh a xs = All (λ x. a ≢ x) xs

abbrev pub Distinct : List ℕ → Type 0
Distinct [] = Unit
Distinct (x ∷ xs) = Fresh x xs × Distinct xs

-- Between `p` and `q` the node `n` has been put in; nothing else has changed.
pub record Inserted (m m' : Memory) (p n q : ℕ) : Type 0 where
  pub next_p : m'.next p ≡ n
  pub next_n : m'.next n ≡ q
  pub prev_q : m'.prev q ≡ n
  pub prev_n : m'.prev n ≡ p
  pub next_else : (y : ℕ) → y ≢ p → y ≢ n → m'.next y ≡ m.next y
  pub prev_else : (y : ℕ) → y ≢ q → y ≢ n → m'.prev y ≡ m.prev y

-- The node `n` between `p` and `q` has been taken out.
pub record Removed (m m' : Memory) (p n q : ℕ) : Type 0 where
  pub next_p : m'.next p ≡ q
  pub prev_q : m'.prev q ≡ p
  pub next_else : (y : ℕ) → y ≢ p → y ≢ n → m'.next y ≡ m.next y
  pub prev_else : (y : ℕ) → y ≢ q → y ≢ n → m'.prev y ≡ m.prev y

-- A chain whose nodes have kept their links.
pub Linked-kept :
    (m m' : Memory) (a : ℕ) (xs : List ℕ) (z : ℕ)
    → All (λ y. m'.next y ≡ m.next y) (a ∷ xs)
    → All (λ y. m'.prev y ≡ m.prev y) xs
    → m'.prev z ≡ m.prev z
    → Linked m a xs z
    → Linked m' a xs z
Linked-kept m m' a [] z next prev prev_z h = (next.0 ∙ h.0, prev_z ∙ h.1)
Linked-kept m m' a (x ∷ xs) z next prev prev_z h =
    (next.0 ∙ h.0, prev.0 ∙ h.1, Linked-kept m m' x xs z next.1 prev.1 prev_z h.2)

kept :
    {f g : ℕ → ℕ} (p n : ℕ) (ys : List ℕ)
    → ((y : ℕ) → y ≢ p → y ≢ n → g y ≡ f y)
    → Fresh p ys
    → Fresh n ys
    → All (λ y. g y ≡ f y) ys
kept p n [] keep away away' = tt
kept p n (y ∷ ys) keep away away' =
    (keep y (λ e. away.0 (sym e)) (λ e. away'.0 (sym e)), kept p n ys keep away.1 away'.1)

last_ne : (x : ℕ) (xs ys : List ℕ) (a : ℕ) → Fresh a (x ∷ xs ++ ys) → a ≢ last x xs
last_ne x [] ys a f = f.0
last_ne x (y ∷ xs) ys a f = last_ne y xs ys a f.1

first_ne : (xs ys : List ℕ) (x z : ℕ) → Fresh x (xs ++ ys) → x ≢ z → x ≢ first ys z
first_ne [] [] x z f ne = ne
first_ne [] (y ∷ ys) x z f ne = f.0
first_ne (w ∷ xs) ys x z f ne = first_ne xs ys x z f.1 ne

pub Fresh-middle : (xs ys : List ℕ) (a n : ℕ) → Fresh a (xs ++ n ∷ ys) → a ≢ n
Fresh-middle [] ys a n f = f.0
Fresh-middle (x ∷ xs) ys a n f = Fresh-middle xs ys a n f.1

pub Fresh-drop : (xs ys : List ℕ) (a n : ℕ) → Fresh a (xs ++ n ∷ ys) → Fresh a (xs ++ ys)
Fresh-drop [] ys a n f = f.1
Fresh-drop (x ∷ xs) ys a n f = (f.0, Fresh-drop xs ys a n f.1)

-- Putting a node in between two parts of a chain whose nodes are all different.
pub Linked-insert :
    (m m' : Memory) (a : ℕ) (xs ys : List ℕ) (z n : ℕ)
    → Inserted m m' (last a xs) n (first ys z)
    → Distinct (xs ++ ys)
    → Fresh a (xs ++ ys)
    → Fresh z (xs ++ ys)
    → Fresh n (xs ++ ys)
    → n ≢ a
    → n ≢ z
    → Linked m a (xs ++ ys) z
    → Linked m' a (xs ++ n ∷ ys) z
Linked-insert m m' a [] [] z n i d fa fz fn na nz h = (i.next_p, i.prev_n, (i.next_n, i.prev_q))
Linked-insert m m' a [] (y ∷ ys) z n i d fa fz fn na nz h = (
  i.next_p,
  i.prev_n,
  (
    i.next_n,
    i.prev_q,
    Linked-kept m m' y ys z (kept a n (y ∷ ys) i.next_else fa fn) (kept y n ys i.prev_else d.0 fn.1)
        (i.prev_else z fz.0 (λ e. nz (sym e))) h.2,
  ),
)
Linked-insert m m' a (x ∷ xs) ys z n i d fa fz fn na nz h = (
  i.next_else a (last_ne x xs ys a fa) (λ e. na (sym e)) ∙ h.0,
  i.prev_else x (first_ne xs ys x z d.0 (λ e. fz.0 (sym e))) (λ e. fn.0 (sym e)) ∙ h.1,
  Linked-insert m m' x xs ys z n i d.1 d.0 fz.1 fn.1 fn.0 nz h.2,
)

-- Taking a node out.
pub Linked-remove :
    (m m' : Memory) (a : ℕ) (xs ys : List ℕ) (z n : ℕ)
    → Removed m m' (last a xs) n (first ys z)
    → Distinct (xs ++ n ∷ ys)
    → Fresh a (xs ++ n ∷ ys)
    → Fresh z (xs ++ n ∷ ys)
    → Linked m a (xs ++ n ∷ ys) z
    → Linked m' a (xs ++ ys) z
Linked-remove m m' a [] [] z n r d fa fz h = (r.next_p, r.prev_q)
Linked-remove m m' a [] (y ∷ ys) z n r d fa fz h = (
  r.next_p,
  r.prev_q,
  Linked-kept m m' y ys z (kept a n (y ∷ ys) r.next_else fa.1 d.0)
      (kept y n ys r.prev_else d.1.0 d.0.1) (r.prev_else z fz.1.0 fz.0) h.2.2,
)
Linked-remove m m' a (x ∷ xs) ys z n r d fa fz h = (
  r.next_else a (last_ne x xs (n ∷ ys) a fa) (Fresh-middle (x ∷ xs) ys a n fa) ∙ h.0,
  r.prev_else x (first_ne xs ys x z (Fresh-drop xs ys x n d.0) (λ e. fz.0 (sym e)))
        (Fresh-middle xs ys x n d.0)
      ∙ h.1,
  Linked-remove m m' x xs ys z n r d.1 d.0 fz.1 h.2,
)
