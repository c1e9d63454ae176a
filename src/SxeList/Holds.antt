-- ===== src/SxeList/Holds.antt =====
-- What it is for memory to hold a list, and that putting in and taking out nodes keeps it.
use libkit.Common.{
  ℕ, suc, ◌+◌, ◌≤◌, List, [], ◌∷◌, ◌++◌, length, ◌≡◌, ◌≢◌, refl, sym, ◌∙◌, ap, All, arith,
}
use libkit.SxeList.Defs.{Memory, SxeList}
use libkit.SxeList.Linked.{
  Linked, last, first, Fresh, Distinct, Inserted, Removed, Linked-insert, Linked-remove,
}

-- The nodes of `list` are those at the addresses `xs`, from its head to its tail.
pub record Holds (m : Memory) (list : SxeList) (xs : List ℕ) : Type 0 where
  pub linked : Linked m list.sentinel xs list.sentinel
  pub distinct : Distinct xs
  pub fresh : Fresh list.sentinel xs
  pub ids : All (λ x. m.id x ≡ m.id list.sentinel) xs
  pub counted : list.length ≡ length xs
  pub offsets : All (λ x. list.offset ≤ x) xs

pub Linked-last :
    (m : Memory) (a : ℕ) (xs : List ℕ) (z : ℕ) → Linked m a xs z → m.prev z ≡ last a xs
Linked-last m a [] z h = h.1
Linked-last m a (x ∷ xs) z h = Linked-last m x xs z h.2

pub Linked-first :
    (m : Memory) (a : ℕ) (xs : List ℕ) (z : ℕ) → Linked m a xs z → m.next a ≡ first xs z
Linked-first m a [] z h = h.0
Linked-first m a (x ∷ xs) z h = h.0

-- The links of a node inside a chain.
pub Linked-middle :
    (m : Memory) (a : ℕ) (xs : List ℕ) (n : ℕ) (ys : List ℕ) (z : ℕ)
    → Linked m a (xs ++ n ∷ ys) z
    → (m.prev n ≡ last a xs) × (m.next n ≡ first ys z)
Linked-middle m a [] n ys z h = (h.1, Linked-first m n ys z h.2)
Linked-middle m a (x ∷ xs) n ys z h = Linked-middle m x xs n ys z h.2

module _ (P : ℕ → Type 0) where
  pub All-insert : (xs ys : List ℕ) (n : ℕ) → P n → All P (xs ++ ys) → All P (xs ++ n ∷ ys)
  All-insert [] ys n p h = (p, h)
  All-insert (x ∷ xs) ys n p h = (h.0, All-insert xs ys n p h.1)

  pub All-drop : (xs ys : List ℕ) (n : ℕ) → All P (xs ++ n ∷ ys) → All P (xs ++ ys)
  All-drop [] ys n h = h.1
  All-drop (x ∷ xs) ys n h = (h.0, All-drop xs ys n h.1)

  pub All-middle : (xs ys : List ℕ) (n : ℕ) → All P (xs ++ n ∷ ys) → P n
  All-middle [] ys n h = h.0
  All-middle (x ∷ xs) ys n h = All-middle xs ys n h.1

  pub All-map : {Q : ℕ → Type 0} (xs : List ℕ) → ((x : ℕ) → P x → Q x) → All P xs → All Q xs
  All-map [] f h = tt
  All-map (x ∷ xs) f h = (f x h.0, All-map xs f h.1)

Fresh-sym :
    (xs ys : List ℕ) (n : ℕ) → Fresh n (xs ++ ys) → Distinct (xs ++ ys) → Distinct (xs ++ n ∷ ys)
Fresh-sym [] ys n f d = (f, d)
Fresh-sym (x ∷ xs) ys n f d =
    (All-insert (λ y. x ≢ y) xs ys n (λ e. f.0 (sym e)) d.0, Fresh-sym xs ys n f.1 d.1)

Distinct-drop : (xs ys : List ℕ) (n : ℕ) → Distinct (xs ++ n ∷ ys) → Distinct (xs ++ ys)
Distinct-drop [] ys n d = d.1
Distinct-drop (x ∷ xs) ys n d = (All-drop (λ y. x ≢ y) xs ys n d.0, Distinct-drop xs ys n d.1)

pub length-insert : (xs ys : List ℕ) (n : ℕ) → length (xs ++ n ∷ ys) ≡ suc (length (xs ++ ys))
length-insert [] ys n = refl
length-insert (x ∷ xs) ys n = ap suc (length-insert xs ys n)

-- The identifiers of nodes that are not `n`.
abbrev pub SameIds : Memory → Memory → ℕ → Type 0
SameIds m m' n = (y : ℕ) → y ≢ n → m'.id y ≡ m.id y

pub ids_kept :
    (m m' : Memory) (n s : ℕ) (xs : List ℕ)
    → SameIds m m' n
    → Fresh n xs
    → s ≢ n
    → All (λ x. m.id x ≡ m.id s) xs
    → All (λ x. m'.id x ≡ m'.id s) xs
ids_kept m m' n s [] same away ns h = tt
ids_kept m m' n s (x ∷ xs) same away ns h =
    (same x (λ e. away.0 (sym e)) ∙ h.0 ∙ sym (same s ns), ids_kept m m' n s xs same away.1 ns h.1)

module _ (m m' : Memory) (list : SxeList) (xs ys : List ℕ) (n size : ℕ) where
  abbrev s : ℕ
  s = list.sentinel

  pub Holds-insert :
      Inserted m m' (last s xs) n (first ys s)
      → SameIds m m' n
      → m'.id n ≡ m.id s
      → n ≢ s
      → Fresh n (xs ++ ys)
      → list.offset ≤ n
      → size ≡ list.length + 1
      → Holds m list (xs ++ ys)
      → Holds m' (record list { length = size }) (xs ++ n ∷ ys)
  Holds-insert i same id ns away offset grows h = record {
    linked = Linked-insert m m' s xs ys s n i h.distinct h.fresh h.fresh away ns ns h.linked;
    distinct = Fresh-sym xs ys n away h.distinct;
    fresh = All-insert (λ x. s ≢ x) xs ys n (λ e. ns (sym e)) h.fresh;
    ids =
        All-insert (λ x. m'.id x ≡ m'.id s) xs ys n (id ∙ sym (same s (λ e. ns (sym e))))
          (ids_kept m m' n s (xs ++ ys) same away (λ e. ns (sym e)) h.ids);
    counted = omega (arith, grows, h.counted, length-insert xs ys n);
    offsets = All-insert (λ x. list.offset ≤ x) xs ys n offset h.offsets;
  }

  pub Holds-remove :
      Removed m m' (last s xs) n (first ys s)
      → ((y : ℕ) → m'.id y ≡ m.id y)
      → size + 1 ≡ list.length
      → Holds m list (xs ++ n ∷ ys)
      → Holds m' (record list { length = size }) (xs ++ ys)
  Holds-remove r same shrinks h = record {
    linked = Linked-remove m m' s xs ys s n r h.distinct h.fresh h.fresh h.linked;
    distinct = Distinct-drop xs ys n h.distinct;
    fresh = All-drop (λ x. s ≢ x) xs ys n h.fresh;
    ids =
        All-map (λ x. m.id x ≡ m.id s) (xs ++ ys) (λ x e. same x ∙ e ∙ sym (same s))
          (All-drop (λ x. m.id x ≡ m.id s) xs ys n h.ids);
    counted = omega (arith, shrinks, h.counted, length-insert xs ys n);
    offsets = All-drop (λ x. list.offset ≤ x) xs ys n h.offsets;
  }
