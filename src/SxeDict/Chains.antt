-- ===== src/SxeDict/Chains.antt =====
-- Chains of nodes of lib-sxe-dict, by the keys of the nodes.
use libkit.Common.{
  ℕ, zero, suc, Bool, true, false, if◌then◌else◌, Option, none, some, List, [], ◌∷◌, ◌++◌, All,
  All-append, ◌≡◌, ◌≢◌, refl, sym, ◌∙◌, ap, arith, inl, inr,
}
use libkit.SxeDict.Defs.{same_bytes, Node}
use libkit.SxeDict.Keys.{same_bytes_self, same_bytes_cases}

-- Storing through the pointer to the value of a node.
abbrev pub set_value : ℕ → ℕ → List Node → List Node
set_value place v [] = []
set_value zero v (node ∷ chain) = record node { value = v } ∷ chain
set_value (suc place) v (node ∷ chain) = node ∷ set_value place v chain

abbrev pub get_value : ℕ → List Node → ℕ
get_value place [] = 0
get_value zero (node ∷ chain) = node.value
get_value (suc place) (node ∷ chain) = get_value place chain

module _ (key_of : Node → List ℕ) where
  -- The value of the first node with the key.
  abbrev pub lookup : List ℕ → List Node → Option ℕ
  lookup k [] = none
  lookup k (node ∷ chain) = if same_bytes (key_of node) k then some node.value else lookup k chain

  abbrev pub Lacks : List ℕ → List Node → Type 0
  Lacks k chain = All (λ node. key_of node ≢ k) chain

  -- No key twice.
  abbrev pub DistinctKeys : List Node → Type 0
  DistinctKeys [] = Unit
  DistinctKeys (node ∷ chain) = Lacks (key_of node) chain × DistinctKeys chain

  pub not_same : (node : Node) (k : List ℕ) → key_of node ≢ k → same_bytes (key_of node) k ≡ false
  not_same node k ne = elim (same_bytes_cases (key_of node) k) [
    | inl (e, same) ↦ absurd (ne same)
    | inr (e, other) ↦ e
  ]

  pub lookup-Lacks : (k : List ℕ) (chain : List Node) → Lacks k chain → lookup k chain ≡ none
  lookup-Lacks k [] h = refl
  lookup-Lacks k (node ∷ chain) h = rw (not_same node k h.0) (lookup-Lacks k chain h.1)

  pub Lacks-lookup : (k : List ℕ) (chain : List Node) → lookup k chain ≡ none → Lacks k chain
  Lacks-lookup k [] h = tt
  Lacks-lookup k (node ∷ chain) h = elim (same_bytes_cases (key_of node) k) [
    | inl (e, same) ↦ absurd (ground (arith, e, h))
    | inr (e, other) ↦
        (let rest : lookup k chain ≡ none = ground (arith, e, h) in
          (other, Lacks-lookup k chain rest))
  ]

  pub lookup-append_Lacks :
      (k : List ℕ) (xs ys : List Node) → Lacks k xs → lookup k (xs ++ ys) ≡ lookup k ys
  lookup-append_Lacks k [] ys h = refl
  lookup-append_Lacks k (node ∷ xs) ys h =
      rw (not_same node k h.0) (lookup-append_Lacks k xs ys h.1)

  pub lookup-append_end :
      (k : List ℕ) (xs ys : List Node) → Lacks k ys → lookup k (xs ++ ys) ≡ lookup k xs
  lookup-append_end k [] ys h = lookup-Lacks k ys h
  lookup-append_end k (node ∷ xs) ys h =
      ap (λ t. if same_bytes (key_of node) k then some node.value else t)
        (lookup-append_end k xs ys h)

  -- A new node at the end.
  pub DistinctKeys-append :
      (chain : List Node) (node : Node)
      → DistinctKeys chain
      → Lacks (key_of node) chain
      → DistinctKeys (chain ++ node ∷ [])
  DistinctKeys-append [] node d h = (tt, tt)
  DistinctKeys-append (n ∷ chain) node d h = (
    All-append (λ m. key_of m ≢ key_of n) chain (node ∷ []) d.0 ((λ e. h.0 (sym e)), tt),
    DistinctKeys-append chain node d.1 h.1,
  )

  pub DistinctKeys-concat :
      (xs ys : List Node)
      → DistinctKeys xs
      → DistinctKeys ys
      → All (λ node. Lacks (key_of node) xs) ys
      → DistinctKeys (xs ++ ys)
  DistinctKeys-concat [] ys d e h = e
  DistinctKeys-concat (x ∷ xs) ys d e h = (
    All-append (λ m. key_of m ≢ key_of x) xs ys d.0 (heads ys h),
    DistinctKeys-concat xs ys d.1 e (tails ys h),
  )
    where
      heads : (zs : List Node) → All (λ node. Lacks (key_of node) (x ∷ xs)) zs → Lacks (key_of x) zs
      heads [] g = tt
      heads (z ∷ zs) g = ((λ e. g.0.0 (sym e)), heads zs g.1)

      tails :
          (zs : List Node)
          → All (λ node. Lacks (key_of node) (x ∷ xs)) zs
          → All (λ node. Lacks (key_of node) xs) zs
      tails [] g = tt
      tails (z ∷ zs) g = (g.0.1, tails zs g.1)

  -- A node in the middle has its key alone.
  pub DistinctKeys-middle :
      (xs : List Node) (node : Node) (ys : List Node)
      → DistinctKeys (xs ++ node ∷ ys)
      → Lacks (key_of node) xs
  DistinctKeys-middle [] node ys d = tt
  DistinctKeys-middle (x ∷ xs) node ys d =
      ((λ e. own xs d.0 (sym e)), DistinctKeys-middle xs node ys d.1)
    where
      own : (zs : List Node) → Lacks (key_of x) (zs ++ node ∷ ys) → key_of node ≢ key_of x
      own [] h = h.0
      own (z ∷ zs) h = own zs h.1

  -- Where the key is, counted from `place` on.
  abbrev pub Placed : List ℕ → List Node → ℕ → Type 0
  Placed k [] place = ⊥
  Placed k (node ∷ chain) zero = key_of node ≡ k
  Placed k (node ∷ chain) (suc place) = (key_of node ≢ k) × Placed k chain place

  pub lookup-Placed :
      (k : List ℕ) (chain : List Node) (place : ℕ)
      → Placed k chain place
      → lookup k chain ≡ some (get_value place chain)
  lookup-Placed k [] place h = elim h [ ]
  lookup-Placed k (node ∷ chain) zero h = rw (h, same_bytes_self k) refl
  lookup-Placed k (node ∷ chain) (suc place) h =
      rw (not_same node k h.0) (lookup-Placed k chain place h.1)

  -- Values do not count for the keys.
  module _ (keeps : (node : Node) (v : ℕ) → key_of (record node { value = v }) ≡ key_of node) where
    pub All-set_value :
        (P : List ℕ → Type 0) (chain : List Node) (place v : ℕ)
        → All (λ node. P (key_of node)) chain
        → All (λ node. P (key_of node)) (set_value place v chain)
    All-set_value P [] place v h = tt
    All-set_value P (node ∷ chain) zero v h = (rw (keeps node v) h.0, h.1)
    All-set_value P (node ∷ chain) (suc place) v h = (h.0, All-set_value P chain place v h.1)

    pub DistinctKeys-set_value :
        (chain : List Node) (place v : ℕ)
        → DistinctKeys chain
        → DistinctKeys (set_value place v chain)
    DistinctKeys-set_value [] place v d = tt
    DistinctKeys-set_value (node ∷ chain) zero v d = rw (keeps node v) d
    DistinctKeys-set_value (node ∷ chain) (suc place) v d = (
      All-set_value (λ key. key ≢ key_of node) chain place v d.0,
      DistinctKeys-set_value chain place v d.1,
    )

    pub lookup-set_value :
        (k q : List ℕ) (chain : List Node) (place v : ℕ)
        → Placed k chain place
        → lookup q (set_value place v chain) ≡ (if same_bytes k q then some v else lookup q chain)
    lookup-set_value k q [] place v h = elim h [ ]
    lookup-set_value k q (node ∷ chain) zero v h = rw (keeps node v, h) (again (same_bytes k q))
      where
        again :
            (t : Bool)
            → (if t then some v else lookup q chain)
              ≡ (if t then some v else if t then some node.value else lookup q chain)
        again true = refl
        again false = refl
    lookup-set_value k q (node ∷ chain) (suc place) v h = elim (same_bytes_cases (key_of node) q) [
      | inl (e, same) ↦ elim (same_bytes_cases k q) [
        | inl (e', same') ↦ absurd (h.0 (same ∙ sym same'))
        | inr (e', other) ↦ rw (e, e') refl
      ]
      | inr (e, other) ↦ rw e (lookup-set_value k q chain place v h.1)
    ]
