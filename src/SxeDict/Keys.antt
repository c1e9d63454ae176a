-- ===== src/SxeDict/Keys.antt =====
-- The keys of lib-sxe-dict, apart from the ways they are kept.
use libkit.Common.{
  c_string, ℕ, ◌≤◌, ◌<◌, ◌==◌, true, false, if◌then◌else◌, List, [], ◌∷◌, take, length, ◌≡◌, ◌≢◌,
  refl, sym, ap, arith, Bool-cases, inl, inr, ◌⊎◌, ==→eq, ==_self,
}
use libkit.SxeDict.Defs.{
  strlen, same_bytes, Node, Dict, node_with, compare_keys, sxe_hash_64, node_sum,
}

pub same_bytes_self : (xs : List ℕ) → same_bytes xs xs ≡ true
same_bytes_self [] = refl
same_bytes_self (x ∷ xs) = rw (==_self x) (same_bytes_self xs)

pub same_bytes→eq : (xs ys : List ℕ) → same_bytes xs ys ≡ true → xs ≡ ys
same_bytes→eq [] [] h = refl
same_bytes→eq [] (y ∷ ys) h = absurd (cc h)
same_bytes→eq (x ∷ xs) [] h = absurd (cc h)
same_bytes→eq (x ∷ xs) (y ∷ ys) h = elim (Bool-cases (x == y)) [
  | inl e ↦
      let rest : same_bytes xs ys ≡ true = ground (arith, h) in
      rw (==→eq x y e, same_bytes→eq xs ys rest) refl
  | inr e ↦ absurd (ground (arith, h, e))
]

pub same_bytes_cases :
    (xs ys : List ℕ)
    → ((same_bytes xs ys ≡ true) × (xs ≡ ys)) ⊎ ((same_bytes xs ys ≡ false) × (xs ≢ ys))
same_bytes_cases xs ys = elim (Bool-cases (same_bytes xs ys)) [
  | inl e ↦ inl (e, same_bytes→eq xs ys e)
  | inr e ↦ inr (e, λ same. absurd (cc (e, ap (same_bytes xs) (sym same), same_bytes_self xs)))
]

-- The key of a node: one number for a hashed key, and else the bytes.
abbrev pub key_of : Dict → Node → List ℕ
key_of dic node =
    if dic.keys_hashed
    then node.key_hash ∷ []
    else if dic.keys_string
    then c_string node.key
    else take node.len node.key

abbrev pub first_or : List ℕ → ℕ → ℕ
first_or [] d = d
first_or (x ∷ xs) d = x

-- Memory that has a NUL, so that a string ends in it.
abbrev pub HasNul : List ℕ → Type 0
HasNul key = strlen key < length key

-- A node that has all the bytes of its key that are read: those of a string up to its NUL, and as many as
-- the length of a binary key. An empty binary key, which is hashed as a string when it is put in again, is
-- no copy and has a NUL.
abbrev pub NodeValid : Dict → Node → Type 0
NodeValid dic node =
    if dic.keys_hashed
    then Unit
    else if dic.keys_string
    then HasNul node.key
    else (node.len ≤ length node.key)
      × (node.len ≡ 0 → (dic.keys_nocopy ≡ true) × (c_string node.key ≡ []) × HasNul node.key)

module _ (hash_64 : List ℕ → ℕ) where
  -- The hash sum of a key.
  abbrev pub sum_of : Dict → List ℕ → ℕ
  sum_of dic key = if dic.keys_hashed then first_or key 0 else hash_64 key

  -- A call with a hash, a pointer and a length asks for a key.
  pub record Asks (dic : Dict) (hash : ℕ) (key : List ℕ) (len : ℕ) (k : List ℕ) : Type 0 where
    pub summed : sum_of dic k ≡ hash
    pub compared :
        (node : Node)
        → NodeValid dic node
        → compare_keys dic node hash key len ≡ same_bytes (key_of dic node) k
    pub made : (past : List ℕ) → key_of dic (node_with past dic hash key len) ≡ k
    pub made_valid : (past : List ℕ) → NodeValid dic (node_with past dic hash key len)

  -- Putting a node in again uses the sum of its key.
  pub node_sum-sum_of :
      (dic : Dict) (node : Node)
      → NodeValid dic node
      → node_sum hash_64 dic node ≡ sum_of dic (key_of dic node)
  unfolding node_sum sxe_hash_64
  node_sum-sum_of dic node v = elim (Bool-cases (dic.keys_hashed)) [
    | inl h ↦ rw h refl
    | inr h ↦ elim (Bool-cases (dic.keys_string)) [
      | inl s ↦ rw (h, s) refl
      | inr s ↦
          let w : (node.len ≤ length node.key)
              × (node.len ≡ 0
                  → (dic.keys_nocopy ≡ true) × (c_string node.key ≡ []) × HasNul node.key) =
            simp (h, s) at v in
          elim (Bool-cases (node.len == 0)) [
            | inl z ↦ let e = ==→eq node.len 0 z in rw (h, s, z, (w.1 e).1, e) refl
            | inr nz ↦ rw (h, s, nz) refl
          ]
    ]
  ]
