-- ===== src/SxeDict/Valid.antt =====
-- A dictionary of lib-sxe-dict that is in order, and all its nodes.
use libkit.Common.{
  ℕ, ltb, zero, suc, ◌+◌, ◌≤◌, ◌<◌, ◌^◌, ◌%◌, ◌==◌, true, false, if◌then◌else◌, Option, none, List,
  [], ◌∷◌, ◌++◌, All, length, length-append, ◌≡◌, ◌≢◌, refl, sym, ◌∙◌, ap, arith, Bool-cases, inl,
  inr, ==→eq,
}
use native.Mathlib.Nat.{mod-lt}
use libkit.SxeDict.Defs.{Node, Dict}
use libkit.SxeDict.Keys.{key_of, NodeValid, sum_of}
use libkit.SxeDict.Chains.{
  lookup, Lacks, DistinctKeys, Lacks-lookup, lookup-append_Lacks, lookup-append_end,
  DistinctKeys-concat,
}

-- The nodes of the first `n` buckets.
abbrev pub nodes_of : (ℕ → List Node) → ℕ → List Node
nodes_of table zero = []
nodes_of table (suc n) = nodes_of table n ++ table n

abbrev pub total : (ℕ → List Node) → ℕ → ℕ
total table zero = 0
total table (suc n) = total table n + length (table n)

pub length-nodes_of : (table : ℕ → List Node) (n : ℕ) → length (nodes_of table n) ≡ total table n
length-nodes_of table zero = refl
length-nodes_of table (suc n) =
    length-append (nodes_of table n) (table n)
    ∙ ap (λ t. t + length (table n)) (length-nodes_of table n)

-- The value of a key, by a search through all the nodes.
abbrev pub value_at : Dict → List ℕ → Option ℕ
value_at dic k = lookup (key_of dic) k (nodes_of dic.table dic.size)

module _ (hash_64 : List ℕ → ℕ) where
  -- A node is in the bucket of its key.
  abbrev pub InBucket : Dict → ℕ → Node → Type 0
  InBucket dic n node = (sum_of hash_64 dic (key_of dic node) % dic.size ≡ n) × NodeValid dic node

  -- A table is there if it has buckets; each node has the bytes of its key, as `NodeValid` says, and is in
  -- the bucket of its key, no key is there twice, and the nodes have been counted.
  pub record DictValid (dic : Dict) : Type 0 where
    pub there : dic.allocated ≡ true → 0 < dic.size
    pub absent : dic.allocated ≡ false → dic.size ≡ 0
    pub placed : (n : ℕ) → n < dic.size → All (InBucket dic n) (dic.table n)
    pub distinct : (n : ℕ) → n < dic.size → DistinctKeys (key_of dic) (dic.table n)
    pub counted : dic.count ≡ total dic.table dic.size
    pub few : dic.count < 2 ^ 32

  module _ (dic : Dict) (k : List ℕ) where
    abbrev bucket : ℕ
    bucket = sum_of hash_64 dic k % dic.size

    -- Other buckets do not have the key.
    pub other-Lacks :
        (n : ℕ) (chain : List Node)
        → n ≢ bucket
        → All (InBucket dic n) chain
        → Lacks (key_of dic) k chain
    other-Lacks n [] ne h = tt
    other-Lacks n (node ∷ chain) ne h = (
      λ e. ne (sym h.0.0 ∙ ap (λ key. sum_of hash_64 dic key % dic.size) e),
      other-Lacks n chain ne h.1,
    )

    -- The nodes of the buckets before a number, of which the key's may be one.
    lookup_below :
        (n : ℕ)
        → n ≤ dic.size
        → ((i : ℕ) → i < dic.size → All (InBucket dic i) (dic.table i))
        → lookup (key_of dic) k (nodes_of dic.table n)
          ≡ (if ltb bucket n then lookup (key_of dic) k (dic.table bucket) else none)
    lookup_below zero within placed = (let e : ltb bucket 0 ≡ false = ground arith in rw e refl)
    lookup_below (suc n) within placed = elim (Bool-cases (n == bucket)) [
      | inl here ↦
          let e : n ≡ bucket = ==→eq n bucket here in
          let low : ltb bucket n ≡ false = ground (arith, e) in
          let high : ltb bucket (suc n) ≡ true = ground (arith, e) in
          let nothing =
            Lacks-lookup (key_of dic) k (nodes_of dic.table n)
              (lookup_below n (omega (arith, within)) placed ∙ rw low refl) in
          lookup-append_Lacks (key_of dic) k (nodes_of dic.table n) (dic.table n) nothing
          ∙ ap (λ i. lookup (key_of dic) k (dic.table i)) e
          ∙ rw high refl
      | inr elsewhere ↦
          let ne : n ≢ bucket = λ e. absurd (ground (arith, elsewhere, e)) in
          let same : ltb bucket (suc n) ≡ ltb bucket n = ground (arith, elsewhere) in
          lookup-append_end (key_of dic) k (nodes_of dic.table n) (dic.table n)
            (other-Lacks n (dic.table n) ne (placed n (omega (arith, within))))
          ∙ lookup_below n (omega (arith, within)) placed
          ∙ rw same refl
    ]

    -- The key is in its own bucket or nowhere.
    pub value_at-bucket :
        DictValid dic → 0 < dic.size → value_at dic k ≡ lookup (key_of dic) k (dic.table bucket)
    value_at-bucket v some_buckets =
        let below : ltb bucket dic.size ≡ true =
          ground (arith, mod-lt (sum_of hash_64 dic k) some_buckets) in
        lookup_below dic.size (omega arith) v.placed ∙ rw below refl

    -- Nor do the buckets before it.
    pub below-Lacks :
        (n : ℕ)
        → n ≤ dic.size
        → ((i : ℕ) → i < dic.size → All (InBucket dic i) (dic.table i))
        → n ≤ bucket
        → Lacks (key_of dic) k (nodes_of dic.table n)
    below-Lacks n within placed low =
        let e : ltb bucket n ≡ false = ground (arith, low) in
        Lacks-lookup (key_of dic) k (nodes_of dic.table n)
          (lookup_below n within placed ∙ rw e refl)

  -- No key is there twice among all the nodes.
  pub DistinctKeys-nodes_of :
      (dic : Dict) (n : ℕ)
      → n ≤ dic.size
      → DictValid dic
      → DistinctKeys (key_of dic) (nodes_of dic.table n)
  DistinctKeys-nodes_of dic zero within v = tt
  DistinctKeys-nodes_of dic (suc n) within v =
      DistinctKeys-concat (key_of dic) (nodes_of dic.table n) (dic.table n)
        (DistinctKeys-nodes_of dic n (omega (arith, within)) v)
        (v.distinct n (omega (arith, within)))
        (away (dic.table n) (v.placed n (omega (arith, within))))
    where
      away :
          (chain : List Node)
          → All (InBucket dic n) chain
          → All (λ node. Lacks (key_of dic) (key_of dic node) (nodes_of dic.table n)) chain
      away [] h = tt
      away (node ∷ chain) h = (
        below-Lacks dic (key_of dic node) n (omega (arith, within)) v.placed (omega (arith, h.0.0)),
        away chain h.1,
      )
