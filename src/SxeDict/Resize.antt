-- ===== src/SxeDict/Resize.antt =====
-- `sxe_dict_resize` of lib-sxe-dict/sxe-dict.c keeps all entries.
use libkit.Common.{
  ℕ, zero, suc, ◌+◌, ◌≤◌, ◌<◌, ◌%◌, ◌==◌, Bool, true, false, List, [], ◌∷◌, ◌++◌, All, length,
  length-append, append_assoc, append-nil, ◌≡◌, ◌≢◌, refl, sym, ◌∙◌, ap, arith, Bool-cases, inl,
  inr, ◌⊎◌, ==→eq, ==_self,
}
use native.Mathlib.Nat.{mod-lt}
use mathlib.Core.Path.{subst}
use libkit.SxeDict.Defs.{
  Node, Dict, no_nodes, set_bucket, node_sum, sxe_dict_reinsert_when_resizing, reinsert_chain,
  reinsert_table, sxe_dict_resize,
}
use libkit.SxeDict.Keys.{
  key_of, NodeValid, sum_of, node_sum-sum_of, same_bytes_cases, same_bytes_self,
}
use libkit.SxeDict.Chains.{
  lookup, Lacks, DistinctKeys, lookup-Lacks, Lacks-lookup, lookup-append_Lacks, lookup-append_end,
  DistinctKeys-middle, not_same,
}
use libkit.SxeDict.Valid.{
  nodes_of, total, length-nodes_of, value_at, InBucket, DictValid, DistinctKeys-nodes_of,
  value_at-bucket,
}

pub total-set_bucket :
    (table : ℕ → List Node) (i : ℕ) (chain : List Node) (n : ℕ)
    → i < n
    → total (set_bucket table i chain) n + length (table i) ≡ total table n + length chain
total-set_bucket table i chain zero below = absurd (omega arith)
total-set_bucket table i chain (suc n) below = elim (Bool-cases (n == i)) [
  | inl here ↦
      let e : n ≡ i = ==→eq n i here in
      let rest = total_past n (omega (arith, e)) in rw (here, rest, e) (omega arith)
  | inr other ↦
      let less : i < n = ground (arith, other) in
      rw other (omega (arith, total-set_bucket table i chain n less))
]
  where
    total_past : (m : ℕ) → m ≤ i → total (set_bucket table i chain) m ≡ total table m
    total_past zero h = refl
    total_past (suc m) h =
        let other : (m == i) ≡ false = ground (arith, h) in
        rw other (omega (arith, total_past m (omega arith)))

pub total-no_nodes : (n : ℕ) → total no_nodes n ≡ 0
total-no_nodes zero = refl
total-no_nodes (suc n) = omega (arith, total-no_nodes n)

module _ (hash_64 : List ℕ → ℕ) (dic : Dict) (some_buckets : 0 < dic.size) where
  abbrev home : List ℕ → ℕ
  home k = sum_of hash_64 dic k % dic.size

  abbrev with_nodes : (ℕ → List Node) → Dict
  with_nodes table = record dic { table = table }

  -- The table has exactly the nodes `done`, each in the bucket of its key.
  pub record Holding (table : ℕ → List Node) (done : List Node) : Type 0 where
    pub placed : (n : ℕ) → n < dic.size → All (InBucket hash_64 dic n) (table n)
    pub distinct : (n : ℕ) → n < dic.size → DistinctKeys (key_of dic) (table n)
    pub looked : (k : List ℕ) → lookup (key_of dic) k (table (home k)) ≡ lookup (key_of dic) k done
    pub number : total table dic.size ≡ length done

  abbrev pushed : (ℕ → List Node) → Node → ℕ → List Node
  pushed table node = let n = home (key_of dic node) in set_bucket table n (node ∷ table n)

  reinsert-pushed :
      (table : ℕ → List Node) (node : Node)
      → NodeValid dic node
      → sxe_dict_reinsert_when_resizing hash_64 (with_nodes table) node
        ≡ with_nodes (pushed table node)
  unfolding sxe_dict_reinsert_when_resizing node_sum
  reinsert-pushed table node v =
      ap (λ sum. with_nodes (set_bucket table (sum % dic.size) (node ∷ table (sum % dic.size))))
        (node_sum-sum_of hash_64 dic node v)

  pushed-Holding :
      (table : ℕ → List Node) (done : List Node) (node : Node)
      → NodeValid dic node
      → Holding table done
      → Lacks (key_of dic) (key_of dic node) done
      → Holding (pushed table node) (done ++ node ∷ [])
  pushed-Holding table done node v h away =
      let k = key_of dic node in
      let n = home k in
      let below : n < dic.size = mod-lt (sum_of hash_64 dic k) some_buckets in
      let new =
        Lacks-lookup (key_of dic) k (table n)
          (h.looked k ∙ lookup-Lacks (key_of dic) k done away) in
      record {
        placed = λ i b. elim (Bool-cases (i == n)) [
          | inl here ↦
              let e = ==→eq i n here in
              rw here
                ((sym e, v), subst (λ j. All (InBucket hash_64 dic i) (table j)) e (h.placed i b))
          | inr other ↦ rw other (h.placed i b)
        ];
        distinct = λ i b. elim (Bool-cases (i == n)) [
          | inl here ↦ let e = ==→eq i n here in rw here (new, h.distinct n below)
          | inr other ↦ rw other (h.distinct i b)
        ];
        looked = λ k'. elim (same_bytes_cases k k') [
          | inl (e, same) ↦
              subst
                (λ q.
                  lookup (key_of dic) q (pushed table node (home q))
                  ≡ lookup (key_of dic) q (done ++ node ∷ []))
                same
                (rw (==_self n, same_bytes_self k)
                  (sym (
                    lookup-append_Lacks (key_of dic) k done (node ∷ []) away
                    ∙ rw (same_bytes_self k) refl)))
          | inr (e, other) ↦
              later k' other
              ∙ h.looked k'
              ∙ sym (lookup-append_end (key_of dic) k' done (node ∷ []) (other, tt))
        ];
        number = omega (
          arith,
          total-set_bucket table n (node ∷ table n) dic.size below,
          h.number,
          length-append done (node ∷ []),
        );
      }
    where
      later :
          (k' : List ℕ)
          → key_of dic node ≢ k'
          → lookup (key_of dic) k' (pushed table node (home k'))
            ≡ lookup (key_of dic) k' (table (home k'))
      later k' ne = elim (Bool-cases (home k' == home (key_of dic node))) [
        | inl here ↦
            let e = ==→eq (home k') (home (key_of dic node)) here in
            rw (here, not_same (key_of dic) node k' ne)
              (ap (λ i. lookup (key_of dic) k' (table i)) (sym e))
        | inr other ↦ rw other refl
      ]

  -- What a loop of reinsertions leaves: the same dictionary but for the table.
  abbrev Leaves : Dict → List Node → Type 0
  Leaves result done = (table : ℕ → List Node) × ((result ≡ with_nodes table) × Holding table done)

  chain-Leaves :
      (chain done : List Node) (table : ℕ → List Node)
      → All (NodeValid dic) chain
      → DistinctKeys (key_of dic) (done ++ chain)
      → Holding table done
      → Leaves (reinsert_chain hash_64 chain (with_nodes table)) (done ++ chain)
  unfolding reinsert_chain
  chain-Leaves [] done table valid d h =
      (table, (refl, subst (Holding table) (sym (append-nil done)) h))
  chain-Leaves (node ∷ chain) done table valid d h =
      let away = DistinctKeys-middle (key_of dic) done node chain d in
      let next = pushed-Holding table done node valid.0 h away in
      let regroup = append_assoc done (node ∷ []) chain in
      let (table', (e, g)) =
        chain-Leaves chain (done ++ node ∷ []) (pushed table node) valid.1
          (subst (DistinctKeys (key_of dic)) (sym regroup) d) next in
      (
        table',
        (
          ap (reinsert_chain hash_64 chain) (reinsert-pushed table node valid.0) ∙ e,
          subst (Holding table') regroup g,
        ),
      )

  module _ (old : ℕ → List Node) (m : ℕ) (valid : (i : ℕ) → i < m → All (NodeValid dic) (old i))
      (distinct : (i : ℕ) → i ≤ m → DistinctKeys (key_of dic) (nodes_of old i)) where
    table-Leaves :
        (n i : ℕ) (table : ℕ → List Node)
        → i + n ≤ m
        → Holding table (nodes_of old i)
        → Leaves (reinsert_table hash_64 old i n (with_nodes table)) (nodes_of old (i + n))
    unfolding reinsert_table
    table-Leaves zero i table within h =
        let e : i ≡ i + 0 = omega arith in
        (table, (refl, subst (λ j. Holding table (nodes_of old j)) e h))
    table-Leaves (suc n) i table within h =
        let (table', (e, g)) =
          chain-Leaves (old i) (nodes_of old i) table (valid i (omega (arith, within)))
            (distinct (suc i) (omega (arith, within))) h in
        let next : suc i ≡ i + 1 = omega arith in
        let all : i + 1 + n ≡ i + suc n = omega arith in
        let (table'', (e', g')) =
          table-Leaves n (i + 1) table' (omega (arith, within))
            (subst (λ j. Holding table' (nodes_of old j)) next g) in
        (
          table'',
          (
            ap (reinsert_table hash_64 old (i + 1) n) e ∙ e',
            subst (λ j. Holding table'' (nodes_of old j)) all g',
          ),
        )

  no_nodes-Holding : Holding no_nodes []
  no_nodes-Holding = record {
    placed = λ n b. tt;
    distinct = λ n b. tt;
    looked = λ k. refl;
    number = total-no_nodes dic.size;
  }

-- The dictionary with another table.
abbrev pub resized : Dict → ℕ → (ℕ → List Node) → Dict
resized dic newsize table = record dic { allocated = true; table = table; size = newsize }

-- The same keys have the same values.
abbrev pub SameEntries : Dict → Dict → Type 0
SameEntries dic dic' = (k : List ℕ) → value_at dic' k ≡ value_at dic k

pub all_valid :
    (hash_64 : List ℕ → ℕ) (dic : Dict) (n : ℕ) (chain : List Node)
    → All (InBucket hash_64 dic n) chain
    → All (NodeValid dic) chain
all_valid hash_64 dic n [] h = tt
all_valid hash_64 dic n (node ∷ chain) h = (h.0.1, all_valid hash_64 dic n chain h.1)

-- Resizing a dictionary in order, none of whose copied binary keys is empty, to at least one bucket: if
-- no memory is given it is left as it was; otherwise it is in order with as many buckets as asked for,
-- and every key has the value it had.
pub sxe_dict_resize-DictValid :
    (hash_64 : List ℕ → ℕ) (calloc_ok : Bool) (dic : Dict) (newsize : ℕ)
    → DictValid hash_64 dic
    → 0 < newsize
    → ((calloc_ok ≡ false) × (sxe_dict_resize hash_64 calloc_ok dic newsize ≡ (false, dic)))
      ⊎ ((table : ℕ → List Node) × ((sxe_dict_resize hash_64 calloc_ok dic newsize
              ≡ (true, resized dic newsize table))
            × DictValid hash_64 (resized dic newsize table)
            × SameEntries dic (resized dic newsize table)))
unfolding sxe_dict_resize
sxe_dict_resize-DictValid hash_64 false dic newsize v some_buckets = inl (refl, refl)
sxe_dict_resize-DictValid hash_64 true dic newsize v some_buckets =
    let empty = resized dic newsize no_nodes in
    let (table, (e, h)) =
      table-Leaves hash_64 empty some_buckets dic.table dic.size
        (λ i b. all_valid hash_64 dic i (dic.table i) (v.placed i b))
        (λ i b. DistinctKeys-nodes_of hash_64 dic i b v) dic.size 0 no_nodes (omega arith)
        (no_nodes-Holding hash_64 empty some_buckets) in
    let all : 0 + dic.size ≡ dic.size = omega arith in
    let g = subst (λ n. Holding hash_64 empty some_buckets table (nodes_of dic.table n)) all h in
    let w : DictValid hash_64 (resized dic newsize table) = record {
      there = λ _. some_buckets;
      absent = λ no_table. absurd (cc no_table);
      placed = g.placed;
      distinct = g.distinct;
      counted = v.counted ∙ sym (length-nodes_of dic.table dic.size) ∙ sym g.number;
      few = v.few;
    } in
    inr (
      table,
      (
        ap (λ d. (true, d)) e,
        w,
        λ k. value_at-bucket hash_64 (resized dic newsize table) k w some_buckets ∙ g.looked k,
      ),
    )
