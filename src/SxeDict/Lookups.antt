-- ===== src/SxeDict/Lookups.antt =====
-- Finding keys in a dictionary of lib-sxe-dict, and putting another chain in a bucket.
use libkit.Common.{
  ℕ, suc, ◌+◌, ◌<◌, ◌^◌, ◌%◌, ◌==◌, if◌then◌else◌, Option, none, some, List, [], ◌∷◌, All, length,
  ◌≡◌, refl, sym, ◌∙◌, ap, arith, Bool-cases, inl, inr, ◌⊎◌, ==→eq,
}
use native.Mathlib.Nat.{mod-lt}
use mathlib.Core.Path.{subst}
use libkit.SxeDict.Defs.{Node, Dict, set_bucket, place_of, find_in_chain, find_entry}
use libkit.SxeDict.Keys.{key_of, NodeValid, sum_of, Asks, same_bytes_cases}
use libkit.SxeDict.Chains.{lookup, Lacks, DistinctKeys, Placed}
use libkit.SxeDict.Valid.{value_at, InBucket, DictValid, value_at-bucket}
use libkit.SxeDict.Resize.{total-set_bucket, all_valid}

-- The value, or NULL.
abbrev pub or_null : Option ℕ → ℕ
or_null none = 0
or_null (some v) = v

module _ (hash_64 : List ℕ → ℕ) (dic : Dict) (hash : ℕ) (key : List ℕ) (len : ℕ) (k : List ℕ)
    (asks : Asks hash_64 dic hash key len k) where
  find_in_chain-lookup :
      (chain : List Node)
      → All (NodeValid dic) chain
      → find_in_chain dic hash key len chain ≡ or_null (lookup (key_of dic) k chain)
  unfolding find_in_chain
  find_in_chain-lookup [] valid = refl
  find_in_chain-lookup (node ∷ chain) valid = elim (same_bytes_cases (key_of dic node) k) [
    | inl (e, same) ↦ rw (asks.compared node valid.0, e) refl
    | inr (e, other) ↦ rw (asks.compared node valid.0, e) (find_in_chain-lookup chain valid.1)
  ]

  -- Looking for a key in a dictionary in order gives the value that a search through all its nodes
  -- finds, or NULL.
  pub find_entry-value_at :
      DictValid hash_64 dic → find_entry dic hash key len ≡ or_null (value_at dic k)
  unfolding find_entry
  find_entry-value_at v = elim (Bool-cases (dic.allocated)) [
    | inr no_table ↦ rw (no_table, v.absent no_table) refl
    | inl table ↦
        let some_buckets = v.there table in
        let below = mod-lt (sum_of hash_64 dic k) some_buckets in
        let here = sum_of hash_64 dic k % dic.size in
        ap (λ t. if t then find_in_chain dic hash key len (dic.table (hash % dic.size)) else 0)
          table
        ∙ ap (λ sum. find_in_chain dic hash key len (dic.table (sum % dic.size))) (sym asks.summed)
        ∙ find_in_chain-lookup (dic.table here)
            (all_valid hash_64 dic here (dic.table here) (v.placed here below))
        ∙ ap or_null (sym (value_at-bucket hash_64 dic k v some_buckets))
  ]

  -- The place of the key in a chain, or that it is not there.
  pub place_of-cases :
      (chain : List Node) (start : ℕ)
      → All (NodeValid dic) chain
      → ((place : ℕ) × ((place_of dic hash key len chain start ≡ some (start + place))
            × Placed (key_of dic) k chain place))
        ⊎ ((place_of dic hash key len chain start ≡ none) × Lacks (key_of dic) k chain)
  unfolding place_of
  place_of-cases [] start valid = inr (refl, tt)
  place_of-cases (node ∷ chain) start valid = elim (same_bytes_cases (key_of dic node) k) [
    | inl (e, same) ↦
        let here : start ≡ start + 0 = omega arith in
        inl (0, (rw (asks.compared node valid.0, e) (ap some here), same))
    | inr (e, other) ↦ elim (place_of-cases chain (start + 1) valid.1) [
      | inl (place, (f, placed)) ↦
          let there : start + 1 + place ≡ start + suc place = omega arith in
          inl (suc place, (rw (asks.compared node valid.0, e) (f ∙ ap some there), (other, placed)))
      | inr (f, lacks) ↦ inr (rw (asks.compared node valid.0, e) f, (other, lacks))
    ]
  ]

-- Another chain in a bucket, and another count.
abbrev pub rechained : Dict → ℕ → List Node → ℕ → Dict
rechained dic b chain count = record dic { table = set_bucket dic.table b chain; count = count }

module _ (hash_64 : List ℕ → ℕ) (dic : Dict) (v : DictValid hash_64 dic) (b : ℕ)
    (below : b < dic.size) (chain : List Node) (count : ℕ)
    (within : All (InBucket hash_64 dic b) chain) (distinct : DistinctKeys (key_of dic) chain)
    (counted : count + length (dic.table b) ≡ dic.count + length chain) (few : count < 2 ^ 32) where
  pub rechained-DictValid : DictValid hash_64 (rechained dic b chain count)
  rechained-DictValid = record {
    there = v.there;
    absent = v.absent;
    placed = λ i h. elim (Bool-cases (i == b)) [
      | inl here ↦
          rw here (subst (λ j. All (InBucket hash_64 dic j) chain) (sym (==→eq i b here)) within)
      | inr other ↦ rw other (v.placed i h)
    ];
    distinct = λ i h. elim (Bool-cases (i == b)) [
      | inl here ↦ rw here distinct
      | inr other ↦ rw other (v.distinct i h)
    ];
    counted = omega (arith, counted, v.counted, total-set_bucket dic.table b chain dic.size below);
    few = few;
  }

  pub rechained-value_at :
      (q : List ℕ)
      → value_at (rechained dic b chain count) q ≡ (
          if sum_of hash_64 dic q % dic.size == b
          then lookup (key_of dic) q chain
          else value_at dic q)
  rechained-value_at q =
      let some_buckets : 0 < dic.size = omega (arith, below) in
      value_at-bucket hash_64 (rechained dic b chain count) q rechained-DictValid some_buckets
      ∙ elim (Bool-cases (sum_of hash_64 dic q % dic.size == b)) [
        | inl here ↦ rw here refl
        | inr other ↦ rw other (sym (value_at-bucket hash_64 dic q v some_buckets))
      ]
