-- ===== src/SxeDict/Add.antt =====
-- Adding keys to a dictionary of lib-sxe-dict, and storing their values.
use libkit.Common.{
  ℕ, zero, suc, ◌+◌, ◌<◌, ◌^◌, ◌%◌, ◌==◌, Bool, true, false, if◌then◌else◌, Option, none, some,
  List, [], ◌∷◌, ◌++◌, All, All-append, length, length-append, ◌≡◌, refl, sym, ◌∙◌, ap, arith,
  Bool-cases, inl, inr, ◌⊎◌, ==→eq, ==_self, u32,
}
use native.Mathlib.Nat.{mod-lt}
use mathlib.Core.Path.{subst}
use libkit.SxeDict.Defs.{
  same_bytes, Node, Dict, set_bucket, Granted, no_memory, copied_to_null, new_node, node_with,
  copies_keys, sxe_dict_node_new, Addition, place_of, find_or_append,
}
use libkit.SxeDict.Keys.{key_of, sum_of, Asks, same_bytes_cases, same_bytes_self}
use libkit.SxeDict.Chains.{
  set_value, get_value, lookup, Lacks, DistinctKeys, Placed, lookup-Lacks, lookup-append_Lacks,
  lookup-append_end, lookup-Placed, lookup-set_value, DistinctKeys-set_value, DistinctKeys-append,
}
use libkit.SxeDict.Valid.{value_at, InBucket, DictValid, value_at-bucket}
use libkit.SxeDict.Resize.{SameEntries, all_valid}
use libkit.SxeDict.Lookups.{
  or_null, place_of-cases, rechained, rechained-DictValid, rechained-value_at,
}

-- Reading and storing through the pointer to a value.
abbrev pub read_value : Dict → ℕ × ℕ → ℕ
read_value dic (b, place) = get_value place (dic.table b)

abbrev pub write_value : Dict → ℕ × ℕ → ℕ → Dict
write_value dic (b, place) v = record dic {
  table = set_bucket dic.table b (set_value place v (dic.table b));
}

length-set_value :
    (place v : ℕ) (chain : List Node) → length (set_value place v chain) ≡ length chain
length-set_value place v [] = refl
length-set_value zero v (node ∷ chain) = refl
length-set_value (suc place) v (node ∷ chain) = ap suc (length-set_value place v chain)

All-set_value_node :
    (P : Node → Type 0)
    → ((node : Node) (v : ℕ) → P node → P (record node { value = v }))
    → (chain : List Node) (place v : ℕ) → All P chain
    → All P (set_value place v chain)
All-set_value_node P keep [] place v h = tt
All-set_value_node P keep (node ∷ chain) zero v h = (keep node v h.0, h.1)
All-set_value_node P keep (node ∷ chain) (suc place) v h =
    (h.0, All-set_value_node P keep chain place v h.1)

module _ (hash_64 : List ℕ → ℕ) where
  -- The pointer is to the value of `k`: reading it gives that value, and storing through it changes this
  -- value and no other, and leaves the dictionary in order.
  pub record PointsAt (dic : Dict) (k : List ℕ) (at : ℕ × ℕ) : Type 0 where
    pub reads : value_at dic k ≡ some (read_value dic at)
    pub stays : (v : ℕ) → DictValid hash_64 (write_value dic at v)
    pub writes :
        (v : ℕ) (q : List ℕ)
        → value_at (write_value dic at v) q ≡ (if same_bytes k q then some v else value_at dic q)

  module _ (dic : Dict) (v : DictValid hash_64 dic) (some_buckets : 0 < dic.size) (k : List ℕ) where
    abbrev home : ℕ
    home = sum_of hash_64 dic k % dic.size

    below : home < dic.size
    below = mod-lt (sum_of hash_64 dic k) some_buckets

    Placed-PointsAt :
        (place : ℕ) → Placed (key_of dic) k (dic.table home) place → PointsAt dic k (home, place)
    Placed-PointsAt place h = record {
      reads =
          value_at-bucket hash_64 dic k v some_buckets
          ∙ lookup-Placed (key_of dic) k (dic.table home) place h;
      stays = λ w.
          rechained-DictValid hash_64 dic v home below (chain w) dic.count (within w) (distinct w)
            (counted w) v.few;
      writes = λ w q.
          rechained-value_at hash_64 dic v home below (chain w) dic.count (within w) (distinct w)
            (counted w) v.few q
          ∙ values w q;
    }
      where
        chain : ℕ → List Node
        chain w = set_value place w (dic.table home)

        within : (w : ℕ) → All (InBucket hash_64 dic home) (chain w)
        within w =
            All-set_value_node (InBucket hash_64 dic home) (λ node u g. g) (dic.table home) place w
              (v.placed home below)

        distinct : (w : ℕ) → DistinctKeys (key_of dic) (chain w)
        distinct w =
            DistinctKeys-set_value (key_of dic) (λ node u. refl) (dic.table home) place w
              (v.distinct home below)

        counted : (w : ℕ) → dic.count + length (dic.table home) ≡ dic.count + length (chain w)
        counted w = omega (arith, length-set_value place w (dic.table home))

        values :
            (w : ℕ) (q : List ℕ)
            → (if sum_of hash_64 dic q % dic.size == home
                then lookup (key_of dic) q (chain w)
                else value_at dic q)
              ≡ (if same_bytes k q then some w else value_at dic q)
        values w q = elim (Bool-cases (sum_of hash_64 dic q % dic.size == home)) [
          | inl here ↦
              let e = ==→eq _ _ here in
              rw here (
                lookup-set_value (key_of dic) (λ node u. refl) k q (dic.table home) place w h
                ∙ ap (λ t. if same_bytes k q then some w else t)
                    (ap (λ i. lookup (key_of dic) q (dic.table i)) (sym e)
                      ∙ sym (value_at-bucket hash_64 dic q v some_buckets)))
          | inr other ↦ elim (same_bytes_cases k q) [
            | inl (f, same) ↦
                absurd (ground (arith, other, ap (λ p. sum_of hash_64 dic p % dic.size) (sym same)))
            | inr (f, differ) ↦ rw (other, f) refl
          ]
        ]

  -- The dictionary with the key, which has the value it had, or NULL.
  abbrev pub HasAdded : Dict → List ℕ → Dict → Type 0
  HasAdded dic k dic' =
      (q : List ℕ)
      → value_at dic' q
        ≡ (if same_bytes k q then some (or_null (value_at dic k)) else value_at dic q)

  -- The result of adding a key: NULL, with the entries as they were; or a pointer to the value of the
  -- key. `denied` says that a request for memory was not granted.
  abbrev pub Added : Dict → List ℕ → Bool → Option (ℕ × ℕ) × Dict → Type 0
  Added dic k granted result =
      ((granted ≡ false)
        × (result.0 ≡ none)
        × DictValid hash_64 (result.1)
        × SameEntries dic (result.1))
      ⊎ ((at : ℕ × ℕ) × ((result.0 ≡ some at)
            × DictValid hash_64 (result.1)
            × PointsAt (result.1) k at
            × HasAdded dic k (result.1)))

  -- All results of adding a key: those above, or a copy through NULL, where the request for the copy of a
  -- key that was not there is denied.
  abbrev pub AddedOr : Dict → List ℕ → Bool → Bool → Addition → Type 0
  AddedOr dic k granted copied none =
      (copied ≡ false) × (copies_keys dic ≡ true) × (value_at dic k ≡ none)
  AddedOr dic k granted copied (some result) = Added dic k granted result

  Placed-append :
      (dic : Dict) (k : List ℕ) (chain : List Node) (node : Node)
      → Lacks (key_of dic) k chain
      → key_of dic node ≡ k
      → Placed (key_of dic) k (chain ++ node ∷ []) (length chain)
  Placed-append dic k [] node h e = e
  Placed-append dic k (n ∷ chain) node h e = (h.0, Placed-append dic k chain node h.1 e)

  module _ (dic : Dict) (v : DictValid hash_64 dic) (some_buckets : 0 < dic.size) (k key : List ℕ)
      (len : ℕ) (asks : Asks hash_64 dic (sum_of hash_64 dic k) key len k)
      (room : dic.count + 1 < 2 ^ 32) (past : List ℕ) where
    abbrev chain : List Node
    chain = dic.table (home dic v some_buckets k)

    abbrev node : Node
    node = node_with past dic (sum_of hash_64 dic k) key len

    appended_values :
        Lacks (key_of dic) k chain
        → (q : List ℕ)
        → (if sum_of hash_64 dic q % dic.size == home dic v some_buckets k
            then lookup (key_of dic) q (chain ++ node ∷ [])
            else value_at dic q)
          ≡ (if same_bytes k q then some (or_null (value_at dic k)) else value_at dic q)
    unfolding node_with
    appended_values lacks q = elim (same_bytes_cases k q) [
      | inl (e, same) ↦
          subst
            (λ p.
              (if sum_of hash_64 dic p % dic.size == home dic v some_buckets k
                then lookup (key_of dic) p (chain ++ node ∷ [])
                else value_at dic p)
              ≡ (if same_bytes k p then some (or_null (value_at dic k)) else value_at dic p))
            same
            (rw (==_self (home dic v some_buckets k), same_bytes_self k)
              (lookup-append_Lacks (key_of dic) k chain (node ∷ []) lacks
                ∙ own_value
                ∙ ap (λ t. some (or_null t)) (sym nothing)))
      | inr (e, differ) ↦
          elim (Bool-cases (sum_of hash_64 dic q % dic.size == home dic v some_buckets k)) [
            | inr other ↦ rw (other, e) refl
            | inl here ↦
                rw (here, e)
                  (lookup-append_end (key_of dic) q chain (node ∷ [])
                      ((λ f. differ (sym (asks.made past) ∙ f)), tt)
                    ∙ ap (λ i. lookup (key_of dic) q (dic.table i)) (sym (==→eq _ _ here))
                    ∙ sym (value_at-bucket hash_64 dic q v some_buckets))
          ]
    ]
      where
        nothing : value_at dic k ≡ none
        nothing =
            value_at-bucket hash_64 dic k v some_buckets ∙ lookup-Lacks (key_of dic) k chain lacks

        own_value : lookup (key_of dic) k (node ∷ []) ≡ some 0
        own_value =
            ap (λ p. if same_bytes p k then some 0 else none) (asks.made past)
            ∙ rw (same_bytes_self k) refl

    appended_Added :
        Lacks (key_of dic) k chain
        → let dic' =
            rechained dic (home dic v some_buckets k) (chain ++ node ∷ []) (u32 (dic.count + 1)) in
          DictValid hash_64 dic'
          × PointsAt dic' k (home dic v some_buckets k, length chain)
          × HasAdded dic k dic'
    appended_Added lacks =
        let b = home dic v some_buckets k in
        let below_b = below dic v some_buckets k in
        let within = All-append (InBucket hash_64 dic b) chain (node ∷ []) (v.placed b below_b) (
          (ap (λ p. sum_of hash_64 dic p % dic.size) (asks.made past), (asks.made_valid past)),
          tt,
        ) in
        let distinct =
          DistinctKeys-append (key_of dic) chain node (v.distinct b below_b)
            (subst (λ p. Lacks (key_of dic) p chain) (sym (asks.made past)) lacks) in
        let no_wrap : u32 (dic.count + 1) ≡ dic.count + 1 = omega (arith, room) in
        let counted : u32 (dic.count + 1) + length chain ≡ dic.count + length (chain ++ node ∷ []) =
          omega (arith, no_wrap, length-append chain (node ∷ [])) in
        let few : u32 (dic.count + 1) < 2 ^ 32 = omega (arith, no_wrap, room) in
        let dic' = rechained dic b (chain ++ node ∷ []) (u32 (dic.count + 1)) in
        let v' =
          rechained-DictValid hash_64 dic v b below_b (chain ++ node ∷ []) (u32 (dic.count + 1))
            within distinct counted few in
        let own : set_bucket dic.table b (chain ++ node ∷ []) b ≡ chain ++ node ∷ [] =
          rw (==_self b) refl in
        (
          v',
          Placed-PointsAt dic' v' some_buckets k (length chain) (
              subst (λ c. Placed (key_of dic) k c (length chain)) (sym own)
                (Placed-append dic k chain node lacks (asks.made past))),
          λ q.
              rechained-value_at hash_64 dic v b below_b (chain ++ node ∷ []) (u32 (dic.count + 1))
                within distinct counted few q
              ∙ appended_values lacks q,
        )

  new_node-cases :
      (granted : Granted) (dic : Dict) (hash : ℕ) (key : List ℕ) (len : ℕ)
      → ((granted.node ≡ false) × (sxe_dict_node_new granted dic hash key len ≡ no_memory))
        ⊎ (((granted.key_copy ≡ false)
              × (copies_keys dic ≡ true)
              × (sxe_dict_node_new granted dic hash key len ≡ copied_to_null))
            ⊎ (sxe_dict_node_new granted dic hash key len
                ≡ new_node (node_with granted.past_copy dic hash key len)))
  unfolding sxe_dict_node_new
  new_node-cases granted dic hash key len = elim (Bool-cases (granted.node)) [
    | inr denied ↦ inl (denied, rw denied refl)
    | inl ok ↦ elim (Bool-cases (copies_keys dic)) [
      | inr same ↦ inr (inr (rw (ok, same) refl))
      | inl copies ↦ elim (Bool-cases (granted.key_copy)) [
        | inl copied ↦ inr (inr (rw (ok, copies, copied) refl))
        | inr denied ↦ inr (inl (denied, copies, rw (ok, copies, denied) refl))
      ]
    ]
  ]

  module _ (dic : Dict) (v : DictValid hash_64 dic) (some_buckets : 0 < dic.size) (k key : List ℕ)
      (len : ℕ) (asks : Asks hash_64 dic (sum_of hash_64 dic k) key len k)
      (room : dic.count + 1 < 2 ^ 32) (granted : Granted) where
    abbrev bucket : ℕ
    bucket = home dic v some_buckets k

    abbrev Ends : Addition → Type 0
    Ends = AddedOr dic k granted.node granted.key_copy

    abbrev searched : Option ℕ
    searched = place_of dic (sum_of hash_64 dic k) key len (dic.table bucket) 0

    abbrev result : Addition
    result = find_or_append granted dic (sum_of hash_64 dic k) key len

    found :
        (place : ℕ)
        → searched ≡ some place
        → Placed (key_of dic) k (dic.table bucket) place
        → Ends result
    unfolding find_or_append
    found place e placed =
        let points = Placed-PointsAt dic v some_buckets k place placed in
        rw (find_or_append, e)
          (inr (
            (bucket, place),
            (
              refl,
              v,
              points,
              λ q. elim (same_bytes_cases k q) [
                | inl (e', same) ↦
                    rw (e', points.reads) (ap (value_at dic) (sym same) ∙ points.reads)
                | inr (e', differ) ↦ rw e' refl
              ],
            ),
          ))

    absent : searched ≡ none → Lacks (key_of dic) k (dic.table bucket) → Ends result
    unfolding find_or_append
    absent e lacks = elim (new_node-cases granted dic (sum_of hash_64 dic k) key len) [
      | inl (denied, f) ↦ rw (find_or_append, e, f) (inl (denied, refl, v, λ q. refl))
      | inr (inl (denied, copies, f)) ↦
          rw (find_or_append, e, f)
            (
              denied,
              copies,
              value_at-bucket hash_64 dic k v some_buckets
                  ∙ lookup-Lacks (key_of dic) k (dic.table bucket) lacks,
            )
      | inr (inr f) ↦
          let (w, points, values) =
            appended_Added dic v some_buckets k key len asks room granted.past_copy lacks in
          rw (find_or_append, e, f)
            (inr ((bucket, length (dic.table bucket)), (refl, w, points, values)))
    ]

    -- Finding the key in its bucket, or appending a node for it.
    pub find_or_append-AddedOr : Ends result
    find_or_append-AddedOr =
        elim (place_of-cases hash_64 dic (sum_of hash_64 dic k) key len k asks (dic.table bucket) 0
          (all_valid hash_64 dic bucket (dic.table bucket)
            (v.placed _ (below dic v some_buckets k)))) [
              | inl (place, (e, placed)) ↦ found place (e ∙ ap some zero_place) placed
              | inr (e, lacks) ↦ absent e lacks
            ]
      where
        zero_place : {place : ℕ} → 0 + place ≡ place
        zero_place = omega arith
