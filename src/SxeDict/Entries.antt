-- ===== src/SxeDict/Entries.antt =====
-- `add_entry` of lib-sxe-dict/sxe-dict.c, on all its ways.
use libkit.Common.{
  ℕ, leb, ◌+◌, ◌*◌, ◌/◌, ◌<◌, ◌^◌, ◌%◌, ◌&&◌, not, Bool, true, false, if◌then◌else◌, Option, none,
  some, List, [], ◌∷◌, ◌≡◌, ◌≢◌, refl, sym, ◌∙◌, ap, ap₂, arith, Bool-cases, inl, inr, ◌⊎◌, u32,
}
use mathlib.Core.Path.{subst}
use libkit.SxeDict.Defs.{
  same_bytes, Node, Dict, no_nodes, Granted, compare_keys, node_with, copies_keys, Addition,
  sxe_dict_node_new, NewNode, no_memory, copied_to_null, new_node, with_table, grown, place_of,
  find_or_append, add_entry, sxe_dict_resize,
}
use libkit.SxeDict.Keys.{key_of, Asks}
use libkit.SxeDict.Chains.{lookup}
use libkit.SxeDict.Valid.{nodes_of, total, value_at, DictValid}
use libkit.SxeDict.Resize.{resized, SameEntries, sxe_dict_resize-DictValid}
use libkit.SxeDict.Lookups.{or_null}
use libkit.SxeDict.Add.{Added, AddedOr, find_or_append-AddedOr}

abbrev pub SameFlags : Dict → Dict → Type 0
SameFlags dic dic' =
    (dic.keys_hashed ≡ dic'.keys_hashed)
    × (dic.keys_string ≡ dic'.keys_string)
    × (dic.keys_nocopy ≡ dic'.keys_nocopy)

abbrev with_flags : Dict → Bool → Bool → Bool → Dict
with_flags dic hashed string nocopy = record dic {
  keys_hashed = hashed;
  keys_string = string;
  keys_nocopy = nocopy;
}

module _ (hash_64 : List ℕ → ℕ) where
  Asks-SameFlags :
      (dic dic' : Dict) (hash : ℕ) (key : List ℕ) (len : ℕ) (k : List ℕ)
      → SameFlags dic dic'
      → Asks hash_64 dic hash key len k
      → Asks hash_64 dic' hash key len k
  unfolding compare_keys node_with
  Asks-SameFlags dic dic' hash key len k (hashed, string, nocopy) a =
      subst (λ h. Asks hash_64 (with_flags dic' h dic'.keys_string dic'.keys_nocopy) hash key len k)
        hashed
        (subst
          (λ s. Asks hash_64 (with_flags dic' dic.keys_hashed s dic'.keys_nocopy) hash key len k)
          string
          (subst
            (λ n. Asks hash_64 (with_flags dic' dic.keys_hashed dic.keys_string n) hash key len k)
            nocopy
            (record {
              summed = a.summed;
              compared = a.compared;
              made = a.made;
              made_valid = a.made_valid;
            })))

  -- A dictionary with buckets, that has the same entries.
  pub record Ready (dic dic' : Dict) : Type 0 where
    pub flags : SameFlags dic dic'
    pub count : dic'.count ≡ dic.count
    pub valid : DictValid hash_64 dic'
    pub some_buckets : 0 < dic'.size
    pub entries : SameEntries dic dic'

  -- A table can grow, if it is there.
  abbrev pub Grows : Dict → Type 0
  Grows dic = dic.allocated ≡ true → 0 < u32 (dic.size * dic.growth)

  -- The larger size is not 0 after the wrap-around, or no chain asks for it.
  abbrev pub MayGrow : Dict → Type 0
  MayGrow dic = (0 < u32 (dic.size * dic.growth)) ⊎ ((i : ℕ) → dic.table i ≡ [])

  module _ (dic : Dict) (v : DictValid hash_64 dic) (grows : Grows dic) where
    pub with_table-Ready :
        (first_table : Bool)
        → ((first_table ≡ false) × (with_table first_table dic ≡ none))
          ⊎ ((dic' : Dict) × ((with_table first_table dic ≡ some dic')
                × Ready dic dic'
                × MayGrow dic'))
    unfolding with_table
    with_table-Ready first_table = elim (Bool-cases (dic.allocated)) [
      | inl table ↦ inr (
        dic,
        (
          ap
              (λ t.
                if t then some dic else if first_table then some (resized dic 1 no_nodes) else none)
              table,
          record {
            flags = (refl, refl, refl);
            count = refl;
            valid = v;
            some_buckets = v.there table;
            entries = λ k. refl;
          },
          inl (grows table),
        ),
      )
      | inr no_table ↦ first first_table no_table
    ]
      where
        first :
            (ok : Bool)
            → dic.allocated ≡ false
            → ((ok ≡ false) × (with_table ok dic ≡ none))
              ⊎ ((dic' : Dict) × ((with_table ok dic ≡ some dic') × Ready dic dic' × MayGrow dic'))
        first false no_table = inl (refl, ap (λ t. if t then some dic else none) no_table)
        first true no_table = inr (
          resized dic 1 no_nodes,
          (
            ap (λ t. if t then some dic else some (resized dic 1 no_nodes)) no_table,
            record {
              flags = (refl, refl, refl);
              count = refl;
              valid = record {
                there = λ _. omega arith;
                absent = λ e. absurd (cc e);
                placed = λ n b. tt;
                distinct = λ n b. tt;
                counted = v.counted ∙ ap (total dic.table) (v.absent no_table);
                few = v.few;
              };
              some_buckets = omega arith;
              entries = λ k.
                  ap (λ n. lookup (key_of dic) k (nodes_of dic.table n)) (sym (v.absent no_table));
            },
            inr (λ i. refl),
          ),
        )

  pub grown-cases :
      (larger_table : Bool) (dic : Dict) (hash : ℕ) (chain : List Node)
      → dic.table (hash % dic.size) ≡ chain
      → (grown hash_64 larger_table dic hash ≡ some dic)
        ⊎ ((chain ≢ [])
            × (leb dic.load (u32 (dic.count * 100) / dic.size) ≡ true)
            × (grown hash_64 larger_table dic hash ≡ (
                let r = sxe_dict_resize hash_64 larger_table dic (u32 (dic.size * dic.growth)) in
                if r.0 then some r.1 else none)))
  unfolding grown
  grown-cases larger_table dic hash [] e = inl (rw (grown, e) refl)
  grown-cases larger_table dic hash (node ∷ chain) e =
      elim (Bool-cases (leb dic.load (u32 (dic.count * 100) / dic.size))) [
        | inl full ↦ inr ((λ f. absurd (cc f)), full, rw (grown, e, full) refl)
        | inr some_room ↦ inl (rw (grown, e, some_room) refl)
      ]

  pub grown-Ready :
      (larger_table : Bool) (dic : Dict) (hash : ℕ)
      → DictValid hash_64 dic
      → 0 < dic.size
      → MayGrow dic
      → ((larger_table ≡ false) × (grown hash_64 larger_table dic hash ≡ none))
        ⊎ ((dic' : Dict) × ((grown hash_64 larger_table dic hash ≡ some dic') × Ready dic dic'))
  grown-Ready larger_table dic hash v some_buckets may =
      elim (grown-cases larger_table dic hash (dic.table (hash % dic.size)) refl) [
        | inl same ↦ inr (dic, (same, unchanged))
        | inr (chain, full, e) ↦ elim may [
          | inr empty ↦ absurd (chain (empty _))
          | inl larger ↦
              elim (sxe_dict_resize-DictValid hash_64 larger_table dic (u32 (dic.size * dic.growth))
                v larger) [
                  | inl (denied, r) ↦ inl (denied, e ∙ ap (λ r. if r.0 then some r.1 else none) r)
                  | inr (table, (r, w, entries)) ↦ inr (
                    resized dic (u32 (dic.size * dic.growth)) table,
                    (
                      e ∙ ap (λ r. if r.0 then some r.1 else none) r,
                      record {
                        flags = (refl, refl, refl);
                        count = refl;
                        valid = w;
                        some_buckets = larger;
                        entries = entries;
                      },
                    ),
                  )
                ]
        ]
      ]
    where
      unchanged : Ready dic dic
      unchanged = record {
        flags = (refl, refl, refl);
        count = refl;
        valid = v;
        some_buckets = some_buckets;
        entries = λ k. refl;
      }

  Added-SameEntries :
      (dic dic' : Dict) (k : List ℕ) (granted granted' : Bool) (result : Option (ℕ × ℕ) × Dict)
      → SameEntries dic dic'
      → (granted ≡ false → granted' ≡ false)
      → Added hash_64 dic' k granted result
      → Added hash_64 dic k granted' result
  Added-SameEntries dic dic' k granted granted' result entries denied added = elim added [
    | inl (e, null, v, same) ↦ inl (denied e, null, v, λ q. same q ∙ entries q)
    | inr (at, (e, v, points, has)) ↦ inr (
      at,
      (
        e,
        v,
        points,
        λ q.
            has q
            ∙ ap (λ t. if same_bytes k q then some (or_null t) else value_at dic' q) (entries k)
            ∙ ap (λ t. if same_bytes k q then some (or_null (value_at dic k)) else t) (entries q),
      ),
    )
  ]

  SameFlags-trans :
      (dic dic' dic'' : Dict) → SameFlags dic dic' → SameFlags dic' dic'' → SameFlags dic dic''
  SameFlags-trans dic dic' dic'' (a, b, c) (d, e, f) = (a ∙ d, b ∙ e, c ∙ f)

  copies-SameFlags : (dic dic' : Dict) → SameFlags dic dic' → copies_keys dic ≡ copies_keys dic'
  copies-SameFlags dic dic' (hashed, string, nocopy) = ap₂ (λ h n. not h && not n) hashed nocopy

  AddedOr-SameEntries :
      (dic dic' : Dict) (k : List ℕ) (granted granted' copied : Bool) (result : Addition)
      → SameFlags dic dic'
      → SameEntries dic dic'
      → (granted ≡ false → granted' ≡ false)
      → AddedOr hash_64 dic' k granted copied result
      → AddedOr hash_64 dic k granted' copied result
  AddedOr-SameEntries dic dic' k granted granted' copied none flags entries denied
        (no_copy, copies, absent) =
      (no_copy, copies-SameFlags dic dic' flags ∙ copies, sym (entries k) ∙ absent)
  AddedOr-SameEntries dic dic' k granted granted' copied (some result) flags entries denied added =
      Added-SameEntries dic dic' k granted granted' result entries denied added

  find_or_append-Asks :
      (granted : Granted) (dic : Dict) (hash : ℕ) (key : List ℕ) (len : ℕ) (k : List ℕ)
      → DictValid hash_64 dic
      → 0 < dic.size
      → Asks hash_64 dic hash key len k
      → dic.count + 1 < 2 ^ 32
      → AddedOr hash_64 dic k granted.node granted.key_copy
          (find_or_append granted dic hash key len)
  find_or_append-Asks granted dic hash key len k v some_buckets asks room =
      subst
        (λ h.
          Asks hash_64 dic h key len k
          → AddedOr hash_64 dic k granted.node granted.key_copy
              (find_or_append granted dic h key len))
        asks.summed
        (λ a. find_or_append-AddedOr hash_64 dic v some_buckets k key len a room granted) asks

  pub add_entry-AddedOr :
      (granted : Granted) (dic : Dict) (hash : ℕ) (key : List ℕ) (len : ℕ) (k : List ℕ)
      → DictValid hash_64 dic
      → Asks hash_64 dic hash key len k
      → dic.count + 1 < 2 ^ 32
      → Grows dic
      → AddedOr hash_64 dic k
          (granted.first_table && (granted.larger_table && granted.node))
          granted.key_copy
          (add_entry hash_64 granted dic hash key len)
  unfolding add_entry
  add_entry-AddedOr granted dic hash key len k v asks room grows =
      elim (with_table-Ready dic v grows granted.first_table) [
        | inl (denied, e) ↦ rw (add_entry, e) (inl (rw denied refl, refl, v, λ q. refl))
        | inr (dic', (e, r, may)) ↦
            elim (grown-Ready granted.larger_table dic' hash r.valid r.some_buckets may) [
              | inl (denied, f) ↦
                  rw (add_entry, e, f)
                    (inl (
                      and_false granted.first_table granted.larger_table granted.node denied,
                      refl,
                      r.valid,
                      r.entries,
                    ))
              | inr (dic'', (f, r')) ↦
                  let asks' = Asks-SameFlags dic dic' hash key len k r.flags asks in
                  let asks'' = Asks-SameFlags dic' dic'' hash key len k r'.flags asks' in
                  let room' : dic''.count + 1 < 2 ^ 32 = omega (arith, r.count, r'.count, room) in
                  let added =
                    find_or_append-Asks granted dic'' hash key len k r'.valid r'.some_buckets asks''
                      room' in
                  rw (add_entry, e, f)
                    (AddedOr-SameEntries dic dic'' k granted.node _ granted.key_copy
                      (find_or_append granted dic'' hash key len)
                      (SameFlags-trans dic dic' dic'' r.flags r'.flags)
                      (λ q. r'.entries q ∙ r.entries q)
                      (node_false granted.first_table granted.larger_table granted.node) added)
            ]
      ]
    where
      and_false : (b c d : Bool) → c ≡ false → (b && (c && d)) ≡ false
      and_false true c d e = rw e refl
      and_false false c d e = refl

      node_false : (b c d : Bool) → d ≡ false → (b && (c && d)) ≡ false
      node_false true true d e = e
      node_false true false d e = refl
      node_false false c d e = refl

  abbrev pub SameFlagsOr : Dict → Addition → Type 0
  SameFlagsOr dic none = Unit
  SameFlagsOr dic (some result) = SameFlags dic result.1

  find_or_append-SameFlagsOr :
      (granted : Granted) (dic : Dict) (hash : ℕ) (key : List ℕ) (len : ℕ) (place : Option ℕ)
      (made : NewNode)
      → place_of dic hash key len (dic.table (hash % dic.size)) 0 ≡ place
      → sxe_dict_node_new granted dic hash key len ≡ made
      → SameFlagsOr dic (find_or_append granted dic hash key len)
  unfolding find_or_append
  find_or_append-SameFlagsOr granted dic hash key len (some place) made e f =
      rw (find_or_append, e) (refl, refl, refl)
  find_or_append-SameFlagsOr granted dic hash key len none no_memory e f =
      rw (find_or_append, e, f) (refl, refl, refl)
  find_or_append-SameFlagsOr granted dic hash key len none copied_to_null e f =
      rw (find_or_append, e, f) tt
  find_or_append-SameFlagsOr granted dic hash key len none (new_node node) e f =
      rw (find_or_append, e, f) (refl, refl, refl)

  SameFlagsOr-trans :
      (dic dic' : Dict) (result : Addition)
      → SameFlags dic dic'
      → SameFlagsOr dic' result
      → SameFlagsOr dic result
  SameFlagsOr-trans dic dic' none flags same = tt
  SameFlagsOr-trans dic dic' (some result) flags same = SameFlags-trans dic dic' result.1 flags same

  -- Adding a key does not change how keys are kept.
  pub add_entry-SameFlagsOr :
      (granted : Granted) (dic : Dict) (hash : ℕ) (key : List ℕ) (len : ℕ)
      → DictValid hash_64 dic
      → Grows dic
      → SameFlagsOr dic (add_entry hash_64 granted dic hash key len)
  unfolding add_entry
  add_entry-SameFlagsOr granted dic hash key len v grows =
      elim (with_table-Ready dic v grows granted.first_table) [
        | inl (denied, e) ↦ rw (add_entry, e) (refl, refl, refl)
        | inr (dic', (e, r, may)) ↦
            elim (grown-Ready granted.larger_table dic' hash r.valid r.some_buckets may) [
              | inl (denied, f) ↦ rw (add_entry, e, f) r.flags
              | inr (dic'', (f, r')) ↦
                  rw (add_entry, e, f)
                    (SameFlagsOr-trans dic dic'' (find_or_append granted dic'' hash key len)
                      (SameFlags-trans dic dic' dic'' r.flags r'.flags)
                      (find_or_append-SameFlagsOr granted dic'' hash key len _ _ refl refl))
            ]
      ]
