-- ===== src/SxeDict/Bounded.antt =====
-- Runs on a dictionary that `sxe_dict_new` of lib-sxe-dict/sxe-dict.c makes: its table always can grow.
use libkit.Common.{
  ℕ, suc, ◌+◌, ◌-◌, ◌*◌, ◌/◌, ◌^◌, ◌%◌, ◌≤◌, ◌<◌, ◌==◌, leb, ◌||◌, true, false, if◌then◌else◌,
  Option, none, some, List, [], ◌∷◌, length, ◌≡◌, refl, sym, ◌∙◌, ap, ap₂, arith, Bool-cases, inl,
  inr, u32,
}
use mathlib.Core.Path.{subst}
use native.Mathlib.Nat.{mod-add-div', add-mul}
use libkit.SxeDict.Defs.{
  Dict, no_nodes, sxe_dict_init, sxe_dict_new, with_table, grown, NewNode, no_memory,
  copied_to_null, new_node, Granted, Addition, sxe_dict_node_new, key_length, place_of,
  find_or_append, add_entry, sxe_dict_add,
}
use libkit.SxeDict.Keys.{HasNul}
use libkit.SxeDict.Valid.{DictValid}
use libkit.SxeDict.Resize.{resized, sxe_dict_resize-DictValid}
use libkit.SxeDict.Entries.{Grows, with_table-Ready, grown-cases, grown-Ready}
use libkit.SxeDict.Asking.{KeyValid}
use libkit.SxeDict.Runs.{
  Call, put, get, all_granted, store, put_value, run, replay, values_of, CallsValid,
  put_value-updated, put_value-SameFlags, sxe_dict_init-DictValid, sxe_dict_init-run,
}

-- A dictionary that grows by 2 at 100%, to which `m` more keys may be added.
record Within (dic : Dict) (m : ℕ) : Type 0 where
  load : dic.load ≡ 100
  growth : dic.growth ≡ 2
  size : dic.size ≤ 2 ^ 30
  count : dic.count + m < 2 ^ 25

abbrev WithinSome : Option Dict → ℕ → Type 0
WithinSome none m = Unit
WithinSome (some dic) m = Within dic m

with_table-Within : (dic : Dict) (m : ℕ) → Within dic m → WithinSome (with_table true dic) m
unfolding with_table
with_table-Within dic m w = elim (Bool-cases (dic.allocated)) [
  | inl table ↦
      subst (λ b. WithinSome (if b then some dic else some (resized dic 1 no_nodes)) m) (sym table)
        w
  | inr no_table ↦
      subst (λ b. WithinSome (if b then some dic else some (resized dic 1 no_nodes)) m)
        (sym no_table)
        (record { load = w.load; growth = w.growth; size = omega arith; count = w.count })
]

abbrev WithinAdded : Addition → ℕ → Type 0
WithinAdded none m = Unit
WithinAdded (some result) m = Within result.1 m

fewer : (dic : Dict) (m : ℕ) → Within dic (suc m) → Within dic m
fewer dic m w =
    (let less : dic.count + m < 2 ^ 25 = omega (arith, w.count) in
      record { load = w.load; growth = w.growth; size = w.size; count = less })

find_or_append-Within :
    (granted : Granted) (dic : Dict) (m hash : ℕ) (key : List ℕ) (len : ℕ) (place : Option ℕ)
    (made : NewNode)
    → Within dic (suc m)
    → place_of dic hash key len (dic.table (hash % dic.size)) 0 ≡ place
    → sxe_dict_node_new granted dic hash key len ≡ made
    → WithinAdded (find_or_append granted dic hash key len) m
unfolding find_or_append
find_or_append-Within granted dic m hash key len (some place) made w e f =
    rw (find_or_append, e) (fewer dic m w)
find_or_append-Within granted dic m hash key len none no_memory w e f =
    rw (find_or_append, e, f) (fewer dic m w)
find_or_append-Within granted dic m hash key len none copied_to_null w e f =
    rw (find_or_append, e, f) tt
find_or_append-Within granted dic m hash key len none (new_node node) w e f =
    let more : u32 (dic.count + 1) + m < 2 ^ 25 = omega (arith, w.count) in
    rw (find_or_append, e, f)
      record { load = w.load; growth = w.growth; size = w.size; count = more }

store-Within :
    (dic : Dict) (result : Addition) (v m : ℕ)
    → Within dic m
    → WithinAdded result m
    → Within (store dic result v) m
store-Within dic none v m w added = w
store-Within dic (some (none, dic')) v m w added = added
store-Within dic (some (some at, dic')) v m w added = record {
  load = added.load;
  growth = added.growth;
  size = added.size;
  count = added.count;
}

module _ (hash_64 : List ℕ → ℕ) where
  doubled :
      (dic : Dict) (m : ℕ)
      → Within dic m
      → 0 < dic.size
      → u32 (dic.size * dic.growth) ≡ dic.size * 2
  doubled dic m w some_buckets =
      ap (λ g. u32 (dic.size * g)) w.growth ∙ (let size = w.size in omega arith)

  -- A table that is full has no more buckets than keys.
  full-size :
      (dic : Dict) (m : ℕ)
      → Within dic m
      → 0 < dic.size
      → leb dic.load (u32 (dic.count * 100) / dic.size) ≡ true
      → dic.size ≤ dic.count
  full-size dic m w some_buckets full =
      let few = w.count in
      let no_wrap : u32 (dic.count * 100) ≡ dic.count * 100 = omega arith in
      let load = ap (λ n. n / dic.size) no_wrap in
      let q = dic.count * 100 / dic.size in
      let above : 100 ≤ q = ground (arith, full, w.load, load) in
      let split : q ≡ 100 + (q - 100) = omega (arith, above) in
      let parts : q * dic.size ≡ 100 * dic.size + (q - 100) * dic.size =
        ap (λ t. t * dic.size) split ∙ add-mul 100 (q - 100) dic.size in
      omega (arith, parts, mod-add-div' (dic.count * 100) dic.size)

  grown-Within :
      (dic : Dict) (m hash : ℕ)
      → DictValid hash_64 dic
      → 0 < dic.size
      → Within dic m
      → WithinSome (grown hash_64 true dic hash) m
  grown-Within dic m hash v some_buckets w =
      elim (grown-cases hash_64 true dic hash (dic.table (hash % dic.size)) refl) [
        | inl same ↦ subst (λ o. WithinSome o m) (sym same) w
        | inr (chain, full, e) ↦
            let twice = doubled dic m w some_buckets in
            let larger : 0 < u32 (dic.size * dic.growth) = omega (arith, twice, some_buckets) in
            elim (sxe_dict_resize-DictValid hash_64 true dic (u32 (dic.size * dic.growth)) v
              larger) [
                | inl (denied, r) ↦ absurd (cc denied)
                | inr (table, (r, x, entries)) ↦
                    subst (λ o. WithinSome o m)
                      (sym (e ∙ ap (λ r. if r.0 then some r.1 else none) r))
                      (record {
                        load = w.load;
                        growth = w.growth;
                        size =
                            (let few = w.count in
                              let fits = full-size dic m w some_buckets full in
                              omega (arith, twice));
                        count = w.count;
                      })
              ]
      ]

  Within-Grows : (dic : Dict) (m : ℕ) → DictValid hash_64 dic → Within dic m → Grows hash_64 dic
  Within-Grows dic m v w table = omega (arith, doubled dic m w (v.there table), v.there table)

  add_entry-Within :
      (past : List ℕ) (dic : Dict) (m hash : ℕ) (key : List ℕ) (len : ℕ)
      → DictValid hash_64 dic
      → Within dic (suc m)
      → WithinAdded (add_entry hash_64 (all_granted past) dic hash key len) m
  unfolding add_entry
  add_entry-Within past dic m hash key len v w =
      elim (with_table-Ready hash_64 dic v (Within-Grows dic (suc m) v w) true) [
        | inl (denied, e) ↦ absurd (cc denied)
        | inr (dic', (e, r, may)) ↦
            let w' = subst (λ o. WithinSome o (suc m)) e (with_table-Within dic (suc m) w) in
            elim (grown-Ready hash_64 true dic' hash r.valid r.some_buckets may) [
              | inl (denied, f) ↦ absurd (cc denied)
              | inr (dic'', (f, r')) ↦
                  let w'' =
                    subst (λ o. WithinSome o (suc m)) f
                      (grown-Within dic' (suc m) hash r.valid r.some_buckets w') in
                  rw (add_entry, e, f)
                    (find_or_append-Within (all_granted past) dic'' m hash key len _ _ w'' refl
                      refl)
            ]
      ]

  put_value-Within :
      (dic : Dict) (m : ℕ) (past key : List ℕ) (len v : ℕ)
      → DictValid hash_64 dic
      → Within dic (suc m)
      → Within (put_value hash_64 dic past key len v) m
  unfolding sxe_dict_add
  put_value-Within dic m past key len v valid w =
      store-Within dic (sxe_dict_add hash_64 (all_granted past) dic key len) v m (fewer dic m w)
        (add_entry-Within past dic m _ key _ valid w)

  -- A key that is not empty, with all its bytes, and a NUL where the length is 0.
  abbrev pub IsKey : List ℕ → ℕ → Type 0
  IsKey key len = (len ≤ length key) × (len ≡ 0 → HasNul key) × (0 < key_length key len)

  -- Each call has such a key.
  abbrev pub KeysValid : List Call → Type 0
  KeysValid [] = Unit
  KeysValid (put past key len v ∷ calls) = IsKey key len × KeysValid calls
  KeysValid (get key len ∷ calls) = IsKey key len × KeysValid calls

  IsKey-KeyValid :
      (dic : Dict) (key : List ℕ) (len : ℕ)
      → dic.keys_hashed ≡ false
      → dic.keys_string ≡ false
      → IsKey key len
      → KeyValid hash_64 dic.keys_hashed dic.keys_string dic.keys_nocopy key len
  IsKey-KeyValid dic key len h s (within, nul, some_bytes) =
      let valid : KeyValid hash_64 false false dic.keys_nocopy key len =
        (within, nul, λ copied. some_bytes) in
      subst (λ t. t) (ap₂ (λ h s. KeyValid hash_64 h s dic.keys_nocopy key len) (sym h) (sym s))
        valid

  KeysValid-CallsValid :
      (calls : List Call) (dic : Dict)
      → DictValid hash_64 dic
      → Within dic (length calls)
      → dic.keys_hashed ≡ false
      → dic.keys_string ≡ false
      → KeysValid calls
      → CallsValid hash_64 dic calls
  KeysValid-CallsValid [] dic v w h s keys = tt
  KeysValid-CallsValid (get key len ∷ calls) dic v w h s keys =
      let few = w.count in
      let w' : Within dic (length calls) = record {
        load = w.load;
        growth = w.growth;
        size = w.size;
        count = omega arith;
      } in
      (IsKey-KeyValid dic key len h s keys.0, KeysValid-CallsValid calls dic v w' h s keys.1)
  KeysValid-CallsValid (put past key len value ∷ calls) dic v w h s keys =
      let few = w.count in
      let asked = IsKey-KeyValid dic key len h s keys.0 in
      let room : dic.count + 1 < 2 ^ 32 = omega arith in
      let grows = Within-Grows dic _ v w in
      let flags = put_value-SameFlags hash_64 dic past key len value v grows in
      let (valid, values) = put_value-updated hash_64 dic past key len value v asked room grows in
      (
        asked,
        room,
        grows,
        KeysValid-CallsValid calls (put_value hash_64 dic past key len value) valid
            (put_value-Within dic (length calls) past key len value v w) (sym flags.0 ∙ h)
            (sym flags.1 ∙ s) keys.1,
      )

  -- A run of fewer than 2^25 calls, additions with a store through the result and searches, on a
  -- dictionary that `sxe_dict_new` makes with at most 2^30 buckets, where memory is granted and each key
  -- is not empty, has its bytes, and a NUL where its length is given as 0: the searches give what they
  -- give on a function from keys to values that is 0 at first and that the stores update; the dictionary
  -- is in order at the end and has that function's values.
  pub sxe_dict_new-run :
      (initial_size : ℕ) (calls : List Call)
      → initial_size ≤ 2 ^ 30
      → length calls < 2 ^ 25
      → KeysValid calls
      → (dic : Dict) × (sxe_dict_new true true initial_size ≡ some dic)
        × ((run hash_64 dic calls).0 ≡ (replay hash_64 false false (λ q. 0) calls).0)
        × DictValid hash_64 (run hash_64 dic calls).1
        × ((q : List ℕ)
            → values_of hash_64 (run hash_64 dic calls).1 q
              ≡ (replay hash_64 false false (λ q. 0) calls).1 q)
  unfolding sxe_dict_new sxe_dict_init
  sxe_dict_new-run initial_size calls few short keys =
      let made = sxe_dict_init true initial_size 100 2 false false false in
      let success = made_true initial_size in
      let (v, empty) =
        sxe_dict_init-DictValid hash_64 true initial_size 100 2 false false false success in
      let w : Within (made.1) (length calls) = record {
        load = refl;
        growth = refl;
        size = few;
        count = omega (arith, short);
      } in
      let valid = KeysValid-CallsValid calls (made.1) v w refl refl keys in
      let (answers, order, values) =
        sxe_dict_init-run hash_64 true initial_size 100 2 false false false calls success valid in
      (made.1, rw success refl, answers, order, values)
    where
      made_true : (n : ℕ) → ((n == 0) || true) ≡ true
      made_true n = elim (Bool-cases (n == 0)) [ inl e ↦ rw e refl | inr e ↦ rw e refl ]
