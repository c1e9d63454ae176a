-- ===== src/SxeDict/Runs.antt =====
-- Runs of calls of lib-sxe-dict/sxe-dict.c, against a function from keys to values.
use libkit.Common.{
  ℕ, zero, suc, ◌+◌, ◌^◌, ◌<◌, ◌==◌, ◌&&◌, Bool, true, false, if◌then◌else◌, none, some, List, [],
  ◌∷◌, ◌≡◌, refl, sym, ◌∙◌, ap, arith, Bool-cases, inl, inr, not, ◌||◌, append-nil, ==→eq,
}
use mathlib.Core.Path.{subst, fun_ext, ap₂}
use libkit.SxeDict.Defs.{
  same_bytes, Dict, no_nodes, sxe_dict_init, Granted, Addition, sxe_dict_add, sxe_dict_find,
}
use libkit.SxeDict.Keys.{key_of}
use libkit.SxeDict.Chains.{lookup}
use libkit.SxeDict.Resize.{total-no_nodes}
use libkit.SxeDict.Valid.{nodes_of, value_at, DictValid}
use libkit.SxeDict.Lookups.{or_null, find_entry-value_at}
use libkit.SxeDict.Add.{write_value, PointsAt, AddedOr}
use libkit.SxeDict.Entries.{SameFlags, SameFlagsOr, Grows, add_entry-AddedOr, add_entry-SameFlagsOr}
use libkit.SxeDict.Asking.{key_asked, KeyValid, key_asked-Asks}

-- Adding a key and storing its value, or finding a key; with a pointer and a length, and for an addition
-- with the bytes that memory has after the key's copy.
pub data Call : Type 0 where
  put : List ℕ → List ℕ → ℕ → ℕ → Call
  get : List ℕ → ℕ → Call

abbrev pub all_granted : List ℕ → Granted
all_granted past = record {
  first_table = true;
  larger_table = true;
  node = true;
  key_copy = true;
  past_copy = past;
}

-- Storing through the result of an addition, if it is not NULL.
abbrev pub store : Dict → Addition → ℕ → Dict
store before none v = before
store before (some (none, dic)) v = dic
store before (some (some at, dic)) v = write_value dic at v

module _ (hash_64 : List ℕ → ℕ) where
  abbrev pub put_value : Dict → List ℕ → List ℕ → ℕ → ℕ → Dict
  put_value dic past key len v = store dic (sxe_dict_add hash_64 (all_granted past) dic key len) v

  -- The values that are found, and the dictionary at the end.
  abbrev pub run : Dict → List Call → List ℕ × Dict
  run dic [] = ([], dic)
  run dic (put past key len v ∷ calls) = run (put_value dic past key len v) calls
  run dic (get key len ∷ calls) =
      let rest = run dic calls in (sxe_dict_find hash_64 dic key len ∷ rest.0, rest.1)

  abbrev pub updated : (List ℕ → ℕ) → List ℕ → ℕ → List ℕ → ℕ
  updated f k v q = if same_bytes k q then v else f q

  -- The same calls on a function from keys to values.
  abbrev pub replay : Bool → Bool → (List ℕ → ℕ) → List Call → List ℕ × (List ℕ → ℕ)
  replay hashed string f [] = ([], f)
  replay hashed string f (put past key len v ∷ calls) =
      replay hashed string (updated f (key_asked hash_64 hashed string key len) v) calls
  replay hashed string f (get key len ∷ calls) =
      let rest = replay hashed string f calls in
      (f (key_asked hash_64 hashed string key len) ∷ rest.0, rest.1)

  -- Each key is valid, and each addition finds a count that can go up and a table that can grow.
  abbrev pub CallsValid : Dict → List Call → Type 0
  CallsValid dic [] = Unit
  CallsValid dic (put past key len v ∷ calls) =
      KeyValid hash_64 dic.keys_hashed dic.keys_string dic.keys_nocopy key len
      × (dic.count + 1 < 2 ^ 32)
      × Grows hash_64 dic
      × CallsValid (put_value dic past key len v) calls
  CallsValid dic (get key len ∷ calls) =
      KeyValid hash_64 dic.keys_hashed dic.keys_string dic.keys_nocopy key len
      × CallsValid dic calls

  abbrev pub values_of : Dict → List ℕ → ℕ
  values_of dic q = or_null (value_at dic q)

  pub sxe_dict_find-values_of :
      (dic : Dict) (key : List ℕ) (len : ℕ)
      → DictValid hash_64 dic
      → KeyValid hash_64 dic.keys_hashed dic.keys_string dic.keys_nocopy key len
      → sxe_dict_find hash_64 dic key len
        ≡ values_of dic (key_asked hash_64 dic.keys_hashed dic.keys_string key len)
  unfolding sxe_dict_find
  sxe_dict_find-values_of dic key len v valid =
      find_entry-value_at hash_64 dic _ key _ _ (key_asked-Asks hash_64 key len dic valid) v

  sxe_dict_add-AddedOr :
      (dic : Dict) (past key : List ℕ) (len : ℕ)
      → DictValid hash_64 dic
      → KeyValid hash_64 dic.keys_hashed dic.keys_string dic.keys_nocopy key len
      → dic.count + 1 < 2 ^ 32
      → Grows hash_64 dic
      → AddedOr hash_64 dic
          (key_asked hash_64 dic.keys_hashed dic.keys_string key len)
          true
          true
          (sxe_dict_add hash_64 (all_granted past) dic key len)
  unfolding sxe_dict_add
  sxe_dict_add-AddedOr dic past key len v valid room grows =
      add_entry-AddedOr hash_64 (all_granted past) dic _ key _ _ v
        (key_asked-Asks hash_64 key len dic valid) room grows

  stored :
      (dic : Dict) (k : List ℕ) (v : ℕ) (result : Addition)
      → AddedOr hash_64 dic k true true result
      → DictValid hash_64 (store dic result v)
        × ((q : List ℕ) → values_of (store dic result v) q ≡ updated (values_of dic) k v q)
  stored dic k v none (denied, copies, absent) = absurd (cc denied)
  stored dic k v (some result) (inl (denied, null, valid, same)) = absurd (cc denied)
  stored dic k v (some (none, dic')) (inr (at, (e, valid, points, has))) = absurd (cc e)
  stored dic k v (some (some p, dic')) (inr (at, (e, valid, points, has))) =
      let points' : PointsAt hash_64 dic' k p =
        (let same : at ≡ p = cc e in subst (PointsAt hash_64 dic' k) same points) in
      (points'.stays v, λ q. ap or_null (points'.writes v q) ∙ values q)
    where
      values :
          (q : List ℕ)
          → or_null (if same_bytes k q then some v else value_at dic' q)
            ≡ updated (values_of dic) k v q
      values q = elim (Bool-cases (same_bytes k q)) [
        | inl same ↦ rw same refl
        | inr other ↦ rw other (
            ap or_null (
              has q
              ∙ ap (λ b. if b then some (or_null (value_at dic k)) else value_at dic q) other))
      ]

  pub put_value-updated :
      (dic : Dict) (past key : List ℕ) (len v : ℕ)
      → DictValid hash_64 dic
      → KeyValid hash_64 dic.keys_hashed dic.keys_string dic.keys_nocopy key len
      → dic.count + 1 < 2 ^ 32
      → Grows hash_64 dic
      → DictValid hash_64 (put_value dic past key len v)
        × ((q : List ℕ)
            → values_of (put_value dic past key len v) q
              ≡ updated
                  (values_of dic)
                  (key_asked hash_64 dic.keys_hashed dic.keys_string key len)
                  v
                  q)
  put_value-updated dic past key len v valid asked room grows =
      stored dic (key_asked hash_64 dic.keys_hashed dic.keys_string key len) v
        (sxe_dict_add hash_64 (all_granted past) dic key len)
        (sxe_dict_add-AddedOr dic past key len valid asked room grows)

  store-SameFlags :
      (dic : Dict) (result : Addition) (v : ℕ)
      → SameFlagsOr hash_64 dic result
      → SameFlags dic (store dic result v)
  store-SameFlags dic none v h = (refl, refl, refl)
  store-SameFlags dic (some (none, dic')) v h = h
  store-SameFlags dic (some (some at, dic')) v h = h

  pub put_value-SameFlags :
      (dic : Dict) (past key : List ℕ) (len v : ℕ)
      → DictValid hash_64 dic
      → Grows hash_64 dic
      → SameFlags dic (put_value dic past key len v)
  unfolding sxe_dict_add
  put_value-SameFlags dic past key len v valid grows =
      store-SameFlags dic (sxe_dict_add hash_64 (all_granted past) dic key len) v
        (add_entry-SameFlagsOr hash_64 (all_granted past) dic _ key _ valid grows)

  abbrev Replays : Bool → Bool → (List ℕ → ℕ) → Dict → List Call → Type 0
  Replays hashed string f dic calls =
      ((run dic calls).0 ≡ (replay hashed string f calls).0)
      × DictValid hash_64 (run dic calls).1
      × ((q : List ℕ) → values_of (run dic calls).1 q ≡ (replay hashed string f calls).1 q)

  run-Replays :
      (calls : List Call) (dic : Dict) (hashed string : Bool) (f : List ℕ → ℕ)
      → DictValid hash_64 dic
      → CallsValid dic calls
      → dic.keys_hashed ≡ hashed
      → dic.keys_string ≡ string
      → values_of dic ≡ f
      → Replays hashed string f dic calls
  run-Replays [] dic hashed string f v c h s e = (refl, v, λ q. ap (λ g. g q) e)
  run-Replays (get key len ∷ calls) dic hashed string f v c h s e =
      let (answers, valid, values) = run-Replays calls dic hashed string f v c.1 h s e in
      let k = ap₂ (λ h s. key_asked hash_64 h s key len) h s in
      let found = sxe_dict_find-values_of dic key len v c.0 ∙ ap₂ (λ g q. g q) e k in
      (ap₂ (λ x xs. x ∷ xs) found answers, valid, values)
  run-Replays (put past key len value ∷ calls) dic hashed string f v (asked, room, grows, c) h s e =
      let k = ap₂ (λ h s. key_asked hash_64 h s key len) h s in
      let (valid, values) = put_value-updated dic past key len value v asked room grows in
      let flags = put_value-SameFlags dic past key len value v grows in
      run-Replays calls (put_value dic past key len value) hashed string
        (updated f (key_asked hash_64 hashed string key len) value) valid c (sym flags.0 ∙ h)
        (sym flags.1 ∙ s) (fun_ext values ∙ ap₂ (λ g q. updated g q value) e k)

  nodes_of-no_nodes : (n : ℕ) → nodes_of no_nodes n ≡ []
  nodes_of-no_nodes zero = refl
  nodes_of-no_nodes (suc n) = append-nil (nodes_of no_nodes n) ∙ nodes_of-no_nodes n

  module _ (calloc_ok : Bool) (initial_size load growth : ℕ) (nocopy string hashed : Bool) where
    abbrev fresh : Bool × Dict
    fresh = sxe_dict_init calloc_ok initial_size load growth nocopy string hashed

    -- A new dictionary is in order and empty.
    pub sxe_dict_init-DictValid :
        fresh.0 ≡ true → DictValid hash_64 fresh.1 × ((q : List ℕ) → values_of fresh.1 q ≡ 0)
    unfolding sxe_dict_init
    sxe_dict_init-DictValid success = (
      record {
        there = λ there. not_zero initial_size there;
        absent = λ absent. is_zero initial_size calloc_ok success absent;
        placed = λ n b. tt;
        distinct = λ n b. tt;
        counted = sym (total-no_nodes initial_size);
        few = omega arith;
      },
      λ q. ap (λ nodes. or_null (lookup (key_of fresh.1) q nodes)) (nodes_of-no_nodes initial_size),
    )
      where
        not_zero : (n : ℕ) → (not (n == 0) && calloc_ok) ≡ true → 0 < n
        not_zero zero h = absurd (cc h)
        not_zero (suc n) h = omega arith

        is_zero :
            (n : ℕ) (ok : Bool) → ((n == 0) || ok) ≡ true → (not (n == 0) && ok) ≡ false → n ≡ 0
        is_zero n ok h g = elim (Bool-cases (n == 0)) [
          | inl e ↦ ==→eq n 0 e
          | inr e ↦ (let f : ok ≡ true = ground (arith, e, h) in absurd (ground (arith, e, g, f)))
        ]

    -- A run of additions, each with a store through its result, and of searches, on a dictionary that
    -- has been initialized, where memory is granted, the bytes of the keys that are read are there, a
    -- string's length is that up to its NUL, no binary key that is copied is empty, the count can go up
    -- and the table can grow: the searches give what they give on a function from keys to values that is
    -- 0 at first and that the stores update; the dictionary is in order at the end and has that
    -- function's values.
    pub sxe_dict_init-run :
        (calls : List Call)
        → fresh.0 ≡ true
        → CallsValid fresh.1 calls
        → let spec = replay hashed string (λ q. 0) calls in
          ((run fresh.1 calls).0 ≡ spec.0)
          × DictValid hash_64 (run fresh.1 calls).1
          × ((q : List ℕ) → values_of (run fresh.1 calls).1 q ≡ spec.1 q)
    unfolding sxe_dict_init
    sxe_dict_init-run calls success c =
        let (v, empty) = sxe_dict_init-DictValid success in
        run-Replays calls fresh.1 hashed string (λ q. 0) v c refl refl (fun_ext empty)
