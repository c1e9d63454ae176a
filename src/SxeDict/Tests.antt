-- ===== src/SxeDict/Tests.antt =====
-- Runs of the dictionary with a small hash function, and its theorems at dictionaries that meet their hypotheses.
use libkit.Common.{
  map, none, Option, ℕ, zero, suc, ◌+◌, ◌*◌, ◌<◌, ◌==◌, Bool, true, false, if◌then◌else◌, some,
  List, [], ◌∷◌, length, ◌≡◌, refl, arith, ◌⊎◌, All, not, ap,
}
use libkit.SxeDict.Defs.{
  Granted, Addition, node_with, Node, Dict, sxe_dict_init, sxe_dict_new, sxe_dict_node_new,
  compare_keys, place_of, with_table, find_or_append, find_in_chain, find_entry, sxe_hash_64,
  node_sum, sxe_dict_reinsert_when_resizing, reinsert_chain, reinsert_table, sxe_dict_resize, grown,
  add_entry, sxe_dict_add, sxe_dict_add_hash, sxe_dict_find, sxe_dict_find_hash,
}
use libkit.SxeDict.Keys.{key_of, first_or}
use libkit.SxeDict.Chains.{DistinctKeys}
use libkit.SxeDict.Valid.{nodes_of, InBucket, DictValid}
use libkit.SxeDict.Resize.{resized, SameEntries, sxe_dict_resize-DictValid}
use libkit.SxeDict.Asking.{KeyValid}
use libkit.SxeDict.Runs.{
  put_value, put, get, Call, run, replay, values_of, all_granted, CallsValid, sxe_dict_init-run,
}
use libkit.SxeDict.Bounded.{IsKey, sxe_dict_new-run}
use libkit.SxeDict.Walk.{
  KeyAt, visit, walk_chain, walk_table, sxe_dict_walk, Walks, entry_of, with_values,
  sxe_dict_walk-Walks,
}

program : Unit {0}
unfolding sxe_dict_init sxe_dict_new node_with sxe_dict_node_new compare_keys place_of with_table
    find_or_append find_in_chain find_entry sxe_hash_64 node_sum sxe_dict_reinsert_when_resizing
    reinsert_chain reinsert_table sxe_dict_resize grown add_entry sxe_dict_add sxe_dict_add_hash
    sxe_dict_find sxe_dict_find_hash visit walk_chain walk_table sxe_dict_walk
program = tt

abbrev sum_bytes : List ℕ → ℕ
sum_bytes [] = 0
sum_bytes (b ∷ bs) = b + sum_bytes bs

abbrev hashed_node : ℕ → ℕ → Node
hashed_node hash value = record { key = []; key_hash = hash; len = 0; value = value }

-- The sums 4, 3 and 5 in two buckets.
abbrev two_buckets : ℕ → List Node
two_buckets zero = hashed_node 4 40 ∷ []
two_buckets (suc n) = if n == 0 then hashed_node 3 30 ∷ hashed_node 5 50 ∷ [] else []

abbrev three_sums : Dict
three_sums = record {
  allocated = true;
  table = two_buckets;
  keys_nocopy = false;
  keys_string = false;
  keys_hashed = true;
  size = 2;
  count = 3;
  load = 100;
  growth = 2;
}

three_sums-DictValid : DictValid sum_bytes three_sums
three_sums-DictValid = record {
  there = λ e. omega arith;
  absent = λ e. absurd (cc e);
  placed = placed;
  distinct = distinct;
  counted = refl;
  few = omega arith;
}
  where
    placed : (n : ℕ) → n < 2 → All (InBucket sum_bytes three_sums n) (two_buckets n)
    placed zero b = ((refl, tt), tt)
    placed (suc zero) b = ((refl, tt), ((refl, tt), tt))
    placed (suc (suc n)) b = absurd (omega (arith, b))

    distinct : (n : ℕ) → n < 2 → DistinctKeys (key_of three_sums) (two_buckets n)
    distinct zero b = (tt, tt)
    distinct (suc zero) b =
        (((λ e. absurd (omega (arith, ap (λ k. first_or k 0) e))), tt), (tt, tt))
    distinct (suc (suc n)) b = absurd (omega (arith, b))

sxe_dict_resize-DictValid_example :
    ((true ≡ false) × (sxe_dict_resize sum_bytes true three_sums 3 ≡ (false, three_sums)))
    ⊎ ((table : ℕ → List Node) × ((sxe_dict_resize sum_bytes true three_sums 3
            ≡ (true, resized three_sums 3 table))
          × DictValid sum_bytes (resized three_sums 3 table)
          × SameEntries three_sums (resized three_sums 3 table)))
sxe_dict_resize-DictValid_example =
    sxe_dict_resize-DictValid sum_bytes true three_sums 3 three_sums-DictValid (omega arith)

abbrev pointer : Addition → Option (ℕ × ℕ)
pointer none = none
pointer (some result) = result.0

abbrev dict_of : Dict → Addition → Dict
dict_of dic none = dic
dict_of dic (some result) = result.1

-- The table grows, and 9 is put in bucket 1 of 4.
added_nine : pointer (add_entry sum_bytes (all_granted []) three_sums 9 [] 0) ≡ some (1, 1)
unfolding program
added_nine = refl

-- A copying dictionary with two keys in one bucket.
abbrev binary : Dict
binary = (sxe_dict_init true 1 100 2 false false false).1

abbrev no_copy : Granted
no_copy = record {
  first_table = true;
  larger_table = true;
  node = true;
  key_copy = false;
  past_copy = [];
}

denied_copy : sxe_dict_add sum_bytes no_copy binary (7 ∷ []) 1 ≡ none
unfolding program
denied_copy = refl

-- An empty key whose copy has other bytes past it is not found after the table has grown.
abbrev with_empty : Dict
with_empty = put_value sum_bytes binary (3 ∷ 0 ∷ []) (0 ∷ []) 0 70

abbrev resized_empty : Dict
resized_empty = (sxe_dict_resize sum_bytes true with_empty 2).1

lost_empty :
    (sxe_dict_find sum_bytes with_empty (0 ∷ []) 0 ≡ 70)
    × (sxe_dict_find sum_bytes resized_empty (0 ∷ []) 0 ≡ 0)
unfolding program
lost_empty = (refl, refl)

-- Two keys with the same sum, with a value stored again.
abbrev some_calls : List Call
some_calls =
    get (7 ∷ []) 1
    ∷ put (65 ∷ []) (1 ∷ 4 ∷ []) 2 10
    ∷ put [] (4 ∷ 1 ∷ []) 2 20
    ∷ put [] (1 ∷ 4 ∷ []) 2 30
    ∷ get (1 ∷ 4 ∷ []) 2
    ∷ get (4 ∷ 1 ∷ 0 ∷ []) 0
    ∷ []

abbrev new_dict : Bool × Dict
new_dict = sxe_dict_init true 0 100 2 false false false

some_calls-run : (run sum_bytes new_dict.1 some_calls).0 ≡ 0 ∷ 30 ∷ 20 ∷ []
unfolding program
some_calls-run = refl

two_bytes : (x y : ℕ) → KeyValid sum_bytes false false false (x ∷ y ∷ []) 2
two_bytes x y = (omega arith, (λ z. absurd (omega (arith, z))), λ copied. omega arith)

some_calls-CallsValid : CallsValid sum_bytes new_dict.1 some_calls
unfolding program
some_calls-CallsValid = (
  (omega arith, (λ z. absurd (omega (arith, z))), λ copied. omega arith),
  (
    two_bytes 1 4,
    omega arith,
    (λ e. absurd (cc e)),
    (
      two_bytes 4 1,
      omega arith,
      (λ e. omega arith),
      (
        two_bytes 1 4,
        omega arith,
        (λ e. omega arith),
        (two_bytes 1 4, ((omega arith, (λ z. omega arith), λ copied. omega arith), tt)),
      ),
    ),
  ),
)

sxe_dict_init-run_example :
    ((run sum_bytes new_dict.1 some_calls).0 ≡ 0 ∷ 30 ∷ 20 ∷ [])
    × DictValid sum_bytes (run sum_bytes new_dict.1 some_calls).1
    × ((q : List ℕ)
        → values_of sum_bytes (run sum_bytes new_dict.1 some_calls).1 q
          ≡ (replay sum_bytes false false (λ q. 0) some_calls).1 q)
unfolding program
sxe_dict_init-run_example =
    sxe_dict_init-run sum_bytes true 0 100 2 false false false some_calls refl some_calls-CallsValid

-- A function that adds up the values, and doubles them, until it has seen a large one.
abbrev doubled : KeyAt → ℕ → ℕ → ℕ → Bool × ℕ × ℕ
doubled key length value seen = (not (value == 30), value * 2, seen + value)

three_sums_walked : (sxe_dict_walk doubled three_sums 0).2 ≡ 70
unfolding program
three_sums_walked = refl

sxe_dict_walk-Walks_example :
    let w = sxe_dict_walk doubled three_sums 0 in
    let nodes = nodes_of two_buckets 2 in
    ((values : List ℕ) × (Walks doubled (map (entry_of doubled three_sums) nodes) 0 w.0 values w.2)
      × (nodes_of w.1.table 2 ≡ with_values doubled nodes values))
    × DistinctKeys (key_of three_sums) nodes
    × DictValid sum_bytes w.1
sxe_dict_walk-Walks_example =
    sxe_dict_walk-Walks doubled sum_bytes three_sums 0 three_sums-DictValid

sxe_dict_new-run_example :
    (dic : Dict) × (sxe_dict_new true true 0 ≡ some dic)
    × ((run sum_bytes dic some_calls).0 ≡ 0 ∷ 30 ∷ 20 ∷ [])
    × DictValid sum_bytes (run sum_bytes dic some_calls).1
    × ((q : List ℕ)
        → values_of sum_bytes (run sum_bytes dic some_calls).1 q
          ≡ (replay sum_bytes false false (λ q. 0) some_calls).1 q)
sxe_dict_new-run_example =
    let two : (x y : ℕ) → IsKey sum_bytes (x ∷ y ∷ []) 2 =
      λ x y. (omega arith, (λ z. absurd (omega (arith, z))), omega arith) in
    sxe_dict_new-run sum_bytes 0 some_calls (omega arith) (omega arith) (
      (omega arith, (λ z. absurd (omega (arith, z))), omega arith),
      (
        two 1 4,
        (two 4 1, (two 1 4, (two 1 4, ((omega arith, (λ z. omega arith), omega arith), tt)))),
      ),
    )
