-- ===== src/SxeDict/Defs.antt =====
-- lib-sxe-dict/sxe-dict.c: a table of chains of nodes, with keys that are bytes, strings or hashes.
use libkit.Common.{
  c_string, ℕ, zero, suc, ◌+◌, ◌*◌, ◌/◌, ◌%◌, ◌==◌, leb, not, ◌&&◌, ◌||◌, Bool, true, false,
  if◌then◌else◌, Option, none, some, List, [], ◌∷◌, ◌++◌, take, length, u32,
}

abbrev pub strlen : List ℕ → ℕ
strlen s = length (c_string s)

-- `strcmp` or `memcmp` of as many bytes gives 0.
abbrev pub same_bytes : List ℕ → List ℕ → Bool
same_bytes [] [] = true
same_bytes [] (y ∷ ys) = false
same_bytes (x ∷ xs) [] = false
same_bytes (x ∷ xs) (y ∷ ys) = if x == y then same_bytes xs ys else false

-- A node, without `next`: `key` has the bytes that the member points at, `key_hash` is the other use
-- of its union, and `len` is there for keys that are neither strings nor hashed.
pub record Node : Type 0 where
  pub key : List ℕ
  pub key_hash : ℕ
  pub len : ℕ
  pub value : ℕ

-- `allocated` says that `table` is not NULL; a bucket is the chain of its nodes, from the first on. The
-- value NULL is 0.
pub record Dict : Type 0 where
  pub allocated : Bool
  pub table : ℕ → List Node
  pub keys_nocopy : Bool
  pub keys_string : Bool
  pub keys_hashed : Bool
  pub size : ℕ
  pub count : ℕ
  pub load : ℕ
  pub growth : ℕ

abbrev pub no_nodes : ℕ → List Node
no_nodes i = []

abbrev pub set_bucket : (ℕ → List Node) → ℕ → List Node → ℕ → List Node
set_bucket table n chain i = if i == n then chain else table i

-- `calloc_ok` says whether the table is given memory.
unfoldable pub sxe_dict_init : Bool → ℕ → ℕ → ℕ → Bool → Bool → Bool → Bool × Dict
sxe_dict_init calloc_ok initial_size load growth nocopy string hashed = (
  (initial_size == 0) || calloc_ok,
  record {
    allocated = not (initial_size == 0) && calloc_ok;
    table = no_nodes;
    keys_nocopy = nocopy;
    keys_string = string;
    keys_hashed = hashed;
    size = initial_size;
    count = 0;
    load = load;
    growth = growth;
  },
)

-- `malloc_ok` is for the structure.
unfoldable pub sxe_dict_new : Bool → Bool → ℕ → Option Dict
sxe_dict_new malloc_ok calloc_ok initial_size =
    let (success, dic) = sxe_dict_init calloc_ok initial_size 100 2 false false false in
    if not malloc_ok || not success then none else some dic

-- What requests for memory get: whether the first table, a larger one, a node and the copy of a key are
-- granted, and the bytes that memory has after the copy.
pub record Granted : Type 0 where
  pub first_table : Bool
  pub larger_table : Bool
  pub node : Bool
  pub key_copy : Bool
  pub past_copy : List ℕ

-- A key is the bytes from its pointer on, of which a copy has the first `len`; the bytes `past` it can be
-- read by a call that does not know the length.
unfoldable pub node_with : List ℕ → Dict → ℕ → List ℕ → ℕ → Node
node_with past dic hash key len = record {
  key =
      if dic.keys_nocopy
      then key
      else if dic.keys_string
      then take len key ++ 0 ∷ past
      else take len key ++ past;
  key_hash = hash;
  len = len;
  value = 0;
}

-- NULL, a copy through NULL, which is not defined, or a node.
pub data NewNode : Type 0 where
  no_memory copied_to_null : NewNode
  new_node : Node → NewNode

abbrev pub copies_keys : Dict → Bool
copies_keys dic = not dic.keys_hashed && not dic.keys_nocopy

-- The request for a key's copy is not tested.
unfoldable pub sxe_dict_node_new : Granted → Dict → ℕ → List ℕ → ℕ → NewNode
sxe_dict_node_new granted dic hash key len =
    if not granted.node
    then no_memory
    else if copies_keys dic && not granted.key_copy
    then copied_to_null
    else new_node (node_with granted.past_copy dic hash key len)

unfoldable pub compare_keys : Dict → Node → ℕ → List ℕ → ℕ → Bool
compare_keys dic link hash key len =
    if dic.keys_hashed
    then link.key_hash == hash
    else if dic.keys_string
    then same_bytes (c_string link.key) (c_string key)
    else (link.len == len) && same_bytes (take len link.key) (take len key)

-- Which node of a chain has the key, counted from `place` on.
unfoldable pub place_of : Dict → ℕ → List ℕ → ℕ → List Node → ℕ → Option ℕ
place_of dic hash key len [] place = none
place_of dic hash key len (link ∷ chain) place =
    if compare_keys dic link hash key len
    then some place
    else place_of dic hash key len chain (place + 1)

-- The first table.
unfoldable pub with_table : Bool → Dict → Option Dict
with_table first_table dic =
    if dic.allocated
    then some dic
    else if first_table
    then some (record dic { allocated = true; table = no_nodes; size = 1 })
    else none

-- The result of an addition: where the value is that it points at, the bucket and which node of it, or
-- NULL; and the dictionary. None stands for a copy through NULL.
abbrev pub Addition : Type 0
Addition = Option (Option (ℕ × ℕ) × Dict)

unfoldable pub find_or_append : Granted → Dict → ℕ → List ℕ → ℕ → Addition
find_or_append granted dic hash key len =
    let bucket = hash % dic.size in
    let chain = dic.table bucket in
    elim (place_of dic hash key len chain 0) [
      | some place ↦ some (some (bucket, place), dic)
      | none ↦ elim (sxe_dict_node_new granted dic hash key len) [
        | no_memory ↦ some (none, dic)
        | copied_to_null ↦ none
        | new_node node ↦ some (
          some (bucket, length chain),
          record dic {
            table = set_bucket dic.table bucket (chain ++ node ∷ []);
            count = u32 (dic.count + 1);
          },
        )
      ]
    ]

abbrev pub key_length : List ℕ → ℕ → ℕ
key_length key len = if len == 0 then strlen key else len

-- The value of the first node with the key, or NULL.
unfoldable pub find_in_chain : Dict → ℕ → List ℕ → ℕ → List Node → ℕ
find_in_chain dic hash key len [] = 0
find_in_chain dic hash key len (node ∷ chain) =
    if compare_keys dic node hash key len then node.value else find_in_chain dic hash key len chain

unfoldable pub find_entry : Dict → ℕ → List ℕ → ℕ → ℕ
find_entry dic hash key len =
    if dic.allocated then find_in_chain dic hash key len (dic.table (hash % dic.size)) else 0

-- `hash_64` is the sum of so many bytes that the hash function of the program is.
module _ (hash_64 : List ℕ → ℕ) where
  -- `sxe_hash_64`: a length of 0 is that of a string, whose bytes are read up to a NUL, past the key
  -- if it has none.
  unfoldable pub sxe_hash_64 : List ℕ → ℕ → ℕ
  sxe_hash_64 key length = hash_64 (if length == 0 then c_string key else take length key)

  -- The sum of a node's key, when it is put in again.
  unfoldable pub node_sum : Dict → Node → ℕ
  node_sum dic k2 =
      if dic.keys_hashed
      then k2.key_hash
      else if dic.keys_string
      then sxe_hash_64 k2.key 0
      else sxe_hash_64 k2.key k2.len

  unfoldable pub sxe_dict_reinsert_when_resizing : Dict → Node → Dict
  sxe_dict_reinsert_when_resizing dic k2 =
      let n = node_sum dic k2 % dic.size in
      record dic { table = set_bucket dic.table n (k2 ∷ dic.table n) }

  -- `while (node)`
  unfoldable pub reinsert_chain : List Node → Dict → Dict
  reinsert_chain [] dic = dic
  reinsert_chain (node ∷ chain) dic =
      reinsert_chain chain (sxe_dict_reinsert_when_resizing dic node)

  -- `for (i = 0; i < oldsize; i++)`, with `n` buckets to go from bucket `i` on.
  unfoldable pub reinsert_table : (ℕ → List Node) → ℕ → ℕ → Dict → Dict
  reinsert_table old i zero dic = dic
  reinsert_table old i (suc n) dic = reinsert_table old (i + 1) n (reinsert_chain (old i) dic)

  unfoldable pub sxe_dict_resize : Bool → Dict → ℕ → Bool × Dict
  sxe_dict_resize calloc_ok dic newsize =
      if calloc_ok
      then (
        true,
        reinsert_table dic.table 0 dic.size
            (record dic { allocated = true; table = no_nodes; size = newsize }),
      )
      else (false, dic)

  -- The growth of a table whose bucket for the key is in use.
  unfoldable pub grown : Bool → Dict → ℕ → Option Dict
  grown larger_table dic hash = elim (dic.table (hash % dic.size)) [
    | [] ↦ some dic
    | _ ∷ _ ↦
        if leb dic.load (u32 (dic.count * 100) / dic.size)
        then (let (success, larger) =
              sxe_dict_resize larger_table dic (u32 (dic.size * dic.growth)) in
            if success then some larger else none)
        else some dic
  ]

  unfoldable pub add_entry : Granted → Dict → ℕ → List ℕ → ℕ → Addition
  add_entry granted dic hash key len = elim (with_table granted.first_table dic) [
    | none ↦ some (none, dic)
    | some dic' ↦ elim (grown granted.larger_table dic' hash) [
      | none ↦ some (none, dic')
      | some dic'' ↦ find_or_append granted dic'' hash key len
    ]
  ]

  unfoldable pub sxe_dict_add : Granted → Dict → List ℕ → ℕ → Addition
  sxe_dict_add granted dic key len =
      let size = key_length key len in add_entry granted dic (sxe_hash_64 key size) key size

  unfoldable pub sxe_dict_add_hash : Granted → Dict → ℕ → Addition
  sxe_dict_add_hash granted dic hash = add_entry granted dic hash [] 0

  unfoldable pub sxe_dict_find : Dict → List ℕ → ℕ → ℕ
  sxe_dict_find dic key len =
      let size = key_length key len in find_entry dic (sxe_hash_64 key size) key size

  unfoldable pub sxe_dict_find_hash : Dict → ℕ → ℕ
  sxe_dict_find_hash dic hash = find_entry dic hash [] 0
