-- ===== src/SxeDict/Walk.antt =====
-- `sxe_dict_walk` of lib-sxe-dict/sxe-dict.c, with a function that may store another value.
use libkit.Common.{
  c_string, map, All-append, length-take_within, ℕ, zero, suc, ◌+◌, ◌≤◌, ◌<◌, ◌==◌, Bool, true,
  false, if◌then◌else◌, List, [], ◌∷◌, ◌++◌, All, length, append_assoc, append-nil, ◌≡◌, ◌≢◌, refl,
  sym, ◌∙◌, ap, arith, Bool-cases, inl, inr, ==_self,
}
use mathlib.Core.Path.{subst}
use libkit.SxeDict.Defs.{strlen, Node, Dict, set_bucket}
use libkit.SxeDict.Keys.{key_of, NodeValid, HasNul}
use libkit.SxeDict.Resize.{all_valid}
use libkit.SxeDict.Chains.{DistinctKeys}
use libkit.SxeDict.Valid.{nodes_of, InBucket, DictValid, DistinctKeys-nodes_of}
use libkit.SxeDict.Lookups.{rechained, rechained-DictValid}

-- What the function's first argument points at: a hash sum in the node, or the bytes of a key.
pub data KeyAt : Type 0 where
  hash_at : ℕ → KeyAt
  bytes_at : List ℕ → KeyAt

-- `S` is what `user` points at. The function is given a key, its length and the value, and gives its
-- result, the value it leaves and what it leaves at `user`.
module _ {S : Type 0} (func : KeyAt → ℕ → ℕ → S → Bool × ℕ × S) where
  unfoldable pub visit : Dict → Node → S → Bool × ℕ × S
  visit dic node user =
      if dic.keys_hashed
      then func (hash_at node.key_hash) 8 node.value user
      else if dic.keys_string
      then func (bytes_at node.key) (strlen node.key) node.value user
      else func (bytes_at node.key) node.len node.value user

  -- `for (node = dic->table[i]; node != NULL; node = node->next)`
  unfoldable pub walk_chain : (Node → S → Bool × ℕ × S) → List Node → S → Bool × List Node × S
  walk_chain call [] user = (true, [], user)
  walk_chain call (node ∷ chain) user =
      let (go, value, user') = call node user in
      let node' = record node { value = value } in
      let (all, chain', user'') = walk_chain call chain user' in
      if go then (all, node' ∷ chain', user'') else (false, node' ∷ chain, user')

  -- `for (unsigned i = 0; i < dic->size; i++)`, with `n` buckets to go from bucket `i` on.
  unfoldable pub walk_table : ℕ → ℕ → Dict → S → Bool × Dict × S
  walk_table i zero dic user = (true, dic, user)
  walk_table i (suc n) dic user =
      let (all, chain, user') = walk_chain (visit dic) (dic.table i) user in
      let dic' = record dic { table = set_bucket dic.table i chain } in
      let rest = walk_table (i + 1) n dic' user' in if all then rest else (false, dic', user')

  unfoldable pub sxe_dict_walk : Dict → S → Bool × Dict × S
  sxe_dict_walk dic user = walk_table 0 dic.size dic user

  abbrev after : Bool × List Node × S → List Node → Bool × List Node × S → Bool × List Node × S
  after (all, xs', user') ys (all', ys', user'') =
      if all then (all', xs' ++ ys', user'') else (false, xs' ++ ys, user')

  walk_chain-append :
      (call : Node → S → Bool × ℕ × S) (xs ys : List Node) (user : S)
      → walk_chain call (xs ++ ys) user
        ≡ after (walk_chain call xs user) ys (walk_chain call ys (walk_chain call xs user).2)
  unfolding walk_chain
  walk_chain-append call [] ys user = refl
  walk_chain-append call (node ∷ xs) ys user =
      let user' = (call node user).2 in
      let node' = record node { value = (call node user).1 } in
      elim (Bool-cases (call node user).0) [
        | inr stop ↦ rw stop refl
        | inl go ↦ elim (Bool-cases (walk_chain call xs user').0) [
          | inl all ↦ rw (go, walk_chain-append call xs ys user', all) refl
          | inr some_left ↦ rw (go, walk_chain-append call xs ys user', some_left) refl
        ]
      ]

  abbrev nodes_from : (ℕ → List Node) → ℕ → ℕ → List Node
  nodes_from table i zero = []
  nodes_from table i (suc n) = table i ++ nodes_from table (i + 1) n

  nodes_of-nodes_from :
      (table : ℕ → List Node) (n i : ℕ)
      → nodes_of table i ++ nodes_from table i n ≡ nodes_of table (i + n)
  nodes_of-nodes_from table zero i =
      let e : i ≡ i + 0 = omega arith in append-nil (nodes_of table i) ∙ ap (nodes_of table) e
  nodes_of-nodes_from table (suc n) i =
      let next : suc i ≡ i + 1 = omega arith in
      let all : i + 1 + n ≡ i + suc n = omega arith in
      sym (append_assoc (nodes_of table i) (table i) (nodes_from table (i + 1) n))
      ∙ ap (λ j. nodes_of table j ++ nodes_from table (i + 1) n) next
      ∙ nodes_of-nodes_from table n (i + 1)
      ∙ ap (nodes_of table) all

  nodes_from-set_bucket :
      (table : ℕ → List Node) (i : ℕ) (chain : List Node) (n j : ℕ)
      → i < j
      → nodes_from (set_bucket table i chain) j n ≡ nodes_from table j n
  nodes_from-set_bucket table i chain zero j h = refl
  nodes_from-set_bucket table i chain (suc n) j h =
      let other : (j == i) ≡ false = ground (arith, h) in
      rw (other, nodes_from-set_bucket table i chain n (j + 1) (omega (arith, h))) refl

  -- The walk over a table does what a walk over the list of its nodes does.
  record Flat (i n : ℕ) (dic : Dict) (w : Bool × Dict × S) (c : Bool × List Node × S) : Type 0 where
    result : w.0 ≡ c.0
    nodes : nodes_from w.1.table i n ≡ c.1
    user : w.2 ≡ c.2
    before : (j : ℕ) → j < i → w.1.table j ≡ dic.table j

  walk_table-Flat :
      (n i : ℕ) (dic : Dict) (user : S)
      → Flat i n dic
          (walk_table i n dic user)
          (walk_chain (visit dic) (nodes_from dic.table i n) user)
  unfolding walk_table visit walk_chain
  walk_table-Flat zero i dic user = record {
    result = refl;
    nodes = refl;
    user = refl;
    before = λ j h. refl;
  }
  walk_table-Flat (suc n) i dic user =
      let ys = nodes_from dic.table (i + 1) n in
      let (all, chain, user') = walk_chain (visit dic) (dic.table i) user in
      let table' = set_bucket dic.table i chain in
      let dic' = record dic { table = table' } in
      let w = walk_table (i + 1) n dic' user' in
      let c = walk_chain (visit dic) ys user' in
      let later : nodes_from table' (i + 1) n ≡ ys =
        nodes_from-set_bucket dic.table i chain n (i + 1) (omega arith) in
      let rest = walk_table-Flat n (i + 1) dic' user' in
      let flat = subst (λ ns. Flat (i + 1) n dic' w (walk_chain (visit dic) ns user')) later rest in
      let earlier : (j : ℕ) → j < i → table' j ≡ dic.table j =
        λ j h. (let other : (j == i) ≡ false = ground (arith, h) in rw other refl) in
      let own : table' i ≡ chain = rw (==_self i) refl in
      subst (Flat i (suc n) dic (if all then w else (false, dic', user')))
        (sym (walk_chain-append (visit dic) (dic.table i) ys user))
        (elim (Bool-cases all) [
          | inl go ↦ rw go record {
            result = flat.result;
            nodes = rw (flat.before i (omega arith), own, flat.nodes) refl;
            user = flat.user;
            before = λ j h. flat.before j (omega (arith, h)) ∙ earlier j h;
          }
          | inr stop ↦
              rw stop record {
                result = refl;
                nodes = rw (own, later) refl;
                user = refl;
                before = earlier;
              }
        ])

  module _ (P : Node → Type 0)
      (keep : (node : Node) (value : ℕ) → P node → P (record node { value = value }))
      (call : Node → S → Bool × ℕ × S) where
    walk_chain-All :
        (chain : List Node) (user : S) → All P chain → All P (walk_chain call chain user).1
    unfolding walk_chain
    walk_chain-All [] user h = tt
    walk_chain-All (node ∷ chain) user h = elim (Bool-cases (call node user).0) [
      | inl go ↦ rw go (keep node _ h.0, walk_chain-All chain (call node user).2 h.1)
      | inr stop ↦ rw stop (keep node _ h.0, h.1)
    ]

  walk_chain-DistinctKeys :
      (dic : Dict) (call : Node → S → Bool × ℕ × S) (chain : List Node) (user : S)
      → DistinctKeys (key_of dic) chain
      → DistinctKeys (key_of dic) (walk_chain call chain user).1
  unfolding walk_chain
  walk_chain-DistinctKeys dic call [] user h = tt
  walk_chain-DistinctKeys dic call (node ∷ chain) user h =
      let user' = (call node user).2 in
      elim (Bool-cases (call node user).0) [
        | inl go ↦ rw go (
          walk_chain-All (λ n. key_of dic n ≢ key_of dic node) (λ n value ne. ne) call chain user'
              h.0,
          walk_chain-DistinctKeys dic call chain user' h.1,
        )
        | inr stop ↦ rw stop h
      ]

  length-walk_chain :
      (call : Node → S → Bool × ℕ × S) (chain : List Node) (user : S)
      → length (walk_chain call chain user).1 ≡ length chain
  unfolding walk_chain
  length-walk_chain call [] user = refl
  length-walk_chain call (node ∷ chain) user = elim (Bool-cases (call node user).0) [
    | inl go ↦ rw go (ap suc (length-walk_chain call chain (call node user).2))
    | inr stop ↦ rw stop refl
  ]

  walk_table-DictValid :
      (hash_64 : List ℕ → ℕ) (n i : ℕ) (dic : Dict) (user : S)
      → i + n ≤ dic.size
      → DictValid hash_64 dic
      → DictValid hash_64 (walk_table i n dic user).1
  unfolding walk_table
  walk_table-DictValid hash_64 zero i dic user within v = v
  walk_table-DictValid hash_64 (suc n) i dic user within v =
      let below : i < dic.size = omega (arith, within) in
      let (all, chain, user') = walk_chain (visit dic) (dic.table i) user in
      let counted : dic.count + length (dic.table i) ≡ dic.count + length chain =
        omega (arith, length-walk_chain (visit dic) (dic.table i) user) in
      let w =
        rechained-DictValid hash_64 dic v i below chain dic.count
          (walk_chain-All (InBucket hash_64 dic i) (λ node value h. h) (visit dic) (dic.table i)
            user (v.placed i below))
          (walk_chain-DistinctKeys dic (visit dic) (dic.table i) user (v.distinct i below)) counted
          v.few in
      elim (Bool-cases all) [
        | inl go ↦ rw go (
            walk_table-DictValid hash_64 n (i + 1) (rechained dic i chain dic.count) user'
              (omega (arith, within)) w)
        | inr stop ↦ rw stop w
      ]

  -- What the function is told of a node: the number of bytes of a hash sum, or of the key.
  abbrev pub entry_of : Dict → Node → KeyAt × ℕ × ℕ
  entry_of dic node = (
    if dic.keys_hashed then hash_at node.key_hash else bytes_at node.key,
    if dic.keys_hashed then 8 else length (key_of dic node),
    node.value,
  )

  abbrev pub values_in : List (KeyAt × ℕ × ℕ) → List ℕ
  values_in [] = []
  values_in ((at, len, value) ∷ entries) = value ∷ values_in entries

  -- Calls of the function with each entry in turn, until it gives false: with the entries, `user` at
  -- first, the result, the values that are left, and `user` in the end.
  pub data Walks : List (KeyAt × ℕ × ℕ) → S → Bool → List ℕ → S → Type 0 where
    over : {user : S} → Walks [] user true [] user
    ended :
        {at : KeyAt} {len value value' : ℕ} {entries : List (KeyAt × ℕ × ℕ)} {user user' : S}
        → func at len value user ≡ (false, value', user')
        → Walks ((at, len, value) ∷ entries) user false (value' ∷ values_in entries) user'
    goes_on :
        {at : KeyAt} {len value value' : ℕ} {entries : List (KeyAt × ℕ × ℕ)} {user user' user'' : S}
        {result : Bool} {values : List ℕ}
        → func at len value user ≡ (true, value', user')
        → Walks entries user' result values user''
        → Walks ((at, len, value) ∷ entries) user result (value' ∷ values) user''

  -- The nodes with other values.
  abbrev pub with_values : List Node → List ℕ → List Node
  with_values [] values = []
  with_values (node ∷ nodes) [] = node ∷ nodes
  with_values (node ∷ nodes) (value ∷ values) =
      record node { value = value } ∷ with_values nodes values

  with_values_same :
      (dic : Dict) (nodes : List Node)
      → with_values nodes (values_in (map (entry_of dic) nodes)) ≡ nodes
  with_values_same dic [] = refl
  with_values_same dic (node ∷ nodes) = ap (λ t. node ∷ t) (with_values_same dic nodes)

  visit-entry_of :
      (dic : Dict) (node : Node) (user : S)
      → NodeValid dic node
      → visit dic node user
        ≡ func (entry_of dic node).0 (entry_of dic node).1 (entry_of dic node).2 user
  unfolding visit
  visit-entry_of dic node user v = elim (Bool-cases (dic.keys_hashed)) [
    | inl h ↦ rw h refl
    | inr h ↦ elim (Bool-cases (dic.keys_string)) [
      | inl s ↦ rw (h, s) refl
      | inr s ↦
          let w : (node.len ≤ length node.key)
              × (node.len ≡ 0
                  → (dic.keys_nocopy ≡ true) × (c_string node.key ≡ []) × HasNul node.key) =
            simp (h, s) at v in
          rw (h, s)
            (ap (λ n. func (bytes_at node.key) n node.value user)
              (sym (length-take_within node.len node.key w.0)))
    ]
  ]

  -- A walk over nodes calls the function with their entries.
  abbrev Called : Dict → List Node → S → Bool × List Node × S → Type 0
  Called dic nodes user w =
      (values : List ℕ) × (Walks (map (entry_of dic) nodes) user w.0 values w.2)
      × (w.1 ≡ with_values nodes values)

  walk_chain-Called :
      (dic : Dict) (nodes : List Node) (user : S)
      → All (NodeValid dic) nodes
      → Called dic nodes user (walk_chain (visit dic) nodes user)
  unfolding walk_chain
  walk_chain-Called dic [] user valid = ([], over, refl)
  walk_chain-Called dic (node ∷ nodes) user valid =
      let r = visit dic node user in
      let e = sym (visit-entry_of dic node user valid.0) in
      elim (Bool-cases r.0) [
        | inl go ↦
            let (values, walks, same) = walk_chain-Called dic nodes r.2 valid.1 in
            rw go (
              r.1 ∷ values,
              goes_on (e ∙ ap {B = Bool × ℕ × S} (λ b. (b, r.1, r.2)) go) walks,
              ap (λ t. record node { value = r.1 } ∷ t) same,
            )
        | inr stop ↦ rw stop (
          r.1 ∷ values_in (map (entry_of dic) nodes),
          ended (e ∙ ap {B = Bool × ℕ × S} (λ b. (b, r.1, r.2)) stop),
          ap (λ t. record node { value = r.1 } ∷ t) (sym (with_values_same dic nodes)),
        )
      ]

  nodes-NodeValid :
      (hash_64 : List ℕ → ℕ) (dic : Dict) (n : ℕ)
      → n ≤ dic.size
      → DictValid hash_64 dic
      → All (NodeValid dic) (nodes_of dic.table n)
  nodes-NodeValid hash_64 dic zero within v = tt
  nodes-NodeValid hash_64 dic (suc n) within v =
      All-append (NodeValid dic) (nodes_of dic.table n) (dic.table n)
        (nodes-NodeValid hash_64 dic n (omega (arith, within)) v)
        (all_valid hash_64 dic n (dic.table n) (v.placed n (omega (arith, within))))

  -- Walking a dictionary in order calls the function with the entry of each node in turn, once, until it
  -- gives false: what `user` points at is handed on from call to call, the result says whether all
  -- calls gave true, and each node that was visited has the value that its call left, the others their
  -- own. No two nodes have the same key, and the dictionary is in order afterwards.
  pub sxe_dict_walk-Walks :
      (hash_64 : List ℕ → ℕ) (dic : Dict) (user : S)
      → DictValid hash_64 dic
      → let w = sxe_dict_walk dic user in
        let nodes = nodes_of dic.table dic.size in
        ((values : List ℕ) × (Walks (map (entry_of dic) nodes) user w.0 values w.2)
          × (nodes_of w.1.table dic.size ≡ with_values nodes values))
        × DistinctKeys (key_of dic) nodes
        × DictValid hash_64 w.1
  unfolding sxe_dict_walk
  sxe_dict_walk-Walks hash_64 dic user v =
      let nodes = nodes_of dic.table dic.size in
      let w = walk_table 0 dic.size dic user in
      let all : 0 + dic.size ≡ dic.size = omega arith in
      let concat = λ (table : ℕ → List Node).
        (nodes_of-nodes_from table dic.size 0 ∙ ap (nodes_of table) all) in
      let flat =
        subst (λ ns. Flat 0 dic.size dic w (walk_chain (visit dic) ns user)) (concat dic.table)
          (walk_table-Flat dic.size 0 dic user) in
      let (values, walks, same) =
        walk_chain-Called dic nodes user (nodes-NodeValid hash_64 dic dic.size (omega arith) v) in
      (
        (
          values,
          subst (λ u. Walks (map (entry_of dic) nodes) user w.0 values u) (sym flat.user)
              (subst
                (λ b.
                  Walks (map (entry_of dic) nodes) user b values
                    (walk_chain (visit dic) nodes user).2)
                (sym flat.result) walks),
          sym (concat w.1.table) ∙ flat.nodes ∙ same,
        ),
        DistinctKeys-nodes_of hash_64 dic dic.size (omega arith) v,
        walk_table-DictValid hash_64 dic.size 0 dic user (omega arith) v,
      )
