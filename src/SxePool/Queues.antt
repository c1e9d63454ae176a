-- ===== src/SxePool/Queues.antt =====
-- The queues of lib-sxe-pool in memory, and how they change when a node leaves or joins one.
use libkit.Common.{
  ℕ, ◌+◌, ◌*◌, ◌≤◌, ◌<◌, ◌^◌, ◌==◌, List, [], ◌∷◌, ◌++◌, map, map-append, ◌≡◌, ◌≢◌, refl, sym, ◌∙◌,
  ap, All, arith, if◌then◌else◌, ==_self, false,
}
use mathlib.Core.Path.{subst}
use libkit.SxeList.Defs.{Memory, SxeList, sxe_list_push, sxe_list_remove}
use libkit.SxeList.Holds.{Holds, All-map}
use libkit.SxeList.Removal.{sxe_list_remove-Holds, remove_ids}
use libkit.SxeList.Apart.{Same, Holds-Same, sxe_list_remove-Same}
use libkit.SxePool.Defs.{Pool, queue_at, node_at, sizeof_list, state_of, remove_node, set_queue}

-- Which elements are in each state, oldest first.
abbrev pub View : Type 0
View = ℕ → List ℕ

abbrev pub set_view : View → ℕ → List ℕ → View
set_view view state xs s = if s == state then xs else view s

-- One queue of the pool: its head is in its place, and its list holds the nodes of the elements `xs`.
pub record Queue (pool : Pool) (state : ℕ) (xs : List ℕ) : Type 0 where
  pub sentinel : (pool.queue state).sentinel ≡ queue_at pool state
  pub offset : (pool.queue state).offset ≡ 0
  pub id : pool.memory.id (queue_at pool state) ≡ state
  pub holds : Holds pool.memory (pool.queue state) (map (node_at pool) xs)

abbrev pub Queues : Pool → View → Type 0
Queues pool view = (s : ℕ) → s < pool.states → Queue pool s (view s)

remove_place :
    (m : Memory) (list : SxeList) (object : ℕ)
    → let list' = (sxe_list_remove m list object).1 in
      (list'.sentinel ≡ list.sentinel) × (list'.offset ≡ list.offset)
unfolding sxe_list_remove
remove_place m list object = (refl, refl)

pub push_place :
    (m : Memory) (list : SxeList) (object : ℕ)
    → let list' = (sxe_list_push m list object).1 in
      (list'.sentinel ≡ list.sentinel) × (list'.offset ≡ list.offset)
unfolding sxe_list_push
push_place m list object = (refl, refl)

-- The nodes are behind the queue heads.
abbrev pub Layout : Pool → Type 0
Layout pool = pool.queues + pool.states * sizeof_list ≤ pool.nodes

module _ (pool : Pool) where
  pub node_not_head : (s i : ℕ) → s < pool.states → Layout pool → node_at pool i ≢ queue_at pool s
  node_not_head s i below layout e = absurd (omega arith)

  -- A node has the identifier of the queue that it is on.
  pub Queue-ids : {s : ℕ} {xs : List ℕ} → Queue pool s xs → All (λ i. state_of pool i ≡ s) xs
  Queue-ids {s} {xs} q = go xs (
      All-map (λ x. pool.memory.id x ≡ pool.memory.id (pool.queue s).sentinel)
        (map (node_at pool) xs) (λ x e. e ∙ ap pool.memory.id q.sentinel ∙ q.id) q.holds.ids)
    where
      go :
          (ys : List ℕ)
          → All (λ x. pool.memory.id x ≡ s) (map (node_at pool) ys)
          → All (λ i. state_of pool i ≡ s) ys
      go [] h = tt
      go (y ∷ ys) h = (h.0, go ys h.1)

  -- The list node that the list functions find is the pool node itself.
  pub at_node :
      (s i : ℕ)
      → (pool.queue s).offset ≡ 0
      → node_at pool i + (pool.queue s).offset ≡ node_at pool i
  at_node s i e = omega (arith, e)

  -- The pool with another memory and another list for one state.
  abbrev pub with_list : ℕ → Memory → SxeList → Pool
  with_list s m list = record pool { memory = m; queue = set_queue pool.queue s list }

  pub own_Queue :
      (s : ℕ) (m : Memory) (list : SxeList) (xs : List ℕ)
      → list.sentinel ≡ queue_at pool s
      → list.offset ≡ 0
      → m.id (queue_at pool s) ≡ s
      → Holds m list (map (node_at pool) xs)
      → Queue (with_list s m list) s xs
  own_Queue s m list xs sentinel offset id h = record {
    sentinel = rw (==_self s) sentinel;
    offset = rw (==_self s) offset;
    id = id;
    holds = rw (==_self s) h;
  }

  pub other_Queue :
      (s : ℕ) (m : Memory) (list : SxeList) (t : ℕ) (zs : List ℕ)
      → t ≢ s
      → All (Same pool.memory m) (queue_at pool t ∷ map (node_at pool) zs)
      → Queue pool t zs
      → Queue (with_list s m list) t zs
  other_Queue s m list t zs ne same q =
      let apart : (t == s) ≡ false = ground (arith, ne) in
      let head = subst (Same pool.memory m) (sym q.sentinel) same.0 in
      record {
        sentinel = rw apart q.sentinel;
        offset = rw apart q.offset;
        id = same.0.2 ∙ q.id;
        holds = rw apart (
            Holds-Same pool.memory m (pool.queue t) (map (node_at pool) zs) (head, same.1) q.holds);
      }

  -- The head and the nodes of a queue, by their identifier.
  pub node_ids :
      (t : ℕ) (zs : List ℕ)
      → Queue pool t zs
      → All (λ x. pool.memory.id x ≡ t) (queue_at pool t ∷ map (node_at pool) zs)
  node_ids t zs q = (
    q.id,
    All-map (λ x. pool.memory.id x ≡ pool.memory.id (pool.queue t).sentinel) (map (node_at pool) zs)
        (λ x e. e ∙ ap pool.memory.id q.sentinel ∙ q.id) q.holds.ids,
  )

  module _ (s i : ℕ) (xs ys : List ℕ) (q : Queue pool s (xs ++ i ∷ ys))
      (small : (pool.queue s).length < 2 ^ 32) where
    abbrev list : SxeList
    list = pool.queue s

    on_list :
        Holds pool.memory list
          (map (node_at pool) xs ++ (node_at pool i + list.offset) ∷ map (node_at pool) ys)
    on_list =
        subst (λ n. Holds pool.memory list (map (node_at pool) xs ++ n ∷ map (node_at pool) ys))
          (sym (at_node s i q.offset))
          (subst (Holds pool.memory list) (map-append (node_at pool) xs (i ∷ ys)) q.holds)

    -- The element leaves its own queue.
    pub remove_node-Queue : Queue (remove_node s i pool) s (xs ++ ys)
    unfolding remove_node
    remove_node-Queue =
        let r = sxe_list_remove pool.memory list (node_at pool i) in
        let (sentinel, offset) = remove_place pool.memory list (node_at pool i) in
        own_Queue s (r.0) (r.1) (xs ++ ys) (sentinel ∙ q.sentinel) (offset ∙ q.offset)
          (remove_ids pool.memory list (node_at pool i) (queue_at pool s) ∙ q.id)
          (subst (Holds (r.0) (r.1)) (sym (map-append (node_at pool) xs ys)) (
            sxe_list_remove-Holds pool.memory list (node_at pool i) (map (node_at pool) xs)
              (map (node_at pool) ys) on_list small))

    -- The other queues stay as they are.
    pub remove_node-other :
        (t : ℕ) (zs : List ℕ) → t ≢ s → Queue pool t zs → Queue (remove_node s i pool) t zs
    unfolding remove_node
    remove_node-other t zs ne o =
        let r = sxe_list_remove pool.memory list (node_at pool i) in
        other_Queue s (r.0) (r.1) t zs ne
          (All-map (λ x. pool.memory.id x ≡ t) (queue_at pool t ∷ map (node_at pool) zs)
            (λ y e.
              sxe_list_remove-Same pool.memory list (node_at pool i) (map (node_at pool) xs)
                (map (node_at pool) ys) on_list y
                (λ f. ne (sym e ∙ f ∙ ap pool.memory.id q.sentinel ∙ q.id)))
            (node_ids t zs o))
          o
