-- ===== src/SxePool/Joins.antt =====
-- A node of lib-sxe-pool that is on no queue joins one.
use libkit.Common.{
  ℕ, ◌+◌, ◌<◌, ◌^◌, List, [], ◌∷◌, ◌++◌, length, length-map, map, map-append, ◌≡◌, ◌≢◌, sym, ◌∙◌,
  ap, All, arith,
}
use mathlib.Core.Path.{subst}
use libkit.SxeList.Defs.{Memory, SxeList, sxe_list_push}
use libkit.SxeList.Linked.{Fresh}
use libkit.SxeList.Holds.{Holds}
use libkit.SxeList.Ends.{sxe_list_push-Holds, push_ids}
use libkit.SxeList.Apart.{Same, sxe_list_push-Same}
use libkit.SxePool.Defs.{Pool, queue_at, node_at, state_of, push_node}
use libkit.SxePool.Queues.{
  Queue, Layout, node_not_head, at_node, own_Queue, other_Queue, node_ids, push_place,
}

module _ (pool : Pool) where
  Fresh-node : (i : ℕ) (xs : List ℕ) → Fresh i xs → Fresh (node_at pool i) (map (node_at pool) xs)
  Fresh-node i [] away = tt
  Fresh-node i (x ∷ xs) away = (λ e. away.0 (omega (arith, e)), Fresh-node i xs away.1)

  module _ (s i : ℕ) (xs : List ℕ) (q : Queue pool s xs) (below : s < pool.states)
      (layout : Layout pool) (away : Fresh i xs) (small : length xs + 1 < 2 ^ 32) where
    abbrev list : SxeList
    list = pool.queue s

    abbrev n : ℕ
    n = node_at pool i + list.offset

    abbrev m' : Memory
    m' = (sxe_list_push pool.memory list (node_at pool i)).0

    here : n ≡ node_at pool i
    here = at_node pool s i q.offset

    not_sentinel : n ≢ list.sentinel
    not_sentinel e = node_not_head pool s i below layout (sym here ∙ e ∙ q.sentinel)

    not_there : Fresh n (map (node_at pool) xs)
    not_there = subst (λ t. Fresh t (map (node_at pool) xs)) (sym here) (Fresh-node i xs away)

    -- The element is the last of the queue that it joins.
    pub push_node-Queue : Queue (push_node s i pool) s (xs ++ i ∷ [])
    unfolding push_node
    push_node-Queue =
        let r = sxe_list_push pool.memory list (node_at pool i) in
        let (sentinel, offset) = push_place pool.memory list (node_at pool i) in
        let (same, id) = push_ids pool.memory list (node_at pool i) not_sentinel in
        let room : length (map (node_at pool) xs) + 1 < 2 ^ 32 =
          omega (arith, length-map (node_at pool) xs, small) in
        let joined =
          sxe_list_push-Holds pool.memory list (node_at pool i) (map (node_at pool) xs) q.holds
            not_sentinel not_there room in
        own_Queue pool s (r.0) (r.1) (xs ++ i ∷ []) (sentinel ∙ q.sentinel) (offset ∙ q.offset)
          (same (queue_at pool s) (λ e. not_sentinel (sym e ∙ sym q.sentinel)) ∙ q.id)
          (subst (Holds (r.0) (r.1)) (sym (map-append (node_at pool) xs (i ∷ [])))
            (subst (λ t. Holds (r.0) (r.1) (map (node_at pool) xs ++ t ∷ [])) here joined))

    -- The other queues, which the element is not on either, stay as they are.
    pub push_node-other :
        (t : ℕ) (zs : List ℕ)
        → t ≢ s
        → t < pool.states
        → Fresh i zs
        → Queue pool t zs
        → Queue (push_node s i pool) t zs
    unfolding push_node
    push_node-other t zs ne below' away' o =
        other_Queue pool s m' (sxe_list_push pool.memory list (node_at pool i)).1 t zs ne
          (
            same (queue_at pool t) ids.0
                (λ e. node_not_head pool t i below' layout (sym here ∙ sym e)),
            each zs ids.1 away',
          )
          o
      where
        ids : All (λ x. pool.memory.id x ≡ t) (queue_at pool t ∷ map (node_at pool) zs)
        ids = node_ids pool t zs o

        same : (y : ℕ) → pool.memory.id y ≡ t → y ≢ n → Same pool.memory m' y
        same y e yn =
            sxe_list_push-Same pool.memory list (node_at pool i) (map (node_at pool) xs) q.holds
              not_sentinel not_there y (λ f. ne (sym e ∙ f ∙ ap pool.memory.id q.sentinel ∙ q.id))
              yn

        each :
            (ws : List ℕ)
            → All (λ x. pool.memory.id x ≡ t) (map (node_at pool) ws)
            → Fresh i ws
            → All (Same pool.memory m') (map (node_at pool) ws)
        each [] e f = tt
        each (w ∷ ws) e f =
            (same (node_at pool w) e.0 (λ g. f.0 (omega (arith, g, here))), each ws e.1 f.1)

    -- The element is now in that state, and the others are in the states that they were in.
    pub push_node-state : state_of (push_node s i pool) i ≡ s
    unfolding push_node
    push_node-state =
        let (same, id) = push_ids pool.memory list (node_at pool i) not_sentinel in
        ap m'.id (sym here) ∙ id ∙ ap pool.memory.id q.sentinel ∙ q.id

    pub push_node-state_else : (j : ℕ) → j ≢ i → state_of (push_node s i pool) j ≡ state_of pool j
    unfolding push_node
    push_node-state_else j ne =
        let (same, id) = push_ids pool.memory list (node_at pool i) not_sentinel in
        same (node_at pool j) (λ e. ne (omega (arith, e, here)))
