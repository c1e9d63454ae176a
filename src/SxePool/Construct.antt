-- ===== src/SxePool/Construct.antt =====
-- A pool that `sxe_pool_construct` of lib-sxe-pool/sxe-pool.c has just made.
use libkit.Common.{
  ℕ, zero, suc, ◌≤◌, ◌<◌, ◌==◌, [], ◌≡◌, ◌≢◌, refl, sym, arith, Bool-cases, inl, inr, ==→eq,
}
use mathlib.Core.Path.{subst}
use libkit.SxeList.Defs.{Memory, sxe_list_construct_impl}
use libkit.SxeList.Ends.{sxe_list_construct_impl-Holds}
use libkit.SxeList.Apart.{Same}
use libkit.SxePool.Defs.{
  Pool, queue_at, stamp, push_node, construct_queue, construct_queues, construct_nodes,
}
use libkit.SxePool.Queues.{Queue, own_Queue, other_Queue}

construct_place :
    (m : Memory) (list id offset : ℕ)
    → let list' = (sxe_list_construct_impl m list id offset).1 in
      (list'.sentinel ≡ list) × (list'.offset ≡ offset)
unfolding sxe_list_construct_impl
construct_place m list id offset = (refl, refl)

construct_Same :
    (m : Memory) (list id offset y : ℕ)
    → y ≢ list
    → Same m ((sxe_list_construct_impl m list id offset).0) y
unfolding sxe_list_construct_impl
construct_Same m list id offset y ne = (ground arith, ground arith, ground arith)

construct_queue-Queue : (i : ℕ) (pool : Pool) → Queue (construct_queue i pool) i []
unfolding construct_queue
construct_queue-Queue i pool =
    let r = sxe_list_construct_impl pool.memory (queue_at pool i) i 0 in
    let (sentinel, offset) = construct_place pool.memory (queue_at pool i) i 0 in
    let (holds, id) = sxe_list_construct_impl-Holds pool.memory (queue_at pool i) i 0 in
    own_Queue pool i (r.0) (r.1) [] sentinel offset id holds

construct_queue-other :
    (i : ℕ) (pool : Pool) (t : ℕ) → t ≢ i → Queue pool t [] → Queue (construct_queue i pool) t []
unfolding construct_queue
construct_queue-other i pool t ne q =
    let r = sxe_list_construct_impl pool.memory (queue_at pool i) i 0 in
    other_Queue pool i (r.0) (r.1) t [] ne
      (
        construct_Same pool.memory (queue_at pool i) i 0 (queue_at pool t)
            (λ e. ne (omega (arith, e))),
        tt,
      )
      q

pub construct_queues-Queue :
    (i : ℕ) (pool : Pool) (n : ℕ)
    → ((t : ℕ) → i ≤ t → t < n → Queue pool t [])
    → (t : ℕ) → t < n
    → Queue (construct_queues i pool) t []
unfolding construct_queues
construct_queues-Queue zero pool n above t h = above t (omega arith) h
construct_queues-Queue (suc i) pool n above t h =
    construct_queues-Queue i (construct_queue i pool) n next t h
  where
    next : (t : ℕ) → i ≤ t → t < n → Queue (construct_queue i pool) t []
    next t le lt = elim (Bool-cases (t == i)) [
      | inl here ↦
          subst (λ s. Queue (construct_queue i pool) s []) (sym (==→eq t i here))
            (construct_queue-Queue i pool)
      | inr other ↦
          let ne : t ≢ i = λ e. absurd (ground (arith, other, e)) in
          construct_queue-other i pool t ne (above t (ground (arith, other, le)) lt)
    ]

-- The members of a pool that stay as they are once it has its size and place.
pub record Shape (pool pool' : Pool) : Type 0 where
  pub number : pool'.number ≡ pool.number
  pub states : pool'.states ≡ pool.states
  pub queues : pool'.queues ≡ pool.queues
  pub nodes : pool'.nodes ≡ pool.nodes
  pub locked : pool'.locked ≡ pool.locked
  pub timed : pool'.timed ≡ pool.timed

pub construct_queues-Shape : (i : ℕ) (pool : Pool) → Shape pool (construct_queues i pool)
unfolding construct_queues construct_queue
construct_queues-Shape zero pool = record {
  number = refl;
  states = refl;
  queues = refl;
  nodes = refl;
  locked = refl;
  timed = refl;
}
construct_queues-Shape (suc i) pool =
    let r = construct_queues-Shape i (construct_queue i pool) in
    record {
      number = r.number;
      states = r.states;
      queues = r.queues;
      nodes = r.nodes;
      locked = r.locked;
      timed = r.timed;
    }

pub construct_nodes-Shape : (now i : ℕ) (pool : Pool) → Shape pool (construct_nodes now i pool)
unfolding construct_nodes push_node stamp
construct_nodes-Shape now zero pool = record {
  number = refl;
  states = refl;
  queues = refl;
  nodes = refl;
  locked = refl;
  timed = refl;
}
construct_nodes-Shape now (suc i) pool =
    let r = construct_nodes-Shape now i (push_node 0 i (stamp now i pool)) in
    record {
      number = r.number;
      states = r.states;
      queues = r.queues;
      nodes = r.nodes;
      locked = r.locked;
      timed = r.timed;
    }
