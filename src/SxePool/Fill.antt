-- ===== src/SxePool/Fill.antt =====
-- The free queue of a new pool of lib-sxe-pool, filled node by node.
use libkit.Common.{
  ℕ, zero, suc, ◌+◌, ◌≤◌, ◌<◌, ◌^◌, List, [], ◌∷◌, ◌++◌, length, length-append, sym, All,
  All-append, arith, append-nil, append_assoc,
}
use mathlib.Core.Path.{subst}
use libkit.SxeList.Linked.{Fresh}
use libkit.SxeList.Holds.{All-map}
use libkit.SxePool.Defs.{Pool, stamp, push_node, construct_nodes}
use libkit.SxePool.Queues.{Queue, Layout}
use libkit.SxePool.Joins.{push_node-Queue, push_node-other}
use libkit.SxePool.Change.{stamp-Queue}

-- All indices below `n`, the highest first.
abbrev pub down : ℕ → List ℕ
down zero = []
down (suc n) = n ∷ down n

-- Every index from `i` on is on the free queue, and the other queues are empty.
pub record Filled (pool : Pool) (xs : List ℕ) (i : ℕ) : Type 0 where
  pub layout : Layout pool
  pub some_states : 0 < pool.states
  pub free : Queue pool 0 xs
  pub others : (t : ℕ) → 0 < t → t < pool.states → Queue pool t []
  pub above : All (λ j. i ≤ j) xs

fill :
    (now i : ℕ) (pool : Pool) (xs : List ℕ)
    → Filled pool xs (suc i)
    → length xs + 1 < 2 ^ 32
    → Filled (push_node 0 i (stamp now i pool)) (xs ++ i ∷ []) i
unfolding push_node stamp
fill now i pool xs f room = record {
  layout = layout;
  some_states = some_states;
  free = push_node-Queue before 0 i xs free some_states' before-Layout away room;
  others = λ t p h.
      push_node-other before 0 i xs free some_states' before-Layout away room t []
        (λ e. absurd (omega (arith, e, p))) (in_before t h) tt
        (stamp-Queue now i pool t [] (f.others t p (in_pool t h)));
  above =
      All-append (λ j. i ≤ j) xs (i ∷ [])
        (All-map (λ j. suc i ≤ j) xs (λ j h. omega (arith, h)) f.above) (omega arith, tt);
}
  where
    before : Pool
    before = stamp now i pool

    before-Layout : Layout before
    before-Layout = f.layout

    layout : Layout (push_node 0 i (stamp now i pool))
    layout = f.layout

    some_states : 0 < (push_node 0 i (stamp now i pool)).states
    some_states = f.some_states

    some_states' : 0 < before.states
    some_states' = f.some_states

    in_before : (t : ℕ) → t < (push_node 0 i (stamp now i pool)).states → t < before.states
    in_before t h = h

    in_pool : (t : ℕ) → t < (push_node 0 i (stamp now i pool)).states → t < pool.states
    in_pool t h = h

    free : Queue before 0 xs
    free = stamp-Queue now i pool 0 xs f.free

    away : Fresh i xs
    away = All-map (λ j. suc i ≤ j) xs (λ j h e. absurd (omega (arith, h, e))) f.above

pub filled :
    (now i : ℕ) (pool : Pool) (xs : List ℕ)
    → Filled pool xs i
    → length xs + i < 2 ^ 32
    → Filled (construct_nodes now i pool) (xs ++ down i) 0
unfolding construct_nodes
filled now zero pool xs f room = subst (λ t. Filled pool t 0) (sym (append-nil xs)) f
filled now (suc i) pool xs f room =
    subst (λ t. Filled (construct_nodes now i (push_node 0 i (stamp now i pool))) t 0)
      (append_assoc xs (i ∷ []) (down i))
      (filled now i (push_node 0 i (stamp now i pool)) (xs ++ i ∷ [])
        (fill now i pool xs f (omega arith)) (omega (arith, length-append xs (i ∷ []))))
