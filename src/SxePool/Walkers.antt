-- ===== src/SxePool/Walkers.antt =====
-- lib-sxe-pool/sxe-pool-walker.c: walking the elements of one state, while they may move.
use libkit.Common.{ℕ, zero, suc, ◌==◌, leb, not, Bool, false, if◌then◌else◌, Option, none, some}
use libkit.SxeList.Defs.{
  Walker, sxe_list_walker_construct, sxe_list_walker_back, sxe_list_walker_find,
  sxe_list_walker_step,
}
use libkit.SxePool.Defs.{
  Pool, Outcome, aborted, done, index_of, sxe_pool_lock, sxe_pool_lock_not_taken, sxe_pool_no_index,
}

-- The pool is an argument of each operation.
pub record PoolWalker : Type 0 where
  pub list_walker : Walker
  pub state : ℕ
  pub last : ℕ

unfoldable pub sxe_pool_walker_construct : Pool → ℕ → Outcome PoolWalker
sxe_pool_walker_construct pool state =
    let walker : PoolWalker = record {
      list_walker = sxe_list_walker_construct (pool.queue state);
      state = state;
      last = 0;
    } in
    if pool.locked then (if pool.timed then aborted else done walker) else done walker

-- There is a node, and it is in another state.
abbrev pub gone : Pool → ℕ → Option ℕ → Bool
gone pool state none = false
gone pool state (some node) = not (pool.memory.id node == state)

-- There is a node, and it is in the state.
abbrev pub there : Pool → ℕ → Option ℕ → Bool
there pool state none = false
there pool state (some node) = pool.memory.id node == state

-- `while ((node = sxe_list_walker_step(&walker->list_walker)) != NULL)`, in at most so many rounds.
unfoldable pub rewalk : ℕ → Pool → ℕ → Walker → Option ℕ × Walker
rewalk zero pool last walker = (none, walker)
rewalk (suc rounds) pool last walker =
    let (node, walker') = sxe_list_walker_step pool.memory walker in
    let rest = rewalk rounds pool last walker' in
    elim node [
      | none ↦ (none, walker')
      | some x ↦ if leb last (pool.last (index_of pool x)) then (some x, walker') else rest
    ]

-- The node to return. The rounds of the loop are one more than the nodes of the list.
unfoldable pub next_node : Pool → PoolWalker → Option ℕ × Walker
next_node pool walker =
    let (before, returned) = sxe_list_walker_back walker.list_walker in
    let queue = pool.queue walker.state in
    let rewalked = rewalk (suc (queue.length)) pool walker.last (sxe_list_walker_construct queue) in
    if gone pool walker.state (sxe_list_walker_find walker.list_walker)
    then if there pool walker.state before
      then sxe_list_walker_step pool.memory returned
      else rewalked
    else sxe_list_walker_step pool.memory walker.list_walker

-- The index and the walker with the node that is found.
abbrev pub found : Pool → PoolWalker → Option ℕ × Walker → ℕ × PoolWalker
found pool walker (none, list_walker) =
    (sxe_pool_no_index, record walker { list_walker = list_walker })
found pool walker (some node, list_walker) = (
  index_of pool node,
  record walker { list_walker = list_walker; last = pool.last (index_of pool node) },
)

-- `taken` says whether the pool's spinlock can be taken, if it has one.
unfoldable pub sxe_pool_walker_step : Pool → Bool → PoolWalker → ℕ × PoolWalker
sxe_pool_walker_step pool taken walker =
    if sxe_pool_lock pool taken == sxe_pool_lock_not_taken
    then (sxe_pool_lock_not_taken, walker)
    else found pool walker (next_node pool walker)
