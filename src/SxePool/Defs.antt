-- ===== src/SxePool/Defs.antt =====
-- lib-sxe-pool/sxe-pool.c: elements in states, each state a list of its elements, oldest first.
use libkit.Common.{ℕ, zero, suc, ◌+◌, ◌-◌, ◌*◌, ◌/◌, ◌^◌, ◌%◌, ◌==◌, ltb, not, Bool, if◌then◌else◌}
use libkit.SxeList.Defs.{
  Memory, SxeList, update, sxe_list_construct_impl, sxe_list_push, sxe_list_remove,
}

abbrev pub sxe_pool_lock_taken : ℕ
sxe_pool_lock_taken = 0

abbrev pub sxe_pool_no_index : ℕ
sxe_pool_no_index = 2 ^ 32 - 1

abbrev pub sxe_pool_incorrect_state : ℕ
sxe_pool_incorrect_state = 2 ^ 32 - 2

abbrev pub sxe_pool_lock_not_taken : ℕ
sxe_pool_lock_not_taken = 2 ^ 32 - 3

-- The sizes of the structures where pointers and `size_t` have 64 bits.
abbrev pub sizeof_list : ℕ
sizeof_list = 40

abbrev pub sizeof_node : ℕ
sizeof_node = 32

-- `locked` and `timed` are the bits of `options`; `queues` and `nodes` are the addresses of the arrays
-- `queue` and `nodes`. The list nodes at the start of each queue head and of each pool node are in
-- `memory`, the rest of the queue heads in `queue`, and of the nodes, time or count, in `last`.
pub record Pool : Type 0 where
  pub locked : Bool
  pub timed : Bool
  pub number : ℕ
  pub size : ℕ
  pub states : ℕ
  pub queues : ℕ
  pub nodes : ℕ
  pub queue : ℕ → SxeList
  pub memory : Memory
  pub last : ℕ → ℕ
  pub next_count : ℕ

-- `&SXE_POOL_QUEUE(pool)[state]` and `&SXE_POOL_NODES(pool)[id]`
abbrev pub queue_at : Pool → ℕ → ℕ
queue_at pool state = pool.queues + state * sizeof_list

abbrev pub node_at : Pool → ℕ → ℕ
node_at pool id = pool.nodes + id * sizeof_node

-- `node - SXE_POOL_NODES(pool)`
abbrev pub index_of : Pool → ℕ → ℕ
index_of pool node = (node - pool.nodes) / sizeof_node

-- `SXE_LIST_NODE_GET_ID(&SXE_POOL_NODES(pool)[id].list_node)`
abbrev pub state_of : Pool → ℕ → ℕ
state_of pool id = pool.memory.id (node_at pool id)

abbrev pub set_queue : (ℕ → SxeList) → ℕ → SxeList → ℕ → SxeList
set_queue queue state list s = if s == state then list else queue s

-- A run that a failed assertion ends, or its result.
pub data Outcome {ℓ} (A : Type ℓ) : Type ℓ where
  aborted : Outcome A
  done : A → Outcome A

unfoldable pub sxe_pool_get_number_in_state : Pool → ℕ → ℕ
sxe_pool_get_number_in_state pool state = (pool.queue state).length

unfoldable pub sxe_pool_index_to_state : Pool → ℕ → Outcome ℕ
sxe_pool_index_to_state pool id = if ltb id pool.number then done (state_of pool id) else aborted

-- `sizeof_impl` is the size of `SXE_POOL_IMPL`.
unfoldable pub sxe_pool_size : ℕ → ℕ → ℕ → ℕ → ℕ
sxe_pool_size sizeof_impl number size states =
    (1 * sizeof_impl + number * size + states * sizeof_list + number * sizeof_node) % 2 ^ 64

-- `sxe_pool_lock`; `taken` says whether the spinlock is taken, where there is one.
unfoldable pub sxe_pool_lock : Pool → Bool → ℕ
sxe_pool_lock pool taken =
    if not pool.locked
    then sxe_pool_lock_taken
    else if taken
    then sxe_pool_lock_taken
    else sxe_pool_lock_not_taken

-- `SXE_LIST_CONSTRUCT` of one queue: the list node is at the start of a pool node.
unfoldable pub construct_queue : ℕ → Pool → Pool
construct_queue i pool =
    let (memory, list) = sxe_list_construct_impl pool.memory (queue_at pool i) i 0 in
    record pool { memory = memory; queue = set_queue pool.queue i list }

-- `for (i = states; i-- > 0; )`
unfoldable pub construct_queues : ℕ → Pool → Pool
construct_queues zero pool = pool
construct_queues (suc i) pool = construct_queues i (construct_queue i pool)

-- The time, or the next count, of an element that changes its state.
unfoldable pub stamp : ℕ → ℕ → Pool → Pool
stamp now id pool =
    let count = (pool.next_count + 1) % 2 ^ 64 in
    record pool {
      next_count = if pool.timed then pool.next_count else count;
      last = update pool.last id (if pool.timed then now else count);
    }

unfoldable pub push_node : ℕ → ℕ → Pool → Pool
push_node state id pool =
    let (memory, list) = sxe_list_push pool.memory (pool.queue state) (node_at pool id) in
    record pool { memory = memory; queue = set_queue pool.queue state list }

unfoldable pub remove_node : ℕ → ℕ → Pool → Pool
remove_node state id pool =
    let (memory, list) = sxe_list_remove pool.memory (pool.queue state) (node_at pool id) in
    record pool { memory = memory; queue = set_queue pool.queue state list }

-- `for (i = number; i-- > 0; )`
unfoldable pub construct_nodes : ℕ → ℕ → Pool → Pool
construct_nodes now zero pool = pool
construct_nodes now (suc i) pool = construct_nodes now i (push_node 0 i (stamp now i pool))

-- From what stands in memory, and the time; `base` is the address of the pool.
unfoldable pub sxe_pool_construct : ℕ → ℕ → Pool → ℕ → ℕ → ℕ → ℕ → Bool → Bool → Pool
sxe_pool_construct sizeof_impl now old base number size states locked timed =
    let queues = base + (sizeof_impl + number * size) in
    let nodes = base + (sizeof_impl + number * size + states * sizeof_list) in
    let pool : Pool = record old {
      queues = queues;
      nodes = nodes;
      number = number;
      size = size;
      states = states;
      locked = locked;
      timed = timed;
      next_count = if timed then old.next_count else 0;
    } in
    construct_nodes now number (construct_queues states pool)
