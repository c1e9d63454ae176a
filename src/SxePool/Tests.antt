-- ===== src/SxePool/Tests.antt =====
-- A run of a pool of three elements and three states, and the theorems at it.
use libkit.Common.{
  ◌-◌, ℕ, ◌+◌, ◌*◌, ◌≤◌, ◌<◌, true, false, List, [], ◌∷◌, ◌++◌, inl, length, ◌≡◌, ◌≢◌, ◌⊎◌, refl,
  arith,
}
use libkit.SxeList.Defs.{
  sxe_list_construct_impl, sxe_list_push, sxe_list_remove, sxe_list_peek_head,
}
use libkit.SxePool.Defs.{
  Pool, Outcome, aborted, done, queue_at, node_at, state_of, sxe_pool_construct, construct_queues,
  construct_queue, construct_nodes, push_node, remove_node, stamp, sxe_pool_lock,
  sxe_pool_lock_taken, sxe_pool_lock_not_taken, sxe_pool_no_index, sxe_pool_incorrect_state,
  sxe_pool_get_number_in_state, sxe_pool_size, sizeof_list, sizeof_node,
}
use libkit.SxePool.Moves.{
  move_element, sxe_pool_set_indexed_element_state, sxe_pool_set_indexed_element_state_unlocked,
  sxe_pool_try_to_set_indexed_element_state, sxe_pool_set_oldest_element_state,
  sxe_pool_touch_indexed_element, sxe_pool_get_oldest_element_index,
}
use libkit.SxePool.Valid.{Valid, moved, total}
use libkit.SxePool.New.{all_free, sxe_pool_construct-Valid, sxe_pool_construct-sxe_pool_size}
use libkit.SxePool.Results.{
  LockedOut, Moved, head, sxe_pool_set_indexed_element_state-Moved,
  sxe_pool_touch_indexed_element-Moved, sxe_pool_set_oldest_element_state-Moved,
  sxe_pool_get_oldest_element_index-head,
}
use libkit.SxePool.Stays.{after-Valid}
use libkit.SxePool.Walkers.{PoolWalker, sxe_pool_walker_construct, sxe_pool_walker_step}
use libkit.SxePool.Walked.{walked, walked-sxe_pool_walker_construct}
use libkit.SxePool.Rewalked.{first_since, sxe_pool_walker_step-first_since}
use libkit.SxePool.Try.{sxe_pool_try_to_set_indexed_element_state-Valid}

program : Unit {0}
unfolding sxe_list_construct_impl sxe_list_push sxe_list_remove sxe_list_peek_head
    sxe_pool_construct construct_queues construct_queue construct_nodes push_node remove_node stamp
    sxe_pool_lock move_element sxe_pool_set_indexed_element_state
    sxe_pool_set_indexed_element_state_unlocked sxe_pool_set_oldest_element_state
    sxe_pool_get_oldest_element_index sxe_pool_get_number_in_state
program = tt

abbrev blank : Pool
blank = record {
  locked = true;
  timed = true;
  number = 9;
  size = 9;
  states = 9;
  queues = 9;
  nodes = 9;
  queue = λ s. record { sentinel = 9; length = 9; offset = 9 };
  memory = record { next = λ a. 9; prev = λ a. 9; id = λ a. 9 };
  last = λ i. 9;
  next_count = 9;
}

abbrev pool : Pool
pool = sxe_pool_construct 128 5 blank 4096 3 16 3 false false

sxe_pool_construct-Valid_example : Valid pool (all_free 3)
sxe_pool_construct-Valid_example =
    sxe_pool_construct-Valid 128 5 blank 4096 3 16 3 false false (omega arith) (omega arith)

abbrev index_and_pool : Outcome (ℕ × Pool) → ℕ × Pool
index_and_pool aborted = (7, blank)
index_and_pool (done r) = r

-- The oldest free element is the last, and then the one before it.
sxe_pool_set_oldest_element_state-twice :
    let (first, pool') = index_and_pool (sxe_pool_set_oldest_element_state pool false 0 0 1) in
    let (second, pool'') = index_and_pool (sxe_pool_set_oldest_element_state pool' false 0 0 1) in
    (first ≡ 2) × (second ≡ 1) × (sxe_pool_get_oldest_element_index pool'' false 1 ≡ 2)
unfolding program
sxe_pool_set_oldest_element_state-twice = (refl, refl, refl)

three : pool.number ≡ 3
unfolding program
three = refl

three_states : pool.states ≡ 3
unfolding program
three_states = refl

sxe_pool_construct-sxe_pool_size_example :
    (4096 + 128 + 3 * 16 ≤ queue_at pool 2)
    × (queue_at pool 2 + sizeof_list ≤ node_at pool 1)
    × (node_at pool 1 + (3 - 1) * sizeof_node ≡ 4096 + sxe_pool_size 128 3 16 3)
sxe_pool_construct-sxe_pool_size_example =
    sxe_pool_construct-sxe_pool_size 128 5 blank 4096 3 16 3 false false (omega arith) (omega arith)
      2 1 (omega arith) (omega arith) (omega arith)

sxe_pool_set_indexed_element_state-Moved_example :
    let result = sxe_pool_set_indexed_element_state pool true 0 1 0 2 in
    LockedOut pool true result
    ⊎ ((state_of pool 1 ≢ 0) × (result ≡ aborted))
    ⊎ Moved pool (all_free 3) 1 0 2 sxe_pool_lock_taken result
sxe_pool_set_indexed_element_state-Moved_example =
    sxe_pool_set_indexed_element_state-Moved pool (all_free 3) sxe_pool_construct-Valid_example true
      0 1 0 2 (omega (arith, three)) (omega (arith, three_states))

touched :
    let result = sxe_pool_touch_indexed_element pool true 0 1 in
    LockedOut pool true result
    ⊎ Moved pool (all_free 3) 1 (state_of pool 1) (state_of pool 1) sxe_pool_lock_taken result
touched =
    sxe_pool_touch_indexed_element-Moved pool (all_free 3) sxe_pool_construct-Valid_example true 0 1
      (omega (arith, three))

sxe_pool_set_oldest_element_state-Moved_example :
    let result = sxe_pool_set_oldest_element_state pool true 0 0 1 in
    LockedOut pool true result
    ⊎ ((all_free 3 0 ≡ []) × (result ≡ done (sxe_pool_no_index, pool)))
    ⊎ ((i : ℕ) × ((rest : List ℕ) × ((all_free 3 0 ≡ i ∷ rest)
            × Moved pool (all_free 3) i 0 1 i result)))
sxe_pool_set_oldest_element_state-Moved_example =
    sxe_pool_set_oldest_element_state-Moved pool (all_free 3) sxe_pool_construct-Valid_example true
      0 0 1 (omega (arith, three_states)) (omega (arith, three_states))

unlocked : sxe_pool_lock pool true ≡ sxe_pool_lock_taken
unfolding program
unlocked = refl

oldest_head :
    (sxe_pool_get_oldest_element_index pool true 0 ≡ head (all_free 3 0))
    × (sxe_pool_get_number_in_state pool 0 ≡ length (all_free 3 0))
    × (total (all_free 3) pool.states ≡ pool.number)
oldest_head =
    sxe_pool_get_oldest_element_index-head pool (all_free 3) sxe_pool_construct-Valid_example true 0
      0 (omega (arith, three_states)) unlocked

sxe_pool_try_to_set_indexed_element_state-Valid_example :
    let result = sxe_pool_try_to_set_indexed_element_state pool true 0 1 0 2 in
    ((sxe_pool_lock pool true ≡ sxe_pool_lock_not_taken)
      × (result ≡ done (sxe_pool_lock_not_taken, 2, pool)))
    ⊎ ((state_of pool 1 ≡ 0)
        × ((pool' : Pool) × ((result ≡ done (1, 2, pool'))
              × Valid pool' (moved (all_free 3) 1 0 2))))
    ⊎ ((state_of pool 1 ≢ 0) × (result ≡ done (sxe_pool_incorrect_state, state_of pool 1, pool)))
sxe_pool_try_to_set_indexed_element_state-Valid_example =
    sxe_pool_try_to_set_indexed_element_state-Valid pool (all_free 3) true 0 1 0 2
      sxe_pool_construct-Valid_example (omega (arith, three)) (omega (arith, three_states))

walked-sxe_pool_walker_construct_example :
    (((pool.locked ≡ true) × (pool.timed ≡ true)) × (sxe_pool_walker_construct pool 0 ≡ aborted))
    ⊎ ((walker : PoolWalker) × ((sxe_pool_walker_construct pool 0 ≡ done walker)
          × (walked 9 pool true walker ≡ all_free 3 0)))
walked-sxe_pool_walker_construct_example =
    walked-sxe_pool_walker_construct pool true unlocked (all_free 3)
      sxe_pool_construct-Valid_example 0 (omega (arith, three_states)) 9 (omega arith)

-- The pool where the oldest element, 2, has been moved to state 1, and a walker of state 0 on it.
abbrev changed : Pool
changed = push_node 1 2 (stamp 0 2 (remove_node 0 2 pool))

abbrev walker : PoolWalker
walker = record {
  list_walker = record {
    list = changed.queue 0;
    back = queue_at changed 0;
    node = node_at changed 2;
  };
  state = 0;
  last = 1;
}

sxe_pool_walker_step-first_since_example :
    ((j : ℕ) × ((front : List ℕ) × ((rest : List ℕ) × ((queue_at changed 0 ≡ node_at changed j)
            × (moved (all_free 3) 2 0 1 0 ≡ front ++ j ∷ rest)
            × ((sxe_pool_walker_step changed true walker).0 ≡ head rest)))))
    ⊎ (((j : ℕ)
          → j < changed.number
          → queue_at changed 0 ≡ node_at changed j
          → state_of changed j ≢ 0)
        × ((sxe_pool_walker_step changed true walker).0
            ≡ first_since changed 1 (moved (all_free 3) 2 0 1 0)))
unfolding program
sxe_pool_walker_step-first_since_example =
    sxe_pool_walker_step-first_since changed (moved (all_free 3) 2 0 1)
      (after-Valid pool (all_free 3) sxe_pool_construct-Valid_example 0 2 0 1 (omega arith) refl
        (omega arith))
      true refl walker (omega arith) refl refl 2 refl (omega arith) (inl refl)
