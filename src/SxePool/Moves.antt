-- ===== src/SxePool/Moves.antt =====
-- lib-sxe-pool/sxe-pool.c: moving elements between states, and asking for the oldest.
use libkit.Common.{ℕ, ◌==◌, not, Bool, true, false, if◌then◌else◌, none, some}
use libkit.SxeList.Defs.{sxe_list_peek_head}
use libkit.SxePool.Defs.{
  Pool, Outcome, aborted, done, index_of, state_of, stamp, push_node, remove_node, sxe_pool_lock,
  sxe_pool_lock_not_taken, sxe_pool_no_index, sxe_pool_incorrect_state, sxe_pool_index_to_state,
}

-- `sxe_pool_set_indexed_element_state_unlocked` apart from the assertion: whether the element was in
-- the old state, and the pool. `now` is what `kit_timestamp_get` gives.
unfoldable pub move_element : Pool → ℕ → ℕ → ℕ → ℕ → Bool × Pool
move_element pool now id old_state new_state =
    if not (state_of pool id == old_state)
    then (false, pool)
    else (true, push_node new_state id (stamp now id (remove_node old_state id pool)))

-- `on_incorrect_state`
pub data OnIncorrectState : Type 0 where
  return_false abort : OnIncorrectState

unfoldable pub sxe_pool_set_indexed_element_state_unlocked :
    Pool → ℕ → ℕ → ℕ → ℕ → OnIncorrectState → Outcome (Bool × Pool)
sxe_pool_set_indexed_element_state_unlocked pool now id old_state new_state on_incorrect_state =
    let (success, pool') = move_element pool now id old_state new_state in
    if success
    then done (true, pool')
    else elim on_incorrect_state [ abort ↦ aborted | return_false ↦ done (false, pool') ]

-- With the assertion that the call succeeds: the pool, with a result.
abbrev pub succeed : ℕ → Outcome (Bool × Pool) → Outcome (ℕ × Pool)
succeed result aborted = aborted
succeed result (done (true, pool)) = done (result, pool)
succeed result (done (false, pool)) = aborted

-- In each of these, `taken` says whether the pool's spinlock can be taken, if it has one.
unfoldable pub sxe_pool_set_indexed_element_state : Pool → Bool → ℕ → ℕ → ℕ → ℕ → Outcome (ℕ × Pool)
sxe_pool_set_indexed_element_state pool taken now id old_state new_state =
    if sxe_pool_lock pool taken == sxe_pool_lock_not_taken
    then done (sxe_pool_lock_not_taken, pool)
    else succeed (sxe_pool_lock pool taken)
        (sxe_pool_set_indexed_element_state_unlocked pool now id old_state new_state abort)

-- The result, `*new_state_inout`, and the pool.
unfoldable pub sxe_pool_try_to_set_indexed_element_state :
    Pool → Bool → ℕ → ℕ → ℕ → ℕ → Outcome (ℕ × ℕ × Pool)
sxe_pool_try_to_set_indexed_element_state pool taken now id old_state new_state =
    if sxe_pool_lock pool taken == sxe_pool_lock_not_taken
    then done (sxe_pool_lock_not_taken, new_state, pool)
    else elim (sxe_pool_set_indexed_element_state_unlocked pool now id old_state new_state
        return_false) [
          | aborted ↦ aborted
          | done (true, pool') ↦ done (id, new_state, pool')
          | done (false, pool') ↦ elim (sxe_pool_index_to_state pool' id) [
            | aborted ↦ aborted
            | done state ↦ done (sxe_pool_incorrect_state, state, pool')
          ]
        ]

unfoldable pub sxe_pool_set_oldest_element_state : Pool → Bool → ℕ → ℕ → ℕ → Outcome (ℕ × Pool)
sxe_pool_set_oldest_element_state pool taken now old_state new_state =
    if sxe_pool_lock pool taken == sxe_pool_lock_not_taken
    then done (sxe_pool_lock_not_taken, pool)
    else elim (sxe_list_peek_head pool.memory (pool.queue old_state)) [
      | none ↦ done (sxe_pool_no_index, pool)
      | some node ↦ succeed (index_of pool node) (
          sxe_pool_set_indexed_element_state_unlocked pool now (index_of pool node) old_state
            new_state abort)
    ]

unfoldable pub sxe_pool_touch_indexed_element : Pool → Bool → ℕ → ℕ → Outcome (ℕ × Pool)
sxe_pool_touch_indexed_element pool taken now id =
    if sxe_pool_lock pool taken == sxe_pool_lock_not_taken
    then done (sxe_pool_lock_not_taken, pool)
    else (let state = state_of pool id in
        succeed (sxe_pool_lock pool taken)
          (sxe_pool_set_indexed_element_state_unlocked pool now id state state abort))

unfoldable pub sxe_pool_get_oldest_element_index : Pool → Bool → ℕ → ℕ
sxe_pool_get_oldest_element_index pool taken state =
    if sxe_pool_lock pool taken == sxe_pool_lock_not_taken
    then sxe_pool_no_index
    else elim (sxe_list_peek_head pool.memory (pool.queue state)) [
      | none ↦ sxe_pool_no_index
      | some node ↦ index_of pool node
    ]

unfoldable pub sxe_pool_impl_get_oldest_element_time_or_count : Pool → Bool → ℕ → ℕ
sxe_pool_impl_get_oldest_element_time_or_count pool taken state =
    if sxe_pool_lock pool taken == sxe_pool_lock_not_taken
    then 0
    else elim (sxe_list_peek_head pool.memory (pool.queue state)) [
      | none ↦ 0
      | some node ↦ pool.last (index_of pool node)
    ]

unfoldable pub sxe_pool_get_oldest_element_time : Pool → Bool → ℕ → Outcome ℕ
sxe_pool_get_oldest_element_time pool taken state =
    if pool.timed
    then done (sxe_pool_impl_get_oldest_element_time_or_count pool taken state)
    else aborted

unfoldable pub sxe_pool_get_oldest_element_count : Pool → Bool → ℕ → Outcome ℕ
sxe_pool_get_oldest_element_count pool taken state =
    if not pool.timed
    then done (sxe_pool_impl_get_oldest_element_time_or_count pool taken state)
    else aborted

unfoldable pub sxe_pool_get_element_time_by_index : Pool → ℕ → Outcome ℕ
sxe_pool_get_element_time_by_index pool element =
    if pool.timed then done (pool.last element) else aborted
