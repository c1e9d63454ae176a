-- ===== src/SxePool/Try.antt =====
-- `sxe_pool_try_to_set_indexed_element_state` of lib-sxe-pool/sxe-pool.c.
use libkit.Common.{
  ℕ, ◌<◌, ◌==◌, Bool, ◌≡◌, ◌≢◌, refl, Bool-cases, inl, inr, ◌⊎◌, ==→eq, lt→ltb, arith,
}
use libkit.SxePool.Defs.{
  Pool, done, state_of, sxe_pool_lock, sxe_pool_lock_not_taken, sxe_pool_incorrect_state,
  sxe_pool_index_to_state,
}
use libkit.SxePool.Moves.{return_false, sxe_pool_try_to_set_indexed_element_state}
use libkit.SxePool.Queues.{View}
use libkit.SxePool.Valid.{Valid, moved}
use libkit.SxePool.Results.{lock_cases, unlocked_right, unlocked_wrong}

-- Trying to move an element of a pool in order between states never ends the program: without the lock
-- nothing is done; from its state the element goes to the end of the new one's queue, and its index is
-- returned; and in another state it stays, and the state it is in is reported.
pub sxe_pool_try_to_set_indexed_element_state-Valid :
    (pool : Pool) (view : View) (taken : Bool) (now i old new : ℕ)
    → Valid pool view
    → i < pool.number
    → new < pool.states
    → let result = sxe_pool_try_to_set_indexed_element_state pool taken now i old new in
      ((sxe_pool_lock pool taken ≡ sxe_pool_lock_not_taken)
        × (result ≡ done (sxe_pool_lock_not_taken, new, pool)))
      ⊎ ((state_of pool i ≡ old)
          × ((pool' : Pool) × ((result ≡ done (i, new, pool'))
                × Valid pool' (moved view i old new))))
      ⊎ ((state_of pool i ≢ old)
          × (result ≡ done (sxe_pool_incorrect_state, state_of pool i, pool)))
unfolding sxe_pool_try_to_set_indexed_element_state sxe_pool_index_to_state
sxe_pool_try_to_set_indexed_element_state-Valid pool view taken now i old new v known below =
    elim (lock_cases pool taken) [
      | inl out ↦ inl (==→eq _ _ out, rw out refl)
      | inr free ↦ elim (Bool-cases (state_of pool i == old)) [
        | inl here ↦
            let was = ==→eq _ _ here in
            let (pool', (e, w)) =
              unlocked_right pool view v taken now i old new return_false known below was in
            inr (inl (was, (pool', (rw (free, e) refl, w.1))))
        | inr there ↦
            let ne : state_of pool i ≢ old = λ e. absurd (ground (arith, there, e)) in
            let wrong = unlocked_wrong pool view v taken now i old new return_false ne in
            inr (inr (ne, rw (free, wrong, lt→ltb i pool.number known) refl))
      ]
    ]
