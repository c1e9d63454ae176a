-- ===== src/SxePool/Results.antt =====
-- What the operations of lib-sxe-pool/sxe-pool.c that move elements return, and what they leave.
use libkit.Common.{
  ℕ, ◌-◌, ◌<◌, ◌==◌, Bool, true, false, List, [], ◌∷◌, length, length-map, map, ◌≡◌, ◌≢◌, refl, ◌∙◌,
  ap, All, arith, Bool-cases, inl, inr, ◌⊎◌, ==→eq, none, some,
}
use mathlib.Core.Path.{subst}
use libkit.SxeList.Defs.{sxe_list_peek_head}
use libkit.SxeList.Removal.{shifted, sxe_list_peek_head-shifted}
use libkit.SxePool.Defs.{
  Pool, Outcome, aborted, done, push_node, stamp, remove_node, node_at, index_of, state_of,
  sxe_pool_lock, sxe_pool_lock_taken, sxe_pool_lock_not_taken, sxe_pool_no_index,
  sxe_pool_get_number_in_state,
}
use libkit.SxePool.Moves.{
  move_element, return_false, abort, OnIncorrectState, sxe_pool_set_indexed_element_state_unlocked,
  sxe_pool_set_indexed_element_state, sxe_pool_set_oldest_element_state,
  sxe_pool_touch_indexed_element, sxe_pool_get_oldest_element_index,
}
use libkit.SxePool.Queues.{View, Queue, Queue-ids}
use libkit.SxePool.Valid.{Valid, moved, length-total, total}
use libkit.SxePool.Stays.{after-Valid}

-- The lock could not be taken: nothing is done.
abbrev pub LockedOut : Pool → Bool → Outcome (ℕ × Pool) → Type 0
LockedOut pool taken result =
    (sxe_pool_lock pool taken ≡ sxe_pool_lock_not_taken)
    × (result ≡ done (sxe_pool_lock_not_taken, pool))

-- The members that are set when the pool is made have stayed.
abbrev pub SameShape : Pool → Pool → Type 0
SameShape pool pool' =
    (pool'.number ≡ pool.number)
    × (pool'.states ≡ pool.states)
    × (pool'.locked ≡ pool.locked)
    × (pool'.timed ≡ pool.timed)

-- The call returned `n`, and left the pool in order with the element moved.
abbrev pub Moved : Pool → View → ℕ → ℕ → ℕ → ℕ → Outcome (ℕ × Pool) → Type 0
Moved pool view i old new n result =
    (pool' : Pool) × ((result ≡ done (n, pool'))
      × (SameShape pool pool' × Valid pool' (moved view i old new)))

abbrev pub head : List ℕ → ℕ
head [] = sxe_pool_no_index
head (i ∷ rest) = i

pub lock_cases :
    (pool : Pool) (taken : Bool)
    → ((sxe_pool_lock pool taken == sxe_pool_lock_not_taken) ≡ true)
      ⊎ (sxe_pool_lock pool taken ≡ sxe_pool_lock_taken)
unfolding sxe_pool_lock
lock_cases pool taken = ground arith

module _ (pool : Pool) (view : View) (v : Valid pool view) (taken : Bool) (now : ℕ) where
  pub unlocked_right :
      (i old new : ℕ) (on : OnIncorrectState)
      → i < pool.number
      → new < pool.states
      → state_of pool i ≡ old
      → (pool' : Pool) × ((sxe_pool_set_indexed_element_state_unlocked pool now i old new on
            ≡ done (true, pool'))
          × (SameShape pool pool' × Valid pool' (moved view i old new)))
  unfolding sxe_pool_set_indexed_element_state_unlocked move_element push_node stamp remove_node
  unlocked_right i old new on known below was =
      let test : (state_of pool i == old) ≡ true = ground (arith, was) in
      (
        (move_element pool now i old new).1,
        (
          rw test refl,
          rw test ((refl, refl, refl, refl), after-Valid pool view v now i old new known was below),
        ),
      )

  stays : (i old new : ℕ) → state_of pool i ≢ old → move_element pool now i old new ≡ (false, pool)
  unfolding move_element
  stays i old new ne =
      let test : (state_of pool i == old) ≡ false = ground (arith, ne) in rw test refl

  pub unlocked_wrong :
      (i old new : ℕ) (on : OnIncorrectState)
      → state_of pool i ≢ old
      → sxe_pool_set_indexed_element_state_unlocked pool now i old new on
        ≡ elim on [ abort ↦ aborted | return_false ↦ done (false, pool) ]
  unfolding sxe_pool_set_indexed_element_state_unlocked
  unlocked_wrong i old new abort ne = rw (stays i old new ne) refl
  unlocked_wrong i old new return_false ne = rw (stays i old new ne) refl

  -- Moving an element of a pool in order between states: without the lock nothing is done; an element
  -- that is in another state ends the program; and otherwise the pool is left in order, with the
  -- element at the end of the new state's queue, and with the numbers and options it had.
  pub sxe_pool_set_indexed_element_state-Moved :
      (i old new : ℕ)
      → i < pool.number
      → new < pool.states
      → let result = sxe_pool_set_indexed_element_state pool taken now i old new in
        LockedOut pool taken result
        ⊎ ((state_of pool i ≢ old) × (result ≡ aborted))
        ⊎ Moved pool view i old new sxe_pool_lock_taken result
  unfolding sxe_pool_set_indexed_element_state
  sxe_pool_set_indexed_element_state-Moved i old new known below = elim (lock_cases pool taken) [
    | inl out ↦ inl ((==→eq _ _ out, rw out refl))
    | inr free ↦ elim (Bool-cases (state_of pool i == old)) [
      | inl here ↦
          let (pool', (e, w)) = unlocked_right i old new abort known below (==→eq _ _ here) in
          inr (inr (pool', (rw (free, e) refl, w)))
      | inr there ↦
          let ne : state_of pool i ≢ old = λ e. absurd (ground (arith, there, e)) in
          inr (inl (ne, rw (free, unlocked_wrong i old new abort ne) refl))
    ]
  ]

  -- Touching an element of a pool in order never ends the program: without the lock nothing is done,
  -- and with it the element goes to the end of the queue that it is on, and the pool keeps its numbers
  -- and options.
  pub sxe_pool_touch_indexed_element-Moved :
      (i : ℕ)
      → i < pool.number
      → let result = sxe_pool_touch_indexed_element pool taken now i in
        LockedOut pool taken result
        ⊎ Moved pool view i (state_of pool i) (state_of pool i) sxe_pool_lock_taken result
  unfolding sxe_pool_touch_indexed_element
  sxe_pool_touch_indexed_element-Moved i known = elim (lock_cases pool taken) [
    | inl out ↦ inl (==→eq _ _ out, rw out refl)
    | inr free ↦
        let s = state_of pool i in
        let (pool', (e, w)) = unlocked_right i s s abort known (v.states i known) refl in
        inr (pool', (rw (free, e) refl, w))
  ]

  index_of-node_at : (i : ℕ) → index_of pool (node_at pool i - 0) ≡ i
  index_of-node_at i = omega arith

  -- The head of a queue is the node of its first element.
  peeked :
      (s : ℕ)
      → s < pool.states
      → sxe_list_peek_head pool.memory (pool.queue s) ≡ (shifted 0 (map (node_at pool) (view s))).0
  peeked s below =
      let q = v.queues s below in
      sxe_list_peek_head-shifted pool.memory (pool.queue s)
        (omega (
          arith,
          q.holds.counted,
          length-map (node_at pool) (view s),
          length-total view s pool.states below,
          v.all_elements,
          v.few,
        ))
        (map (node_at pool) (view s)) q.holds
      ∙ ap (λ offset. (shifted offset (map (node_at pool) (view s))).0) q.offset

  -- Moving the oldest element of a pool in order never ends the program: without the lock nothing is
  -- done; from an empty state nothing is done either, and there is no index; and otherwise the first
  -- element of the state's queue is returned, and is now at the end of the new state's, and the pool
  -- keeps its numbers and options.
  pub sxe_pool_set_oldest_element_state-Moved :
      (old new : ℕ)
      → old < pool.states
      → new < pool.states
      → let result = sxe_pool_set_oldest_element_state pool taken now old new in
        LockedOut pool taken result
        ⊎ ((view old ≡ []) × (result ≡ done (sxe_pool_no_index, pool)))
        ⊎ ((i : ℕ) × ((rest : List ℕ) × ((view old ≡ i ∷ rest)
                × Moved pool view i old new i result)))
  unfolding sxe_pool_set_oldest_element_state
  sxe_pool_set_oldest_element_state-Moved old new there below = elim (lock_cases pool taken) [
    | inl out ↦ inl (==→eq _ _ out, rw out refl)
    | inr free ↦ inr (from_queue free (view old) refl)
  ]
    where
      from_queue :
          sxe_pool_lock pool taken ≡ sxe_pool_lock_taken
          → (xs : List ℕ) → view old ≡ xs
          → ((view old ≡ [])
              × (sxe_pool_set_oldest_element_state pool taken now old new
                  ≡ done (sxe_pool_no_index, pool)))
            ⊎ ((i : ℕ) × ((rest : List ℕ) × ((view old ≡ i ∷ rest)
                    × Moved pool view i old new i
                        (sxe_pool_set_oldest_element_state pool taken now old new))))
      from_queue free [] e =
          inl (
            e,
            rw (free, peeked old there ∙ ap (λ xs. (shifted 0 (map (node_at pool) xs)).0) e) refl,
          )
      from_queue free (i ∷ rest) e =
          let was = (Queue-ids pool (subst (Queue pool old) e (v.queues old there))).0 in
          let known = (subst (All (λ j. j < pool.number)) e (v.inside old there)).0 in
          let (pool', (f, w)) = unlocked_right i old new abort known below was in
          let index : index_of pool (node_at pool i - 0) ≡ i = index_of-node_at i in
          inr (
            i,
            (
              rest,
              (
                e,
                (
                  pool',
                  (
                    rw
                        (
                          free,
                          peeked old there ∙ ap (λ xs. (shifted 0 (map (node_at pool) xs)).0) e,
                          index,
                          f,
                        )
                        refl,
                    w,
                  ),
                ),
              ),
            ),
          )

  -- The oldest element of a state of a pool in order, where the lock can be taken: the first of the
  -- state's queue, or no index for an empty state. The number of elements in the state is the length
  -- of the queue, and the numbers of all states add up to the number of elements.
  pub sxe_pool_get_oldest_element_index-head :
      (s : ℕ)
      → s < pool.states
      → sxe_pool_lock pool taken ≡ sxe_pool_lock_taken
      → (sxe_pool_get_oldest_element_index pool taken s ≡ head (view s))
        × (sxe_pool_get_number_in_state pool s ≡ length (view s))
        × (total view pool.states ≡ pool.number)
  unfolding sxe_pool_get_oldest_element_index sxe_pool_get_number_in_state
  sxe_pool_get_oldest_element_index-head s below free = (
    rw (free, peeked s below) (first (view s)),
    omega (arith, (v.queues s below).holds.counted, length-map (node_at pool) (view s)),
    v.all_elements,
  )
    where
      first :
          (xs : List ℕ)
          → elim ((shifted 0 (map (node_at pool) xs)).0) [
            | none ↦ sxe_pool_no_index
            | some node ↦ index_of pool node
          ]
            ≡ head xs
      first [] = refl
      first (x ∷ xs) = index_of-node_at x
