-- ===== src/SxeHash/Changes.antt =====
-- What the operations of lib-sxe-hash/sxe-hash.c that change a hash return, and what they leave.
use libkit.Common.{
  ℕ, ◌<◌, ◌≤◌, ◌==◌, Bool, false, List, [], ◌∷◌, ◌≡◌, ◌≢◌, refl, sym, ◌∙◌, ap, All, All-append,
  arith, inl, inr, ◌⊎◌, Bool-cases, ==→eq, lt→ltb,
}
use mathlib.Core.Path.{subst}
use libkit.SxePool.Defs.{
  Pool, aborted, done, state_of, sxe_pool_lock, sxe_pool_lock_not_taken, sxe_pool_no_index,
  sxe_pool_index_to_state,
}
use libkit.SxePool.Queues.{View}
use libkit.SxePool.Valid.{Valid, left, moved}
use libkit.SxePool.Change.{All-without}
use libkit.SxePool.Moves.{sxe_pool_set_indexed_element_state}
use libkit.SxePool.Results.{
  SameShape, sxe_pool_set_indexed_element_state-Moved, sxe_pool_set_oldest_element_state-Moved,
}
use libkit.SxeHash.Defs.{
  Hash, bucket_of, with_pool, sxe_hash_take, sxe_hash_add, sxe_hash_give, sxe_hash_full,
}
use libkit.SxeHash.Valid.{HashValid, InBucket, key_of, add_key-key_of, bucket_of-range}

abbrev pub put_pool : Hash → Pool → Hash
put_pool hash pool' = record hash { pool = pool' }

-- The lock of the hash could not be taken.
abbrev pub NoLock : Hash → Bool → Type 0
NoLock hash taken = sxe_pool_lock hash.pool taken ≡ sxe_pool_lock_not_taken

-- The hash with the new pool is in order, with the element moved, and is as locked as before.
abbrev pub Changed : Hash → View → ℕ → ℕ → ℕ → Pool → Type 0
Changed hash view i old new pool' =
    HashValid (put_pool hash pool') (moved view i old new) × (pool'.locked ≡ hash.pool.locked)

module _ (hash : Hash) (view : View) (h : HashValid hash view) where
  -- The buckets stay right when an element moves to its own bucket or a reserved one.
  buckets_moved :
      (i old new : ℕ)
      → (2 ≤ new → InBucket hash new i)
      → (s : ℕ) → 2 ≤ s
      → s < hash.pool.states
      → All (InBucket hash s) (moved view i old new s)
  buckets_moved i old new own s low below = elim (Bool-cases (s == new)) [
    | inl here ↦
        let e = ==→eq s new here in
        rw here (
          All-append (InBucket hash s) (left view i old new) (i ∷ [])
            (subst (λ t. All (InBucket hash s) (left view i old t)) e stayed)
            (subst (λ t. InBucket hash t i) (sym e) (own (omega (arith, e, low))), tt))
    | inr there ↦ rw there stayed
  ]
    where
      stayed : All (InBucket hash s) (left view i old s)
      stayed = elim (Bool-cases (s == old)) [
        | inl here ↦
            let here_too =
              subst (λ t. All (InBucket hash s) (view t)) (==→eq s old here)
                (h.buckets s low below) in
            rw here (All-without (InBucket hash s) i (view old) here_too)
        | inr there ↦ rw there (h.buckets s low below)
      ]

  pub moved-HashValid :
      (pool' : Pool) (i old new : ℕ)
      → SameShape hash.pool pool'
      → Valid pool' (moved view i old new)
      → (2 ≤ new → InBucket hash new i)
      → HashValid (put_pool hash pool') (moved view i old new)
  unfolding bucket_of
  moved-HashValid pool' i old new (number, states, locked, timed) v own = record {
    pool_valid = v;
    numbers = number ∙ h.numbers;
    states = states ∙ h.states;
    untimed = timed ∙ h.untimed;
    some_elements = h.some_elements;
    few = h.few;
    small = h.small;
    inside = h.inside;
    by_bytes = h.by_bytes;
    buckets = λ s low below. buckets_moved i old new own s low (omega (arith, below, states));
  }

  -- Taking an element of a hash in order never ends the program. Without the lock nothing is done and
  -- the result says so; where no element is unused the hash is full; and otherwise the oldest unused
  -- element is returned, is now new, and the hash is in order again.
  pub sxe_hash_take-HashValid :
      (taken : Bool)
      → let result = sxe_hash_take hash taken in
        (NoLock hash taken × (result ≡ done (sxe_pool_lock_not_taken, hash)))
        ⊎ ((view 0 ≡ []) × (result ≡ done (sxe_hash_full, hash)))
        ⊎ ((i : ℕ) × ((rest : List ℕ) × ((pool' : Pool) × ((view 0 ≡ i ∷ rest)
                  × (result ≡ done (i, put_pool hash pool'))
                  × Changed hash view i 0 1 pool'))))
  unfolding sxe_hash_take
  sxe_hash_take-HashValid taken =
      elim (sxe_pool_set_oldest_element_state-Moved hash.pool view h.pool_valid taken 0 0 1
        (omega (arith, h.states)) (omega (arith, h.states, h.some_elements))) [
          | inl (out, e) ↦ inl (out, rw (sxe_hash_take, e) refl)
          | inr (inl (none_left, e)) ↦ inr (inl (none_left, rw (sxe_hash_take, e) refl))
          | inr (inr (i, (rest, (e, (pool', (f, (shape, v))))))) ↦
              let known : i < hash.pool.number =
                (subst (All (λ j. j < hash.pool.number)) e
                  (h.pool_valid.inside 0 (omega (arith, h.states)))).0 in
              let index : (i == sxe_pool_no_index) ≡ false =
                ground (arith, known, h.pool_valid.few) in
              let w = moved-HashValid pool' i 0 1 shape v (λ two. absurd (omega (arith, two))) in
              inr (inr (i, (rest, (pool', (e, rw (sxe_hash_take, f, index) refl, (w, shape.2))))))
        ]

  -- Adding an element to a hash in order: without the lock nothing is done; an element that has not
  -- been taken, or has been added before, ends the program; and otherwise the element is moved to the
  -- bucket of its key, and the hash is in order again.
  pub sxe_hash_add-HashValid :
      (taken : Bool) (id : ℕ)
      → id < hash.count
      → let result = sxe_hash_add hash taken id in
        (NoLock hash taken × (result ≡ done hash))
        ⊎ ((state_of hash.pool id ≢ 1) × (result ≡ aborted))
        ⊎ ((pool' : Pool) × ((result ≡ done (put_pool hash pool'))
              × Changed hash view id 1 (bucket_of hash (key_of hash id)) pool'))
  unfolding sxe_hash_add
  sxe_hash_add-HashValid taken id known =
      let bucket = bucket_of hash (key_of hash id) in
      let same = ap (bucket_of hash) (add_key-key_of hash view h id known) in
      let (low, below) = bucket_of-range hash view h (key_of hash id) in
      rw same
        (elim (sxe_pool_set_indexed_element_state-Moved hash.pool view h.pool_valid taken 0 id 1
          bucket (omega (arith, h.numbers, known)) below) [
            | inl (out, e) ↦ inl (out, rw e refl)
            | inr (inl (wrong, e)) ↦ inr (inl (wrong, rw e refl))
            | inr (inr (pool', (e, (shape, v)))) ↦
                let w = moved-HashValid pool' id 1 bucket shape v (λ two. refl) in
                inr (inr (pool', (rw e refl, (w, shape.2))))
          ])

  -- Giving an element of a hash in order back never ends the program: without the lock nothing is
  -- done; and otherwise the element leaves the state that it is in for the end of the unused ones,
  -- and the hash is in order again.
  pub sxe_hash_give-HashValid :
      (taken : Bool) (id : ℕ)
      → id < hash.count
      → let result = sxe_hash_give hash taken id in
        (NoLock hash taken × (result ≡ done hash))
        ⊎ ((pool' : Pool) × ((result ≡ done (put_pool hash pool'))
              × Changed hash view id (state_of hash.pool id) 0 pool'))
  unfolding sxe_hash_give sxe_pool_index_to_state
  sxe_hash_give-HashValid taken id known =
      let old = state_of hash.pool id in
      let inside : id < hash.pool.number = omega (arith, h.numbers, known) in
      let move = sxe_pool_set_indexed_element_state hash.pool taken 0 id old 0 in
      let opened : sxe_hash_give hash taken id ≡ with_pool hash move =
        rw (sxe_hash_give, lt→ltb id hash.pool.number inside) refl in
      elim (sxe_pool_set_indexed_element_state-Moved hash.pool view h.pool_valid taken 0 id old 0
        inside (omega (arith, h.states))) [
          | inl (out, e) ↦ inl (out, opened ∙ ap (with_pool hash) e)
          | inr (inl (wrong, e)) ↦ absurd (wrong refl)
          | inr (inr (pool', (e, (shape, v)))) ↦
              let w = moved-HashValid pool' id old 0 shape v (λ two. absurd (omega (arith, two))) in
              inr (pool', (opened ∙ ap (with_pool hash) e, (w, shape.2)))
        ]
