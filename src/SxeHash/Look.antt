-- ===== src/SxeHash/Look.antt =====
-- Looking for a key in lib-sxe-hash/sxe-hash.c.
use libkit.Common.{
  ℕ, zero, suc, ◌+◌, ◌<◌, ◌≤◌, ◌==◌, Bool, true, false, List, [], ◌∷◌, ◌++◌, u32, ◌%◌, length,
  length-map, ◌≡◌, ◌≢◌, refl, sym, ◌∙◌, ap, All, arith, inl, inr, ◌⊎◌, Bool-cases, ==→eq,
}
use mathlib.Core.Path.{subst}
use libkit.Guid.Defs.{Sign, negative, null, positive, memcmp}
use libkit.Guid.Order.{memcmp_self, memcmp_null}
use libkit.SxeList.Holds.{All-map, All-middle}
use libkit.SxePool.Defs.{done, node_at, sxe_pool_lock, sxe_pool_lock_taken}
use libkit.SxePool.Queues.{View}
use libkit.SxePool.Valid.{On}
use libkit.SxePool.Walkers.{PoolWalker, sxe_pool_walker_construct}
use libkit.SxePool.Walked.{Ahead, Ahead-at, at, step_end, step_on, new_walker, Ahead-new_walker}
use libkit.SxeHash.Defs.{
  Hash, Bytes, bytes_at, bucket_of, is_null, look_loop, sxe_hash_look, sxe_hash_key_not_found,
}
use libkit.SxeHash.Valid.{HashValid, InBucket, key_of, look_key-key_of, bucket_of-range}

-- The element has the key.
abbrev pub HasKey : Hash → Bytes → ℕ → Type 0
HasKey hash key id = bytes_at (key_of hash id) hash.key_size ≡ bytes_at key hash.key_size

abbrev pub LacksKey : Hash → Bytes → ℕ → Type 0
LacksKey hash key id = bytes_at (key_of hash id) hash.key_size ≢ bytes_at key hash.key_size

length-bytes_at : (bytes : Bytes) (size : ℕ) → length (bytes_at bytes size) ≡ size
length-bytes_at bytes zero = refl
length-bytes_at bytes (suc size) = omega (arith, length-bytes_at (λ i. bytes (suc i)) size)

same_bytes :
    (k l : Bytes) (size : ℕ)
    → let test = is_null (memcmp (bytes_at k size) (bytes_at l size)) in
      ((test ≡ true) × (bytes_at k size ≡ bytes_at l size))
      ⊎ ((test ≡ false) × (bytes_at k size ≢ bytes_at l size))
same_bytes k l size = go (memcmp (bytes_at k size) (bytes_at l size)) refl
  where
    differ : (bytes_at k size ≡ bytes_at l size) → memcmp (bytes_at k size) (bytes_at l size) ≡ null
    differ e = ap (memcmp (bytes_at k size)) (sym e) ∙ memcmp_self (bytes_at k size)

    go :
        (sign : Sign)
        → memcmp (bytes_at k size) (bytes_at l size) ≡ sign
        → ((is_null sign ≡ true) × (bytes_at k size ≡ bytes_at l size))
          ⊎ ((is_null sign ≡ false) × (bytes_at k size ≢ bytes_at l size))
    go null e = inl (
      refl,
      memcmp_null (bytes_at k size) (bytes_at l size)
          (length-bytes_at k size ∙ sym (length-bytes_at l size)) e,
    )
    go negative e = inr (refl, λ same. absurd (cc (e, differ same)))
    go positive e = inr (refl, λ same. absurd (cc (e, differ same)))

module _ (hash : Hash) (view : View) (h : HashValid hash view) (key : Bytes) where
  -- The loop finds the first element of `rest` with the key, or there is none.
  abbrev Looked : List ℕ → ℕ → Type 0
  Looked rest result =
      ((id : ℕ) × ((front : List ℕ) × ((back : List ℕ) × ((result ≡ id)
              × (rest ≡ front ++ id ∷ back)
              × HasKey hash key id))))
      ⊎ ((result ≡ sxe_hash_key_not_found) × All (LacksKey hash key) rest)

  look_loop-Looked :
      (rest : List ℕ) (rounds : ℕ) (taken : ℕ → Bool) (w : PoolWalker)
      → ((n : ℕ) → sxe_pool_lock hash.pool (taken n) ≡ sxe_pool_lock_taken)
      → Ahead hash.pool w rest
      → length rest < rounds
      → Looked rest (look_loop rounds hash taken key w)
  unfolding look_loop
  look_loop-Looked rest zero taken w free p enough = absurd (omega arith)
  look_loop-Looked [] (suc rounds) taken w free p enough =
      inr (rw (step_end hash.pool (taken 0) (free 0) w p) refl, tt)
  look_loop-Looked (i ∷ rest) (suc rounds) taken w free p enough =
      let known : i < hash.count = omega (arith, p.known.0, h.numbers) in
      let index : (i == sxe_hash_key_not_found) ≡ false = ground (arith, p.known.0, p.few) in
      let step = step_on hash.pool (taken 0) (free 0) w i rest p in
      elim (same_bytes (key_of hash i) key hash.key_size) [
        | inl (test, same) ↦ inl (
          i,
          (
            [],
            (rest, (rw (step, index, look_key-key_of hash view h i known, test) refl, refl, same)),
          ),
        )
        | inr (test, differ) ↦
            let result : look_loop (suc rounds) hash taken key w
                ≡ look_loop rounds hash (λ n. taken (suc n)) key (at hash.pool w i) =
              rw (look_loop, step, index, look_key-key_of hash view h i known, test) refl in
            elim (look_loop-Looked rest rounds (λ n. taken (suc n)) (at hash.pool w i)
              (λ n. free (suc n)) (Ahead-at hash.pool (taken 0) (free 0) w i rest p)
              (omega arith)) [
                | inl (id, (front, (back, (e, split, same)))) ↦
                    inl (id, (i ∷ front, (back, (result ∙ e, ap (λ t. i ∷ t) split, same))))
                | inr (e, others) ↦ inr (result ∙ e, (differ, others))
              ]
      ]

  -- An element of another bucket has another key.
  other_bucket :
      (s : ℕ)
      → s ≢ bucket_of hash key
      → (xs : List ℕ) → All (InBucket hash s) xs
      → All (LacksKey hash key) xs
  unfolding bucket_of
  other_bucket s ne xs within =
      All-map (InBucket hash s) xs
        (λ i e same.
          ne (sym e ∙ ap (λ sum. u32 (sum % hash.count + 2)) (h.by_bytes (key_of hash i) key same)))
        within

  walker_made : (s : ℕ) → sxe_pool_walker_construct hash.pool s ≡ done (new_walker hash.pool s 0)
  unfolding sxe_pool_walker_construct
  walker_made s = elim (Bool-cases (hash.pool.locked)) [
    | inl locked ↦ rw (locked, h.untimed) refl
    | inr other ↦ rw other refl
  ]

  -- Looking for a key in a hash in order, whose lock is taken whenever it is asked for. Either an
  -- element of the key's bucket with that key is found; or the answer is that there is none, and no
  -- element of any bucket has the key.
  pub sxe_hash_look-HasKey :
      (taken : ℕ → Bool)
      → ((n : ℕ) → sxe_pool_lock hash.pool (taken n) ≡ sxe_pool_lock_taken)
      → ((id : ℕ) × ((sxe_hash_look hash taken key ≡ done id)
            × (id < hash.count)
            × On id (view (bucket_of hash key))
            × HasKey hash key id))
        ⊎ ((sxe_hash_look hash taken key ≡ done sxe_hash_key_not_found)
            × ((s : ℕ) → 2 ≤ s → s < hash.pool.states → All (LacksKey hash key) (view s)))
  unfolding sxe_hash_look
  sxe_hash_look-HasKey taken free =
      let bucket = bucket_of hash key in
      let (low, below) = bucket_of-range hash view h key in
      let q = h.pool_valid.queues bucket below in
      let rounds = suc ((hash.pool.queue bucket).length) in
      let ahead = Ahead-new_walker hash.pool (taken 0) (free 0) view h.pool_valid bucket below 0 in
      let w = new_walker hash.pool bucket 0 in
      let returned : sxe_hash_look hash taken key ≡ done (look_loop rounds hash taken key w) =
        rw (sxe_hash_look, walker_made bucket) refl in
      let looked =
        look_loop-Looked (view bucket) rounds taken w free ahead
          (omega (arith, q.holds.counted, length-map (node_at hash.pool) (view bucket))) in
      elim looked [
        | inl (id, (front, (back, (e, split, same)))) ↦
            let known =
              subst (All (λ i. i < hash.pool.number)) split (h.pool_valid.inside bucket below) in
            inl (
              id,
              (
                returned ∙ ap done e,
                omega
                    (arith, h.numbers, All-middle (λ i. i < hash.pool.number) front back id known),
                (front, (back, split)),
                same,
              ),
            )
        | inr (e, others) ↦ inr (returned ∙ ap done e, everywhere others)
      ]
    where
      everywhere :
          All (LacksKey hash key) (view (bucket_of hash key))
          → (s : ℕ) → 2 ≤ s
          → s < hash.pool.states
          → All (LacksKey hash key) (view s)
      everywhere others s low below = elim (Bool-cases (s == bucket_of hash key)) [
        | inl here ↦ subst (λ t. All (LacksKey hash key) (view t)) (sym (==→eq _ _ here)) others
        | inr there ↦
            let ne : s ≢ bucket_of hash key = λ e. absurd (ground (arith, there, e)) in
            other_bucket s ne (view s) (h.buckets s low below)
      ]
