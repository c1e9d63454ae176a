-- ===== src/SxeHash/Added.antt =====
-- A key of lib-sxe-hash/sxe-hash.c is found after its element has been added.
use libkit.Common.{
  ℕ, ◌<◌, Bool, false, List, [], ◌∷◌, ◌++◌, ◌≡◌, refl, sym, ◌∙◌, All, arith, inl, inr, ==_self,
}
use mathlib.Core.Path.{subst}
use libkit.SxeList.Holds.{All-middle}
use libkit.SxePool.Defs.{Pool, done, state_of, sxe_pool_lock, sxe_pool_lock_taken}
use libkit.SxePool.Queues.{View}
use libkit.SxePool.Valid.{left, moved}
use libkit.SxeHash.Defs.{Hash, bucket_of, sxe_hash_add, sxe_hash_look}
use libkit.SxeHash.Valid.{HashValid, key_of, bucket_of-range}
use libkit.SxeHash.Look.{HasKey, LacksKey, sxe_hash_look-HasKey}
use libkit.SxeHash.Changes.{put_pool, sxe_hash_add-HashValid}

no_lock :
    (pool : Pool) (taken : Bool)
    → pool.locked ≡ false
    → sxe_pool_lock pool taken ≡ sxe_pool_lock_taken
unfolding sxe_pool_lock
no_lock pool taken e = rw e refl

module _ (hash : Hash) (view : View) (h : HashValid hash view) (id : ℕ) (known : id < hash.count)
    (unlocked : hash.pool.locked ≡ false) (new : state_of hash.pool id ≡ 1) where
  joined : (bucket : ℕ) → moved view id 1 bucket bucket ≡ left view id 1 bucket ++ id ∷ []
  joined bucket = rw (==_self bucket) refl

  -- The queue of the bucket that the element has joined ends with it.
  lacks_own : (xs : List ℕ) → All (LacksKey hash (key_of hash id)) (xs ++ id ∷ []) → ⊥
  lacks_own xs all = All-middle (LacksKey hash (key_of hash id)) xs [] id all refl

  -- A new element of a hash that is in order and not locked can be added; and then looking for its key
  -- finds an element, and one that has this key.
  pub sxe_hash_look-sxe_hash_add :
      (taken : Bool) (takens : ℕ → Bool)
      → (pool' : Pool) × ((sxe_hash_add hash taken id ≡ done (put_pool hash pool'))
          × ((j : ℕ) × ((sxe_hash_look (put_pool hash pool') takens (key_of hash id) ≡ done j)
                × (j < hash.count)
                × HasKey hash (key_of hash id) j)))
  unfolding bucket_of
  sxe_hash_look-sxe_hash_add taken takens =
      elim (sxe_hash_add-HashValid hash view h taken id known) [
        | inl (out, e) ↦ absurd (omega (arith, sym out ∙ no_lock hash.pool taken unlocked))
        | inr (inl (wrong, e)) ↦ absurd (wrong new)
        | inr (inr (pool', (e, (w, locked)))) ↦ (pool', (e, found pool' w (locked ∙ unlocked)))
      ]
    where
      found :
          (pool' : Pool)
          → HashValid (put_pool hash pool') (moved view id 1 (bucket_of hash (key_of hash id)))
          → pool'.locked ≡ false
          → (j : ℕ) × ((sxe_hash_look (put_pool hash pool') takens (key_of hash id) ≡ done j)
              × (j < hash.count)
              × HasKey hash (key_of hash id) j)
      found pool' w free =
          let bucket = bucket_of hash (key_of hash id) in
          let (low, below) = bucket_of-range (put_pool hash pool') _ w (key_of hash id) in
          elim (sxe_hash_look-HasKey (put_pool hash pool') _ w (key_of hash id) takens
            (λ n. no_lock pool' (takens n) free)) [
              | inl (j, (e, small, placed, same)) ↦ (j, (e, small, same))
              | inr (e, others) ↦ absurd (
                  lacks_own (left view id 1 bucket) (
                    subst (All (LacksKey hash (key_of hash id))) (joined bucket)
                      (others bucket low below)))
            ]
