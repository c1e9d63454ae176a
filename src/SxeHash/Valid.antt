-- ===== src/SxeHash/Valid.antt =====
-- A hash of lib-sxe-hash that is in order, and the keys of its elements.
use libkit.Common.{ℕ, zero, suc, ◌+◌, ◌*◌, ◌^◌, ◌<◌, ◌≤◌, false, ◌≡◌, ap, All, arith, u32}
use native.Mathlib.Nat.{mod-lt}
use libkit.SxePool.Queues.{View}
use libkit.SxePool.Valid.{Valid}
use libkit.SxeHash.Defs.{Hash, Bytes, bytes_at, bucket_of, look_key, add_key}

-- The key of an element, where no offset exceeds 32 bits.
abbrev pub key_of : Hash → ℕ → Bytes
key_of hash id i = hash.array (id * hash.size + hash.key_offset + i)

-- The elements of a bucket have keys of that bucket.
abbrev pub InBucket : Hash → ℕ → ℕ → Type 0
InBucket hash s id = bucket_of hash (key_of hash id) ≡ s

-- The pool of the hash is in order, its states are the buckets and the two reserved ones, and each
-- element of a bucket has a key that belongs there.
pub record HashValid (hash : Hash) (view : View) : Type 0 where
  pub pool_valid : Valid hash.pool view
  pub numbers : hash.pool.number ≡ hash.count
  pub states : hash.pool.states ≡ hash.count + 2
  pub untimed : hash.pool.timed ≡ false
  pub some_elements : 0 < hash.count
  pub few : hash.count + 2 < 2 ^ 32
  pub small : hash.count * hash.size < 2 ^ 32
  pub inside : hash.key_offset ≤ hash.size
  pub by_bytes :
      (k l : Bytes)
      → bytes_at k hash.key_size ≡ bytes_at l hash.key_size
      → hash.hash_key k hash.key_size ≡ hash.hash_key l hash.key_size
  pub buckets : (s : ℕ) → 2 ≤ s → s < hash.pool.states → All (InBucket hash s) (view s)

product_le : (i n size : ℕ) → i < n → i * size + size ≤ n * size
product_le i zero size h = absurd (omega arith)
product_le zero (suc n) size h = omega arith
product_le (suc i) (suc n) size h = omega (arith, product_le i n size (omega arith))

module _ (hash : Hash) (view : View) (h : HashValid hash view) where
  offset_small : (id : ℕ) → id < hash.count → id * hash.size + hash.key_offset < 2 ^ 32
  offset_small id known = omega (arith, product_le id hash.count hash.size known, h.small, h.inside)

  pub look_key-key_of : (id : ℕ) → id < hash.count → look_key hash id ≡ key_of hash id
  look_key-key_of id known =
      let e : u32 (id * hash.size) ≡ id * hash.size = omega (arith, offset_small id known) in
      ap {B = Bytes} (λ o i. hash.array (o + hash.key_offset + i)) e

  pub add_key-key_of : (id : ℕ) → id < hash.count → add_key hash id ≡ key_of hash id
  add_key-key_of id known =
      let e : u32 (id * hash.size + hash.key_offset) ≡ id * hash.size + hash.key_offset =
        omega (arith, offset_small id known) in
      ap {B = Bytes} (λ o i. hash.array (o + i)) e

  -- A bucket is a state of the pool, after the reserved ones.
  pub bucket_of-range :
      (key : Bytes) → (2 ≤ bucket_of hash key) × (bucket_of hash key < hash.pool.states)
  unfolding bucket_of
  bucket_of-range key =
      let below = mod-lt (hash.hash_key key hash.key_size) h.some_elements in
      (omega (arith, below, h.few), omega (arith, below, h.few, h.states))
