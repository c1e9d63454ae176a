-- ===== src/SxeHash/Defs.antt =====
-- lib-sxe-hash/sxe-hash.c: the elements of a pool, in the states of their keys' buckets.
use libkit.Common.{
  ℕ, zero, suc, ◌+◌, ◌-◌, ◌*◌, ◌^◌, ◌%◌, ◌==◌, Bool, true, false, if◌then◌else◌, Option, none, some,
  List, [], ◌∷◌, u32,
}
use libkit.Guid.Defs.{Sign, negative, null, positive, memcmp}
use libkit.SxePool.Defs.{
  Pool, Outcome, aborted, done, sxe_pool_construct, sxe_pool_size, sxe_pool_no_index,
  sxe_pool_index_to_state,
}
use libkit.SxePool.Moves.{sxe_pool_set_indexed_element_state, sxe_pool_set_oldest_element_state}
use libkit.SxePool.Walkers.{PoolWalker, sxe_pool_walker_construct, sxe_pool_walker_step}

abbrev pub sxe_hash_key_not_found : ℕ
sxe_hash_key_not_found = 2 ^ 32 - 1

abbrev pub sxe_hash_full : ℕ
sxe_hash_full = 2 ^ 32 - 1

abbrev pub sxe_hash_unused_bucket : ℕ
sxe_hash_unused_bucket = 0

abbrev pub sxe_hash_new_bucket : ℕ
sxe_hash_new_bucket = 1

abbrev pub sxe_hash_buckets_reserved : ℕ
sxe_hash_buckets_reserved = 2

abbrev pub sizeof_hash : ℕ
sizeof_hash = 40

-- The bytes from a pointer on.
abbrev pub Bytes : Type 0
Bytes = ℕ → ℕ

-- The first `size` of them.
abbrev pub bytes_at : Bytes → ℕ → List ℕ
bytes_at bytes zero = []
bytes_at bytes (suc size) = bytes 0 ∷ bytes_at (λ i. bytes (suc i)) size

-- A hash, with its pool; `array` is the memory of the elements, from the first on, which the callers
-- fill in.
pub record Hash : Type 0 where
  pub pool : Pool
  pub count : ℕ
  pub size : ℕ
  pub key_offset : ℕ
  pub key_size : ℕ
  pub locked : Bool
  pub computed_hash : Bool
  pub hash_key : Bytes → ℕ → ℕ
  pub array : Bytes

-- `*(const unsigned *)key`, on a machine that has the low byte first.
unfoldable pub sxe_prehashed_key_hash : Bytes → ℕ → ℕ
sxe_prehashed_key_hash key size = key 0 + 2 ^ 8 * key 1 + 2 ^ 16 * key 2 + 2 ^ 24 * key 3

-- `kit_malloc` gives the address of so many bytes, or none; `old` is what stands there, and `sum` is
-- `sxe_hash_sum`. The pool is not timed, so that the time is not asked for.
unfoldable pub sxe_hash_new_plus :
    (ℕ → Option ℕ) → ℕ → Pool → Bytes → (Bytes → ℕ → ℕ) → ℕ → ℕ → ℕ → ℕ → Bool → Bool → Outcome Hash
sxe_hash_new_plus kit_malloc sizeof_impl old array sum element_count element_size key_offset
      key_size locked computed_hash =
    let states = u32 (element_count + sxe_hash_buckets_reserved) in
    let size =
      (sizeof_hash + sxe_pool_size sizeof_impl element_count element_size states) % 2 ^ 64 in
    elim (kit_malloc size) [
      | none ↦ aborted
      | some hash ↦ done (record {
        pool =
            sxe_pool_construct sizeof_impl 0 old (hash + sizeof_hash) element_count element_size
              states locked false;
        count = element_count;
        size = element_size;
        key_offset = key_offset;
        key_size = key_size;
        locked = locked;
        computed_hash = computed_hash;
        hash_key = if computed_hash then sum else sxe_prehashed_key_hash;
        array = array;
      })
    ]

-- `base` is the address of the pool.
unfoldable pub sxe_hash_reconstruct : ℕ → ℕ → Hash → Hash
sxe_hash_reconstruct sizeof_impl base hash = record hash {
  pool =
      sxe_pool_construct sizeof_impl 0 hash.pool base hash.count hash.size
        (u32 (hash.count + sxe_hash_buckets_reserved)) hash.locked false;
}

-- In each of these, `taken` says whether the pool's spinlock can be taken, if it has one.
unfoldable pub sxe_hash_take : Hash → Bool → Outcome (ℕ × Hash)
sxe_hash_take hash taken =
    elim (sxe_pool_set_oldest_element_state hash.pool taken 0 sxe_hash_unused_bucket
      sxe_hash_new_bucket) [
        | aborted ↦ aborted
        | done (id, pool') ↦
            done
              (if id == sxe_pool_no_index then sxe_hash_full else id, record hash { pool = pool' })
      ]

unfoldable pub bucket_of : Hash → Bytes → ℕ
bucket_of hash key = u32 (hash.hash_key key hash.key_size % hash.count + sxe_hash_buckets_reserved)

-- `(char *)array + id * hash->size + hash->key_offset`: the product is of two `unsigned`.
abbrev pub look_key : Hash → ℕ → Bytes
look_key hash id i = hash.array (u32 (id * hash.size) + hash.key_offset + i)

-- `&((char *)array)[id * hash->size + hash->key_offset]`: the sum is one of `unsigned` too.
abbrev pub add_key : Hash → ℕ → Bytes
add_key hash id i = hash.array (u32 (id * hash.size + hash.key_offset) + i)

abbrev pub is_null : Sign → Bool
is_null negative = false
is_null null = true
is_null positive = false

-- `while ((id = sxe_pool_walker_step(&walker)) != SXE_HASH_KEY_NOT_FOUND)`, in at most so many rounds.
-- `taken n` is for the n-th round; where the lock is not taken, the loop takes the result that says so
-- for an index.
unfoldable pub look_loop : ℕ → Hash → (ℕ → Bool) → Bytes → PoolWalker → ℕ
look_loop zero hash taken key walker = sxe_hash_key_not_found
look_loop (suc rounds) hash taken key walker =
    let (id, walker') = sxe_pool_walker_step hash.pool (taken 0) walker in
    let rest = look_loop rounds hash (λ n. taken (suc n)) key walker' in
    if id == sxe_hash_key_not_found
    then id
    else if is_null
        (memcmp (bytes_at (look_key hash id) hash.key_size) (bytes_at key hash.key_size))
    then id
    else rest

-- The rounds of the loop are one more than the elements of the bucket.
unfoldable pub sxe_hash_look : Hash → (ℕ → Bool) → Bytes → Outcome ℕ
sxe_hash_look hash taken key =
    let bucket = bucket_of hash key in
    elim (sxe_pool_walker_construct hash.pool bucket) [
      | aborted ↦ aborted
      | done walker ↦ done (look_loop (suc ((hash.pool.queue bucket).length)) hash taken key walker)
    ]

-- The result of the pool's call is not looked at.
abbrev pub with_pool : Hash → Outcome (ℕ × Pool) → Outcome Hash
with_pool hash aborted = aborted
with_pool hash (done (result, pool')) = done (record hash { pool = pool' })

unfoldable pub sxe_hash_add : Hash → Bool → ℕ → Outcome Hash
sxe_hash_add hash taken id = with_pool hash (
    sxe_pool_set_indexed_element_state hash.pool taken 0 id sxe_hash_new_bucket
      (bucket_of hash (add_key hash id)))

unfoldable pub sxe_hash_give : Hash → Bool → ℕ → Outcome Hash
sxe_hash_give hash taken id = elim (sxe_pool_index_to_state hash.pool id) [
  | aborted ↦ aborted
  | done state ↦
      with_pool hash
        (sxe_pool_set_indexed_element_state hash.pool taken 0 id state sxe_hash_unused_bucket)
]
