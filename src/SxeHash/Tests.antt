-- ===== src/SxeHash/Tests.antt =====
-- A hash of three elements, one of them added, and the theorems at it.
use libkit.Common.{ℕ, ◌<◌, ◌≤◌, true, false, Option, none, some, ◌≡◌, ◌≢◌, refl, All, arith, ◌⊎◌}
use libkit.SxeList.Defs.{
  sxe_list_construct_impl, sxe_list_push, sxe_list_remove, sxe_list_walker_construct,
  sxe_list_walker_find, sxe_list_walker_step,
}
use libkit.SxePool.Defs.{
  Pool, aborted, done, state_of, sxe_pool_construct, construct_queues, construct_queue,
  construct_nodes, push_node, remove_node, stamp, sxe_pool_lock, sxe_pool_lock_taken,
}
use libkit.SxePool.Queues.{View}
use libkit.SxePool.Valid.{Valid, On, moved}
use libkit.SxePool.Stays.{after-Valid}
use libkit.SxePool.New.{all_free}
use libkit.SxePool.Walkers.{next_node, rewalk, sxe_pool_walker_construct, sxe_pool_walker_step}
use libkit.Guid.Defs.{memcmp}
use libkit.SxeHash.Defs.{
  Hash, bucket_of, look_loop, sxe_prehashed_key_hash, sxe_hash_new_plus, sxe_hash_add,
  sxe_hash_look, sxe_hash_key_not_found,
}
use libkit.SxeHash.Valid.{HashValid, key_of, bucket_of-range}
use libkit.SxeHash.Look.{HasKey, LacksKey, sxe_hash_look-HasKey}
use libkit.SxeHash.Changes.{put_pool, NoLock, Changed, moved-HashValid, sxe_hash_add-HashValid}
use libkit.SxeHash.Added.{sxe_hash_look-sxe_hash_add}
use libkit.SxeHash.New.{made-HashValid, sxe_prehashed_key_hash-ByBytes, sxe_hash_new_plus-HashValid}

program : Unit {0}
unfolding sxe_list_construct_impl sxe_list_push sxe_list_remove sxe_list_walker_construct
    sxe_list_walker_find sxe_list_walker_step sxe_pool_construct construct_queues construct_queue
    construct_nodes push_node remove_node stamp sxe_pool_lock next_node rewalk
    sxe_pool_walker_construct sxe_pool_walker_step memcmp bucket_of look_loop sxe_prehashed_key_hash
    sxe_hash_look
program = tt

abbrev blank : Pool
blank = record {
  locked = true;
  timed = true;
  number = 9;
  size = 9;
  states = 9;
  queues = 9;
  nodes = 9;
  queue = λ s. record { sentinel = 9; length = 9; offset = 9 };
  memory = record { next = λ a. 9; prev = λ a. 9; id = λ a. 9 };
  last = λ i. 9;
  next_count = 9;
}

-- Element `id` has the key of bytes `8 * id` to `8 * id + 3`.
abbrev hash : Hash
hash = record {
  pool = sxe_pool_construct 128 0 blank 4136 3 8 5 false false;
  count = 3;
  size = 8;
  key_offset = 0;
  key_size = 4;
  locked = false;
  computed_hash = false;
  hash_key = sxe_prehashed_key_hash;
  array = λ i. i;
}

hash-HashValid : HashValid hash (all_free 3)
hash-HashValid =
    made-HashValid 128 blank 4136 hash refl (omega arith) (omega arith) (omega arith) (omega arith)
      (sxe_prehashed_key_hash-ByBytes 4 (omega arith))

three : hash.pool.number ≡ 3
unfolding program
three = refl

-- Element 2 has been taken.
abbrev after_take : Pool
after_take = push_node 1 2 (stamp 0 2 (remove_node 0 2 hash.pool))

abbrev view_of_taken : View
view_of_taken = moved (all_free 3) 2 0 1

was_free : state_of hash.pool 2 ≡ 0
unfolding program
was_free = refl

five : hash.pool.states ≡ 5
unfolding program
five = refl

taken-Valid : Valid after_take view_of_taken
taken-Valid =
    after-Valid hash.pool (all_free 3) hash-HashValid.pool_valid 0 2 0 1 (omega (arith, three))
      was_free (omega (arith, five))

abbrev taken_hash : Hash
taken_hash = put_pool hash after_take

taken-HashValid : HashValid taken_hash view_of_taken
unfolding push_node stamp remove_node
taken-HashValid =
    moved-HashValid hash (all_free 3) hash-HashValid after_take 2 0 1 (refl, refl, refl, refl)
      taken-Valid (λ two. absurd (omega (arith, two)))

now_new : state_of after_take 2 ≡ 1
unfolding program
now_new = refl

unlocked : taken_hash.pool.locked ≡ false
unfolding program
unlocked = refl

sxe_hash_look-sxe_hash_add_example :
    (pool' : Pool) × ((sxe_hash_add taken_hash true 2 ≡ done (put_pool taken_hash pool'))
      × ((j : ℕ) × ((sxe_hash_look (put_pool taken_hash pool') (λ n. true) (key_of taken_hash 2)
              ≡ done j)
            × (j < 3)
            × HasKey taken_hash (key_of taken_hash 2) j)))
sxe_hash_look-sxe_hash_add_example =
    sxe_hash_look-sxe_hash_add taken_hash view_of_taken taken-HashValid 2 (omega arith) unlocked
      now_new true (λ n. true)

sxe_hash_add-HashValid_example :
    let result = sxe_hash_add taken_hash true 2 in
    (NoLock taken_hash true × (result ≡ done taken_hash))
    ⊎ ((state_of after_take 2 ≢ 1) × (result ≡ aborted))
    ⊎ ((pool' : Pool) × ((result ≡ done (put_pool taken_hash pool'))
          × Changed taken_hash view_of_taken 2 1
              (bucket_of taken_hash (key_of taken_hash 2))
              pool'))
sxe_hash_add-HashValid_example =
    sxe_hash_add-HashValid taken_hash view_of_taken taken-HashValid true 2 (omega arith)

sxe_hash_new_plus-HashValid_example :
    let result =
      sxe_hash_new_plus (λ n. some 4096) 128 blank (λ i. i) (λ k n. 7) 3 8 0 4 false false in
    let given : Option ℕ = some 4096 in
    ((given ≡ none) × (result ≡ aborted))
    ⊎ ((address : ℕ) × ((made : Hash) × ((given ≡ some address)
            × (result ≡ done made)
            × HashValid made (all_free 3))))
sxe_hash_new_plus-HashValid_example =
    sxe_hash_new_plus-HashValid (λ n. some 4096) 128 blank (λ i. i) (λ k n. 7) 3 8 0 4 false false
      (omega arith) (omega arith) (omega arith) (omega arith)
      (sxe_prehashed_key_hash-ByBytes 4 (omega arith))

abbrev own_bucket : ℕ
own_bucket = bucket_of taken_hash (key_of taken_hash 2)

-- Element 2 has been added.
abbrev after_add : Pool
after_add = push_node own_bucket 2 (stamp 0 2 (remove_node 1 2 after_take))

abbrev view_of_added : View
view_of_added = moved view_of_taken 2 1 own_bucket

three_still : after_take.number ≡ 3
unfolding program
three_still = refl

added-HashValid : HashValid (put_pool taken_hash after_add) view_of_added
unfolding push_node stamp remove_node
added-HashValid =
    let key = key_of taken_hash 2 in
    let (low, below) = bucket_of-range taken_hash view_of_taken taken-HashValid key in
    moved-HashValid taken_hash view_of_taken taken-HashValid after_add 2 1 own_bucket
      (refl, refl, refl, refl)
      (after-Valid after_take view_of_taken taken-Valid 0 2 1 own_bucket
        (omega (arith, three_still)) now_new below)
      (λ two. refl)

free : (n : ℕ) → sxe_pool_lock after_add true ≡ sxe_pool_lock_taken
unfolding program
free n = refl

sxe_hash_look-present :
    sxe_hash_look (put_pool taken_hash after_add) (λ n. true) (key_of taken_hash 2) ≡ done 2
unfolding program
sxe_hash_look-present = refl

sxe_hash_look-absent :
    sxe_hash_look (put_pool taken_hash after_add) (λ n. true) (λ i. 0) ≡ done sxe_hash_key_not_found
unfolding program
sxe_hash_look-absent = refl

sxe_hash_look-HasKey_example :
    let added = put_pool taken_hash after_add in
    let key = key_of taken_hash 2 in
    ((id : ℕ) × ((sxe_hash_look added (λ n. true) key ≡ done id)
        × (id < 3)
        × On id (view_of_added own_bucket)
        × HasKey added key id))
    ⊎ ((sxe_hash_look added (λ n. true) key ≡ done sxe_hash_key_not_found)
        × ((s : ℕ) → 2 ≤ s → s < after_add.states → All (LacksKey added key) (view_of_added s)))
unfolding bucket_of
sxe_hash_look-HasKey_example =
    sxe_hash_look-HasKey (put_pool taken_hash after_add) view_of_added added-HashValid
      (key_of taken_hash 2) (λ n. true) free
