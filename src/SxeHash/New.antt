-- ===== src/SxeHash/New.antt =====
-- Making a hash with lib-sxe-hash/sxe-hash.c.
use libkit.Common.{
  ℕ, zero, suc, ◌+◌, ◌*◌, ◌^◌, ◌%◌, ◌<◌, ◌≤◌, ◌==◌, Bool, false, if◌then◌else◌, Option, none, some,
  List, ◌∷◌, ◌≡◌, refl, sym, ◌∙◌, ap, arith, inl, inr, ◌⊎◌, u32,
}
use mathlib.Core.Path.{subst}
use libkit.SxePool.Defs.{Pool, Outcome, aborted, done, sxe_pool_construct, sxe_pool_size}
use libkit.SxePool.Queues.{View}
use libkit.SxePool.Valid.{Valid}
use libkit.SxePool.New.{all_free, sxe_pool_construct-Valid, sxe_pool_construct-members}
use libkit.SxeHash.Defs.{
  Hash, Bytes, bytes_at, sizeof_hash, sxe_prehashed_key_hash, sxe_hash_new_plus,
  sxe_hash_reconstruct,
}
use libkit.SxeHash.Valid.{HashValid}

-- The hash function looks at no more than the bytes of the key.
abbrev pub ByBytes : (Bytes → ℕ → ℕ) → ℕ → Type 0
ByBytes hash_key size =
    (k l : Bytes) → bytes_at k size ≡ bytes_at l size → hash_key k size ≡ hash_key l size

abbrev pub word_of : List ℕ → ℕ
word_of (a ∷ b ∷ c ∷ d ∷ rest) = a + 2 ^ 8 * b + 2 ^ 16 * c + 2 ^ 24 * d
word_of _ = 0

-- The default hash function looks at no more than a key of at least four bytes.
pub sxe_prehashed_key_hash-ByBytes : (size : ℕ) → 4 ≤ size → ByBytes sxe_prehashed_key_hash size
unfolding sxe_prehashed_key_hash
sxe_prehashed_key_hash-ByBytes zero enough k l e = absurd (omega arith)
sxe_prehashed_key_hash-ByBytes (suc zero) enough k l e = absurd (omega arith)
sxe_prehashed_key_hash-ByBytes (suc (suc zero)) enough k l e = absurd (omega arith)
sxe_prehashed_key_hash-ByBytes (suc (suc (suc zero))) enough k l e = absurd (omega arith)
sxe_prehashed_key_hash-ByBytes (suc (suc (suc (suc n)))) enough k l e = ap word_of e

-- A hash whose pool is new.
pub made-HashValid :
    (sizeof_impl : ℕ) (old : Pool) (base : ℕ) (hash : Hash)
    → hash.pool
      ≡ sxe_pool_construct sizeof_impl 0 old base hash.count hash.size
          (u32 (hash.count + 2))
          hash.locked
          false
    → 0 < hash.count
    → hash.count + 2 < 2 ^ 32
    → hash.count * hash.size < 2 ^ 32
    → hash.key_offset ≤ hash.size
    → ByBytes hash.hash_key hash.key_size
    → HashValid hash (all_free hash.count)
made-HashValid sizeof_impl old base hash e some_elements few small inside by_bytes =
    let states = u32 (hash.count + 2) in
    let all_states : states ≡ hash.count + 2 = omega (arith, few) in
    let v =
      sxe_pool_construct-Valid sizeof_impl 0 old base hash.count hash.size states hash.locked false
        (omega (arith, few)) (omega (arith, few)) in
    let (number', states', locked', timed') =
      sxe_pool_construct-members sizeof_impl 0 old base hash.count hash.size states hash.locked
        false (omega (arith, few)) (omega (arith, few)) in
    record {
      pool_valid = subst (λ p. Valid p (all_free hash.count)) (sym e) v;
      numbers = ap (λ p. p.number) e ∙ number';
      states = ap (λ p. p.states) e ∙ states' ∙ all_states;
      untimed = ap (λ p. p.timed) e ∙ timed';
      some_elements = some_elements;
      few = few;
      small = small;
      inside = inside;
      by_bytes = by_bytes;
      buckets = λ s low below. let other : (s == 0) ≡ false = ground (arith, low) in rw other tt;
    }

module _ (kit_malloc : ℕ → Option ℕ) (sizeof_impl : ℕ) (old : Pool) (array : Bytes)
    (sum : Bytes → ℕ → ℕ) (element_count element_size key_offset key_size : ℕ)
    (locked computed_hash : Bool) where
  abbrev size_for : ℕ → ℕ
  size_for states =
      (sizeof_hash + sxe_pool_size sizeof_impl element_count element_size states) % 2 ^ 64

  abbrev size : ℕ
  size = size_for (element_count + 2)

  abbrev result : Outcome Hash
  result =
      sxe_hash_new_plus kit_malloc sizeof_impl old array sum element_count element_size key_offset
        key_size locked computed_hash

  abbrev hash_at : ℕ → Hash
  hash_at address = record {
    pool =
        sxe_pool_construct sizeof_impl 0 old (address + sizeof_hash) element_count element_size
          (u32 (element_count + 2)) locked false;
    count = element_count;
    size = element_size;
    key_offset = key_offset;
    key_size = key_size;
    locked = locked;
    computed_hash = computed_hash;
    hash_key = if computed_hash then sum else sxe_prehashed_key_hash;
    array = array;
  }

  -- Making a hash of at least one element, whose elements have less than 2^32 bytes together, with the
  -- key inside an element and a hash function that looks at no more than the key. If the memory is not
  -- given, the program ends; otherwise the hash is in order, and all its elements are unused.
  pub sxe_hash_new_plus-HashValid :
      0 < element_count
      → element_count + 2 < 2 ^ 32
      → element_count * element_size < 2 ^ 32
      → key_offset ≤ element_size
      → ByBytes (if computed_hash then sum else sxe_prehashed_key_hash) key_size
      → ((kit_malloc size ≡ none) × (result ≡ aborted))
        ⊎ ((address : ℕ) × ((hash : Hash) × ((kit_malloc size ≡ some address)
                × (result ≡ done hash)
                × HashValid hash (all_free element_count))))
  unfolding sxe_hash_new_plus
  sxe_hash_new_plus-HashValid some_elements few small inside by_bytes = go (kit_malloc size) refl
    where
      states : u32 (element_count + 2) ≡ element_count + 2
      states = omega (arith, few)

      asked : kit_malloc (size_for (u32 (element_count + 2))) ≡ kit_malloc size
      asked = ap (λ n. kit_malloc (size_for n)) states

      go :
          (r : Option ℕ)
          → kit_malloc size ≡ r
          → ((kit_malloc size ≡ none) × (result ≡ aborted))
            ⊎ ((address : ℕ) × ((hash : Hash) × ((kit_malloc size ≡ some address)
                    × (result ≡ done hash)
                    × HashValid hash (all_free element_count))))
      go none e = inl (e, rw (sxe_hash_new_plus, asked ∙ e) refl)
      go (some address) e = inr (
        address,
        (
          hash_at address,
          (
            e,
            rw (sxe_hash_new_plus, asked ∙ e) refl,
            made-HashValid sizeof_impl old (address + sizeof_hash) (hash_at address) refl
                some_elements few small inside by_bytes,
          ),
        ),
      )

-- Making the pool of a hash in order again, where it stands: all its elements are unused.
pub sxe_hash_reconstruct-HashValid :
    (sizeof_impl base : ℕ) (hash : Hash) (view : View)
    → HashValid hash view
    → HashValid (sxe_hash_reconstruct sizeof_impl base hash) (all_free hash.count)
unfolding sxe_hash_reconstruct
sxe_hash_reconstruct-HashValid sizeof_impl base hash view h =
    made-HashValid sizeof_impl hash.pool base (sxe_hash_reconstruct sizeof_impl base hash) refl
      h.some_elements h.few h.small h.inside h.by_bytes
