-- ===== src/SortedArray/Defs.antt =====
-- lib-kit/kit-sortedarray.c: the class of an array, the search, and the operations on elements.
use libkit.Common.{
  ℕ, zero, suc, ◌+◌, ◌-◌, ◌/◌, ◌^◌, Bool, true, false, not, ◌&&◌, ◌||◌, Option, none, some, u32,
  ltb, leb, ◌==◌, if◌then◌else◌,
}

-- What a comparison function returns: a negative number, zero, a positive number, or INT_MAX, which
-- is positive and stands for a failure where the class allows failures.
pub data Cmp : Type 0 where
  less equal greater int_max : Cmp

-- `flags` of `struct kit_sortedarray_class`
pub record Flags : Type 0 where
  pub allow_inserts : Bool
  pub allow_growth : Bool
  pub zero_copy : Bool
  pub cmp_can_fail : Bool

abbrev pub no_pos : ℕ
no_pos = 2 ^ 32 - 1

module _ {ℓ} {K : Type ℓ} (flags : Flags) (cmp : K → K → Cmp) where
  -- The loop of `kit_sortedarray_find_key` over `lim` slots from `pos`; `key_at i` is the key in slot
  -- `i`. A round at least halves `lim`, so as many rounds as slots are enough.
  unfoldable pub find_loop : (ℕ → K) → K → ℕ → ℕ → ℕ → ℕ × Bool
  find_loop key_at key zero pos lim = (pos, false)
  find_loop key_at key (suc rounds) pos lim = elim (lim == 0) [
    | true ↦ (pos, false)
    | false ↦
        let i = pos + lim / 2 in
        elim (cmp key (key_at i)) [
          | equal ↦ (i, true)
          | int_max ↦ elim (flags.cmp_can_fail) [
            | true ↦ (no_pos, false)
            | false ↦ find_loop key_at key rounds (i + 1) ((lim - 1) / 2)
          ]
          | greater ↦ find_loop key_at key rounds (i + 1) ((lim - 1) / 2)
          | less ↦ find_loop key_at key rounds pos (lim / 2)
        ]
  ]

  -- The position returned, and `*match_out`.
  unfoldable pub kit_sortedarray_find_key : (ℕ → K) → ℕ → K → ℕ × Bool
  kit_sortedarray_find_key key_at count key = find_loop key_at key count 0 count

-- The array as its owner holds it: whether `*array` is allocated, `*count`, `*alloc`, and the memory,
-- slot by slot.
pub record SortedArray {ℓ} (E : Type ℓ) : Type ℓ where
  pub allocated : Bool
  pub count : ℕ
  pub alloc : ℕ
  pub slots : ℕ → E

-- `memmove` of `n` slots from slot `src` to slot `dst`.
abbrev pub move_slots {ℓ} : {E : Type ℓ} → (ℕ → E) → ℕ → ℕ → ℕ → ℕ → E
move_slots slots dst src n i =
    if leb dst i && ltb i (dst + n) then slots (src + (i - dst)) else slots i

-- `memcpy` of one element to slot `pos`.
abbrev pub put_slot {ℓ} : {E : Type ℓ} → (ℕ → E) → ℕ → E → ℕ → E
put_slot slots pos element i = if i == pos then element else slots i

module _ {ℓ κ} {K : Type κ} {E : Type ℓ} (flags : Flags) (cmp : K → K → Cmp) (key_of : E → K) where
  abbrev pub keys : SortedArray E → ℕ → K
  keys a i = key_of (a.slots i)

  -- Where a new element goes: `none` for a duplicate, or for one out of order where insertions are
  -- not allowed. A comparison that fails is positive, and its position is not looked at.
  unfoldable pub place : SortedArray E → K → Option ℕ
  place a key = if a.count == 0 then some 0 else elim (cmp (keys a (a.count - 1)) key) [
    | equal ↦ none
    | less ↦ some a.count
    | _ ↦
        if flags.allow_inserts
        then (let (pos, found) = kit_sortedarray_find_key flags cmp (keys a) a.count key in
            if found then none else some pos)
        else none
  ]

  -- How many slots more are asked for: `none` where the array is full and may not grow.
  unfoldable pub growth : SortedArray E → Option ℕ
  growth a =
      if a.count == a.alloc
      then if flags.allow_growth then some (if ltb 100 a.alloc then a.alloc / 2 else 10) else none
      else some 0

  -- The element goes to slot `pos`, behind those moved up. With `zero_copy` the slot keeps what the
  -- move left in it, for the caller to fill.
  unfoldable pub insert_at : SortedArray E → ℕ → E → SortedArray E
  insert_at a pos element =
      let moved =
        if ltb pos a.count then move_slots a.slots (pos + 1) pos (a.count - pos) else a.slots in
      record a {
        slots = if flags.zero_copy then moved else put_slot moved pos element;
        count = u32 (a.count + 1);
      }

  -- The result is the slot of the new element, or none, and the array. `realloc_ok` says whether the
  -- allocator grants a request.
  unfoldable pub kit_sortedarray_add_elem : Bool → SortedArray E → E → Option ℕ × SortedArray E
  kit_sortedarray_add_elem realloc_ok a element = elim (place a (key_of element)) [
    | none ↦ (none, a)
    | some pos ↦ elim (growth a) [
      | none ↦ (none, a)
      | some more ↦
          if not a.allocated || not (more == 0)
          then if realloc_ok
            then (
              some pos,
              insert_at (record a { allocated = true; alloc = u32 (a.alloc + more) }) pos element,
            )
            else (none, a)
          else (some pos, insert_at a pos element)
    ]
  ]

  -- The slot of the element with the key.
  unfoldable pub kit_sortedarray_get_elem : SortedArray E → K → Option ℕ
  kit_sortedarray_get_elem a key =
      let (pos, found) =
        if a.allocated
        then kit_sortedarray_find_key flags cmp (keys a) a.count key
        else (a.count, false) in
      if found then some pos else none

  -- The result says whether the key was found and removed.
  unfoldable pub kit_sortedarray_delete_elem : SortedArray E → K → Bool × SortedArray E
  kit_sortedarray_delete_elem a key =
      if not a.allocated || (a.count == 0)
      then (false, a)
      else (let (pos, found) = kit_sortedarray_find_key flags cmp (keys a) a.count key in
          if found
          then (
            true,
            record a {
              slots = move_slots a.slots pos (pos + 1) (a.count - pos - 1);
              count = a.count - 1;
            },
          )
          else (false, a))
