-- ===== src/SxePool/New.antt =====
-- A new pool of lib-sxe-pool is in order, within the memory that `sxe_pool_size` asks for.
use libkit.Common.{
  ℕ, zero, suc, ◌+◌, ◌-◌, ◌*◌, ◌≤◌, ◌<◌, ◌^◌, ◌==◌, if◌then◌else◌, Bool, false, [], ◌∷◌, length,
  ◌≡◌, refl, sym, ◌∙◌, ap, All, arith, Bool-cases, inl, inr, ==→eq,
}
use mathlib.Core.Path.{subst}
use libkit.SxeList.Holds.{All-middle}
use libkit.SxePool.Defs.{
  Pool, queue_at, node_at, state_of, construct_queues, construct_nodes, sxe_pool_construct,
  sxe_pool_size, sizeof_list, sizeof_node,
}
use libkit.SxePool.Queues.{View, Queue, Queue-ids}
use libkit.SxePool.Valid.{total, On, Valid}
use libkit.SxePool.Construct.{
  construct_queues-Queue, construct_queues-Shape, construct_nodes-Shape, Shape,
}
use libkit.SxePool.Fill.{down, Filled, filled}

-- All elements are in state 0, the one with the highest index first.
abbrev pub all_free : ℕ → View
all_free number s = if s == 0 then down number else []

down_below : (n bound : ℕ) → n ≤ bound → All (λ i. i < bound) (down n)
down_below zero bound h = tt
down_below (suc n) bound h = (omega arith, down_below n bound (omega arith))

length-down : (n : ℕ) → length (down n) ≡ n
length-down zero = refl
length-down (suc n) = ap suc (length-down n)

on_down : (i n : ℕ) → i < n → On i (down n)
on_down i zero h = absurd (omega arith)
on_down i (suc n) h = elim (Bool-cases (i == n)) [
  | inl here ↦ subst (λ k. On k (n ∷ down n)) (sym (==→eq i n here)) ([], (down n, refl))
  | inr other ↦
      let (front, (back, e)) = on_down i n (ground (arith, other)) in
      (n ∷ front, (back, ap (λ t. n ∷ t) e))
]

not_zero : (n : ℕ) → (suc n == 0) ≡ false
not_zero n = ground arith

total-all_free : (number states : ℕ) → total (all_free number) (suc states) ≡ number
total-all_free number zero = omega (arith, length-down number)
total-all_free number (suc states) =
    rw (not_zero states) (omega (arith, total-all_free number states))

module _ (sizeof_impl now : ℕ) (old : Pool) (base number size states : ℕ) (locked timed : Bool)
    (some_states : 0 < states) (few : number < 2 ^ 32) where
  abbrev placed : Pool
  placed = record old {
    queues = base + (sizeof_impl + number * size);
    nodes = base + (sizeof_impl + number * size + states * sizeof_list);
    number = number;
    size = size;
    states = states;
    locked = locked;
    timed = timed;
    next_count = if timed then old.next_count else 0;
  }

  abbrev queued : Pool
  queued = construct_queues states placed

  abbrev made : Pool
  made = construct_nodes now number queued

  shape : Shape placed queued
  shape = construct_queues-Shape states placed

  shape' : Shape queued made
  shape' = construct_nodes-Shape now number queued

  made_states : made.states ≡ states
  made_states = shape'.states ∙ shape.states

  made_number : made.number ≡ number
  made_number = shape'.number ∙ shape.number

  empty : (t : ℕ) → t < states → Queue queued t []
  empty = construct_queues-Queue states placed states (λ t le lt. absurd (omega (arith, le, lt)))

  f : Filled made (down number) 0
  f =
      filled now number queued []
        (record {
          layout = omega (arith, shape.queues, shape.nodes, shape.states);
          some_states = omega (arith, shape.states, some_states);
          free = empty 0 some_states;
          others = λ t p h. empty t (subst (λ n. t < n) shape.states h);
          above = tt;
        })
        (omega (arith, few))

  free_state : (i : ℕ) → i < number → state_of made i ≡ 0
  free_state i h =
      let (front, (back, e)) = on_down i number h in
      All-middle (λ j. state_of made j ≡ 0) front back i
        (subst (All (λ j. state_of made j ≡ 0)) e (Queue-ids made f.free))

  -- A pool that has just been constructed, of fewer than 2^32 elements and with a state at least, is
  -- in order whatever was in memory, with all elements in state 0, the highest index first.
  pub sxe_pool_construct-Valid :
      Valid
        (sxe_pool_construct sizeof_impl now old base number size states locked timed)
        (all_free number)
  unfolding sxe_pool_construct
  sxe_pool_construct-Valid = record {
    layout = f.layout;
    queues = queues;
    inside = inside;
    states = λ i h. subst (λ s. s < made.states) (sym (free_state i (in_number i h))) f.some_states;
    placed = λ i h.
        subst (λ s. On i (all_free number s)) (sym (free_state i (in_number i h)))
          (on_down i number (in_number i h));
    all_elements = all_elements states some_states refl ∙ sym made_number;
    few = omega (arith, made_number, few);
  }
    where
      in_number : (i : ℕ) → i < made.number → i < number
      in_number i h = subst (λ n. i < n) made_number h

      all_elements : (n : ℕ) → 0 < n → n ≡ states → total (all_free number) made.states ≡ number
      all_elements zero h e = absurd (omega (arith, h))
      all_elements (suc n) h e =
          ap (total (all_free number)) (made_states ∙ sym e) ∙ total-all_free number n

      queues : (s : ℕ) → s < made.states → Queue made s (all_free number s)
      queues zero h = f.free
      queues (suc s) h = rw (not_zero s) (f.others (suc s) (omega arith) h)

      inside : (s : ℕ) → s < made.states → All (λ i. i < made.number) (all_free number s)
      inside zero h =
          subst (λ n. All (λ i. i < n) (down number)) (sym made_number)
            (down_below number number (omega arith))
      inside (suc s) h = rw (not_zero s) tt

  -- Where the size of the pool fits 64 bits, the queue heads lie behind the elements, the nodes behind
  -- the heads, and all nodes from each on take exactly what is left of the size that `sxe_pool_size` gives.
  pub sxe_pool_construct-sxe_pool_size :
      (s i : ℕ)
      → s < states
      → i < number
      → sizeof_impl + number * size + states * sizeof_list + number * sizeof_node < 2 ^ 64
      → let pool = sxe_pool_construct sizeof_impl now old base number size states locked timed in
        (base + sizeof_impl + number * size ≤ queue_at pool s)
        × (queue_at pool s + sizeof_list ≤ node_at pool i)
        × (node_at pool i + (number - i) * sizeof_node
            ≡ base + sxe_pool_size sizeof_impl number size states)
  unfolding sxe_pool_construct sxe_pool_size
  sxe_pool_construct-sxe_pool_size s i below known fits =
      let queues : made.queues ≡ base + (sizeof_impl + number * size) =
        shape'.queues ∙ shape.queues in
      let nodes : made.nodes ≡ base + (sizeof_impl + number * size + states * sizeof_list) =
        shape'.nodes ∙ shape.nodes in
      (
        omega (arith, queues),
        omega (arith, queues, nodes, below),
        omega (arith, nodes, known, fits),
      )

  -- The numbers and options of a new pool are those asked for.
  pub sxe_pool_construct-members :
      let pool = sxe_pool_construct sizeof_impl now old base number size states locked timed in
      (pool.number ≡ number)
      × (pool.states ≡ states)
      × (pool.locked ≡ locked)
      × (pool.timed ≡ timed)
  unfolding sxe_pool_construct
  sxe_pool_construct-members =
      (made_number, made_states, shape'.locked ∙ shape.locked, shape'.timed ∙ shape.timed)
