-- ===== src/SxePool/Walked.antt =====
-- A walk of lib-sxe-pool/sxe-pool-walker.c over a pool that stays as it is.
use libkit.Common.{
  ℕ, zero, suc, ◌-◌, ◌<◌, ◌^◌, ◌==◌, Bool, true, false, if◌then◌else◌, List, [], ◌∷◌, length, map,
  length-map, ◌≡◌, refl, ap, All, arith, ==_self, Bool-cases, inl, inr, ◌⊎◌,
}
use libkit.SxeList.Defs.{sxe_list_walker_construct, sxe_list_walker_find, sxe_list_walker_step}
use libkit.SxeList.Linked.{Linked, Fresh}
use libkit.SxePool.Defs.{
  Pool, aborted, done, node_at, index_of, state_of, sxe_pool_lock, sxe_pool_lock_taken,
  sxe_pool_no_index,
}
use libkit.SxePool.Queues.{View, Queue, Queue-ids}
use libkit.SxePool.Valid.{Valid, length-total}
use libkit.SxePool.Walkers.{
  PoolWalker, gone, next_node, sxe_pool_walker_construct, sxe_pool_walker_step,
}

-- `while ((id = sxe_pool_walker_step(&walker)) != SXE_POOL_NO_INDEX)`: the indices that the body sees,
-- in at most so many rounds.
unfoldable pub walked : ℕ → Pool → Bool → PoolWalker → List ℕ
walked zero pool taken walker = []
walked (suc rounds) pool taken walker =
    let (id, walker') = sxe_pool_walker_step pool taken walker in
    let rest = walked rounds pool taken walker' in if id == sxe_pool_no_index then [] else id ∷ rest

-- The elements that the walker has ahead of it are `rest`, and its own is in the state it walks.
pub record Ahead (pool : Pool) (walker : PoolWalker) (rest : List ℕ) : Type 0 where
  pub linked :
      Linked pool.memory walker.list_walker.node
        (map (node_at pool) rest)
        walker.list_walker.list.sentinel
  pub fresh : Fresh walker.list_walker.list.sentinel (map (node_at pool) rest)
  pub offset : walker.list_walker.list.offset ≡ 0
  pub stays : gone pool walker.state (sxe_list_walker_find walker.list_walker) ≡ false
  pub known : All (λ i. i < pool.number) rest
  pub ids : All (λ i. state_of pool i ≡ walker.state) rest
  pub few : pool.number < 2 ^ 32

pub index_at : (pool : Pool) (i : ℕ) → index_of pool (node_at pool i) ≡ i
index_at pool i = omega arith

-- The walker has come to the element `i`.
abbrev pub at : Pool → PoolWalker → ℕ → PoolWalker
at pool w i =
    let l = w.list_walker in
    record w { list_walker = record l { back = l.node; node = node_at pool i }; last = pool.last i }

-- A walker whose list walker is new.
abbrev pub new_walker : Pool → ℕ → ℕ → PoolWalker
new_walker pool s last = record {
  list_walker = sxe_list_walker_construct (pool.queue s);
  state = s;
  last = last;
}

module _ (pool : Pool) (taken : Bool) (free : sxe_pool_lock pool taken ≡ sxe_pool_lock_taken) where
  pub step_end :
      (w : PoolWalker) → Ahead pool w [] → (sxe_pool_walker_step pool taken w).0 ≡ sxe_pool_no_index
  unfolding sxe_pool_walker_step next_node sxe_list_walker_step sxe_list_walker_find
  step_end w p =
      let l = w.list_walker in rw (free, p.stays, p.linked.0, ==_self (l.list.sentinel)) refl

  pub step_on :
      (w : PoolWalker) (i : ℕ) (rest : List ℕ)
      → Ahead pool w (i ∷ rest)
      → sxe_pool_walker_step pool taken w ≡ (i, at pool w i)
  unfolding sxe_pool_walker_step next_node sxe_list_walker_step sxe_list_walker_find
  step_on w i rest p =
      let l = w.list_walker in
      let other : (node_at pool i == l.list.sentinel) ≡ false = ground (arith, p.fresh.0) in
      let place : node_at pool i - l.list.offset ≡ node_at pool i = omega (arith, p.offset) in
      rw (free, p.stays, p.linked.0, other, place, index_at pool i) refl

  pub Ahead-at :
      (w : PoolWalker) (i : ℕ) (rest : List ℕ)
      → Ahead pool w (i ∷ rest)
      → Ahead pool (at pool w i) rest
  unfolding sxe_list_walker_find
  Ahead-at w i rest p =
      let l = w.list_walker in
      let other : (node_at pool i == l.list.sentinel) ≡ false = ground (arith, p.fresh.0) in
      let place : node_at pool i - l.list.offset ≡ node_at pool i = omega (arith, p.offset) in
      record {
        linked = p.linked.2;
        fresh = p.fresh.1;
        offset = p.offset;
        stays = rw (other, place, p.ids.0, ==_self (w.state)) refl;
        known = p.known.1;
        ids = p.ids.1;
        few = p.few;
      }

  pub walked-Ahead :
      (rest : List ℕ) (rounds : ℕ) (w : PoolWalker)
      → Ahead pool w rest
      → length rest < rounds
      → walked rounds pool taken w ≡ rest
  unfolding walked
  walked-Ahead rest zero w p enough = absurd (omega arith)
  walked-Ahead [] (suc rounds) w p enough = rw (step_end w p) refl
  walked-Ahead (i ∷ rest) (suc rounds) w p enough =
      let index : (i == sxe_pool_no_index) ≡ false = ground (arith, p.known.0, p.few) in
      rw (step_on w i rest p, index)
        (ap (λ t. i ∷ t)
          (walked-Ahead rest rounds (at pool w i) (Ahead-at w i rest p) (omega arith)))

  module _ (view : View) (v : Valid pool view) (s : ℕ) (below : s < pool.states) where
    q : Queue pool s (view s)
    q = v.queues s below

    pub few_nodes : (pool.queue s).length < 2 ^ 32
    few_nodes = omega (
      arith,
      q.holds.counted,
      length-map (node_at pool) (view s),
      length-total view s pool.states below,
      v.all_elements,
      v.few,
    )

    pub Ahead-new_walker : (last : ℕ) → Ahead pool (new_walker pool s last) (view s)
    unfolding sxe_list_walker_construct sxe_list_walker_find
    Ahead-new_walker last = record {
      linked = q.holds.linked;
      fresh = q.holds.fresh;
      offset = q.offset;
      stays = rw (==_self ((pool.queue s).sentinel)) refl;
      known = v.inside s below;
      ids = Queue-ids pool q;
      few = v.few;
    }

    -- Walking a state of a pool in order, where the lock can be taken: a pool that is both locked and
    -- timed is refused by ending the program; otherwise a loop that steps until there is no index
    -- sees the elements of the state, each once, the oldest first, and ends in one round more than
    -- there are elements.
    pub walked-sxe_pool_walker_construct :
        (rounds : ℕ)
        → length (view s) < rounds
        → (((pool.locked ≡ true) × (pool.timed ≡ true))
            × (sxe_pool_walker_construct pool s ≡ aborted))
          ⊎ ((walker : PoolWalker) × ((sxe_pool_walker_construct pool s ≡ done walker)
                × (walked rounds pool taken walker ≡ view s)))
    unfolding sxe_pool_walker_construct
    walked-sxe_pool_walker_construct rounds enough = elim (Bool-cases (pool.locked)) [
      | inl locked ↦ elim (Bool-cases (pool.timed)) [
        | inl timed ↦ inl ((locked, timed), rw (locked, timed) refl)
        | inr other ↦ inr (new_walker pool s 0, (rw (locked, other) refl, all))
      ]
      | inr other ↦ inr (new_walker pool s 0, (rw other refl, all))
    ]
      where
        all : walked rounds pool taken (new_walker pool s 0) ≡ view s
        all = walked-Ahead (view s) rounds (new_walker pool s 0) (Ahead-new_walker 0) enough
