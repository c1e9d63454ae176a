-- ===== src/SxePool/Rewalked.antt =====
-- A step of lib-sxe-pool/sxe-pool-walker.c from an element that has left the state that is walked.
use libkit.Common.{
  ℕ, zero, suc, ◌-◌, ◌<◌, ◌==◌, leb, Bool, true, false, if◌then◌else◌, List, [], ◌∷◌, ◌++◌, length,
  map, map-append, length-map, ◌≡◌, ◌≢◌, refl, sym, ◌∙◌, ap, All, arith, ==_self, ==→eq, Bool-cases,
  inl, inr, ◌⊎◌,
}
use mathlib.Core.Path.{subst}
use libkit.SxeList.Defs.{
  Walker, sxe_list_walker_construct, sxe_list_walker_back, sxe_list_walker_find,
  sxe_list_walker_step,
}
use libkit.SxeList.Linked.{Linked, Fresh, first}
use libkit.SxeList.Holds.{Linked-middle}
use libkit.SxePool.Defs.{
  Pool, node_at, queue_at, state_of, sxe_pool_lock, sxe_pool_lock_taken, sxe_pool_no_index,
}
use libkit.SxePool.Queues.{View, Queue, node_not_head}
use libkit.SxePool.Valid.{Valid, On}
use libkit.SxePool.Results.{head}
use libkit.SxePool.Walkers.{PoolWalker, gone, there, found, next_node, rewalk, sxe_pool_walker_step}
use libkit.SxePool.Walked.{index_at}

-- The first element whose time or count is not before `last`.
abbrev pub first_since : Pool → ℕ → List ℕ → ℕ
first_since pool last [] = sxe_pool_no_index
first_since pool last (i ∷ rest) = if leb last (pool.last i) then i else first_since pool last rest

All-after : (P : ℕ → Type 0) (xs ys : List ℕ) (n : ℕ) → All P (xs ++ n ∷ ys) → All P ys
All-after P [] ys n h = h.1
All-after P (x ∷ xs) ys n h = All-after P xs ys n h.1

module _ (pool : Pool) (w : PoolWalker) where
  step_first :
      (l : Walker) (rest : List ℕ)
      → pool.memory.next l.node ≡ first (map (node_at pool) rest) l.list.sentinel
      → Fresh l.list.sentinel (map (node_at pool) rest)
      → l.list.offset ≡ 0
      → (found pool w (sxe_list_walker_step pool.memory l)).0 ≡ head rest
  unfolding sxe_list_walker_step sxe_list_walker_find
  step_first l [] next fresh offset = rw (next, ==_self (l.list.sentinel)) refl
  step_first l (i ∷ rest) next fresh offset =
      let other : (node_at pool i == l.list.sentinel) ≡ false = ground (arith, fresh.0) in
      let place : node_at pool i - l.list.offset ≡ node_at pool i = omega (arith, offset) in
      rw (next, other, place) (index_at pool i)

  rewalk-first_since :
      (last : ℕ) (l : Walker) (rest : List ℕ) (rounds : ℕ)
      → Linked pool.memory l.node (map (node_at pool) rest) l.list.sentinel
      → Fresh l.list.sentinel (map (node_at pool) rest)
      → l.list.offset ≡ 0
      → length rest < rounds
      → (found pool w (rewalk rounds pool last l)).0 ≡ first_since pool last rest
  unfolding rewalk sxe_list_walker_step sxe_list_walker_find
  rewalk-first_since last l rest zero h fresh offset enough = absurd (omega arith)
  rewalk-first_since last l [] (suc rounds) h fresh offset enough =
      rw (rewalk, h.0, ==_self (l.list.sentinel)) refl
  rewalk-first_since last l (i ∷ rest) (suc rounds) h fresh offset enough =
      let other : (node_at pool i == l.list.sentinel) ≡ false = ground (arith, fresh.0) in
      let place : node_at pool i - l.list.offset ≡ node_at pool i = omega (arith, offset) in
      let moved : Walker = record l { back = l.node; node = pool.memory.next l.node } in
      let rest_found =
        rewalk-first_since last moved rest rounds
          (subst (λ a. Linked pool.memory a (map (node_at pool) rest) l.list.sentinel) (sym h.0)
            h.2)
          fresh.1 offset (omega arith) in
      elim (Bool-cases (leb last (pool.last i))) [
        | inl since ↦ rw (rewalk, h.0, other, place, index_at pool i, since, index_at pool i) refl
        | inr before ↦ rw (rewalk, h.0, other, place, index_at pool i, before) rest_found
      ]

module _ (pool : Pool) (view : View) (v : Valid pool view) (taken : Bool)
    (free : sxe_pool_lock pool taken ≡ sxe_pool_lock_taken) (w : PoolWalker)
    (below : w.state < pool.states) (sentinel : w.list_walker.list.sentinel ≡ queue_at pool w.state)
    (offset : w.list_walker.list.offset ≡ 0) (i : ℕ) (place : w.list_walker.node ≡ node_at pool i)
    (left : state_of pool i ≢ w.state) where
  abbrev l : Walker
  l = w.list_walker

  q : Queue pool w.state (view w.state)
  q = v.queues w.state below

  -- A node of the pool is not the sentinel, so the walker finds it.
  find_node : (j : ℕ) (a : ℕ) → a ≡ node_at pool j → (a == l.list.sentinel) ≡ false
  find_node j a e =
      let ne = node_not_head pool w.state j below v.layout in ground (arith, e, sentinel, ne)

  is_gone : gone pool w.state (sxe_list_walker_find l) ≡ true
  unfolding sxe_list_walker_find
  is_gone =
      let same : l.node - l.list.offset ≡ node_at pool i = omega (arith, offset, place) in
      let other : (state_of pool i == w.state) ≡ false = ground (arith, left) in
      rw (find_node i l.node place, same, other) refl

  -- The element before it is still in the state, and the step goes to the one that now follows.
  step_back :
      (j : ℕ)
      → l.back ≡ node_at pool j
      → state_of pool j ≡ w.state
      → (front rest : List ℕ) → view w.state ≡ front ++ j ∷ rest
      → (sxe_pool_walker_step pool taken w).0 ≡ head rest
  unfolding sxe_pool_walker_step next_node sxe_list_walker_back
  step_back j back still front rest e =
      let same : l.back - l.list.offset ≡ node_at pool j = omega (arith, offset, back) in
      let here : (state_of pool j == w.state) ≡ true = ground (arith, still) in
      let split = ap (map (node_at pool)) e ∙ map-append (node_at pool) front (j ∷ rest) in
      let head_of = (pool.queue w.state).sentinel in
      let linked = subst (λ xs. Linked pool.memory head_of xs head_of) split q.holds.linked in
      let fresh = subst (Fresh head_of) split q.holds.fresh in
      let same_list : head_of ≡ l.list.sentinel = q.sentinel ∙ sym sentinel in
      let returned : Walker = record l { node = l.back; back = l.list.sentinel } in
      let next : pool.memory.next l.back ≡ first (map (node_at pool) rest) l.list.sentinel =
        ap pool.memory.next back
        ∙ (Linked-middle pool.memory head_of (map (node_at pool) front) (node_at pool j)
            (map (node_at pool) rest) head_of linked).1
        ∙ ap (first (map (node_at pool) rest)) same_list in
      rw (free, is_gone, find_node j l.back back, same, here)
        (step_first pool w returned rest next
          (subst (λ a. Fresh a (map (node_at pool) rest)) same_list
            (All-after (λ x. head_of ≢ x) (map (node_at pool) front) (map (node_at pool) rest)
              (node_at pool j) fresh))
          offset)

  step_again :
      there pool w.state ((sxe_list_walker_back l).0) ≡ false
      → (sxe_pool_walker_step pool taken w).0 ≡ first_since pool w.last (view w.state)
  unfolding sxe_pool_walker_step next_node sxe_list_walker_construct
  step_again away =
      rw (free, is_gone, away)
        (rewalk-first_since pool w w.last (sxe_list_walker_construct (pool.queue w.state))
          (view w.state) (suc ((pool.queue w.state).length)) q.holds.linked q.holds.fresh q.offset
          (omega (arith, q.holds.counted, length-map (node_at pool) (view w.state))))

  -- A step from an element that has left the state that is walked, of a pool that is in order again
  -- and can be locked, where the element that was stepped from before it, if there was one, is known.
  -- If that one is still in the state, the step gives the one that follows it now, or no index at the
  -- end. Otherwise it gives the first element of the state whose time or count is not before the one
  -- that the walker has kept.
  pub sxe_pool_walker_step-first_since :
      (l.back ≡ queue_at pool w.state) ⊎ ((j : ℕ) × ((j < pool.number) × (l.back ≡ node_at pool j)))
      → ((j : ℕ) × ((front : List ℕ) × ((rest : List ℕ) × ((l.back ≡ node_at pool j)
                × (view w.state ≡ front ++ j ∷ rest)
                × ((sxe_pool_walker_step pool taken w).0 ≡ head rest)))))
        ⊎ (((j : ℕ) → j < pool.number → l.back ≡ node_at pool j → state_of pool j ≢ w.state)
            × ((sxe_pool_walker_step pool taken w).0 ≡ first_since pool w.last (view w.state)))
  unfolding sxe_list_walker_back
  sxe_pool_walker_step-first_since (inl top) =
      let none_before : (l.back == l.list.sentinel) ≡ true = ground (arith, top, sentinel) in
      inr (
        λ j h e. absurd (node_not_head pool w.state j below v.layout (sym e ∙ top)),
        step_again (rw none_before refl),
      )
  sxe_pool_walker_step-first_since (inr (j, (h, back))) =
      elim (Bool-cases (state_of pool j == w.state)) [
        | inl here ↦
            let still : state_of pool j ≡ w.state = ==→eq _ _ here in
            let (front, (rest, e)) = subst (λ t. On j (view t)) still (v.placed j h) in
            inl (j, (front, (rest, (back, e, step_back j back still front rest e))))
        | inr other ↦
            let same : l.back - l.list.offset ≡ node_at pool j = omega (arith, offset, back) in
            inr (
              λ k h' e f.
                  let still = ap pool.memory.id (sym back ∙ e) ∙ f in
                  absurd (ground (arith, other, still)),
              step_again (rw (find_node j l.back back, same, other) refl),
            )
      ]
