-- ===== src/SxePool/Stays.antt =====
-- A pool of lib-sxe-pool stays in order when an element changes its state.
use libkit.Common.{
  ℕ, ◌+◌, ◌<◌, ◌^◌, ◌==◌, [], ◌∷◌, ◌++◌, length, length-append, ◌≡◌, ◌≢◌, refl, sym, ◌∙◌, ap, All,
  All-append, arith, Bool-cases, inl, inr, ==→eq, ==_self,
}
use mathlib.Core.Path.{subst}
use libkit.SxeList.Linked.{Fresh}
use libkit.SxeList.Holds.{length-insert}
use libkit.SxeList.Removal.{remove_ids}
use libkit.SxeList.Deque.{without}
use libkit.SxePool.Defs.{Pool, node_at, state_of, stamp, push_node, remove_node}
use libkit.SxePool.Queues.{View, Queue, Layout}
use libkit.SxePool.Joins.{push_node-Queue, push_node-other, push_node-state, push_node-state_else}
use libkit.SxePool.Valid.{total, On, Valid, total-set_view, length-total, left, moved}
use libkit.SxePool.Change.{
  old_below, place, rest, left_queues, left-Fresh, On-without, On-append, All-without, stamp-Queue,
}

module _ (pool : Pool) (view : View) (v : Valid pool view) (now i old new : ℕ)
    (known : i < pool.number) (was : state_of pool i ≡ old) (below : new < pool.states) where
  abbrev after : Pool
  after = push_node new i (stamp now i (remove_node old i pool))

  abbrev before : Pool
  before = stamp now i (remove_node old i pool)

  before-Queue : (s : ℕ) → s < pool.states → Queue before s (left view i old s)
  before-Queue s h =
      stamp-Queue now i (remove_node old i pool) s (left view i old s)
        (left_queues pool view v now i old new known was below s h)

  away : (s : ℕ) → s < pool.states → Fresh i (left view i old s)
  away = left-Fresh pool view v now i old new known was below

  before-Layout : Layout before
  unfolding stamp remove_node
  before-Layout = v.layout

  same_states : before.states ≡ pool.states
  unfolding stamp remove_node
  same_states = refl

  total-left : total (left view i old) pool.states + 1 ≡ pool.number
  total-left =
      let e = rest pool view v now i old new known was below in
      let (front, (back, split)) = place pool view v now i old new known was below in
      omega (
        arith,
        total-set_view view old pool.states (without i (view old))
            (old_below pool view v now i old new known was below),
        ap length e,
        ap length split,
        length-insert front back i,
        v.all_elements,
      )

  in_before : (s : ℕ) → s < pool.states → s < before.states
  in_before s h = subst (λ n. s < n) (sym same_states) h

  room : length (left view i old new) + 1 < 2 ^ 32
  room = omega (arith, length-total (left view i old) new pool.states below, total-left, v.few)

  joined_queues : (s : ℕ) → s < pool.states → Queue after s (moved view i old new s)
  joined_queues s h = elim (Bool-cases (s == new)) [
    | inl here ↦
        let e : s ≡ new = ==→eq s new here in
        rw here (
          subst (λ t. Queue after t (left view i old new ++ i ∷ [])) (sym e)
            (push_node-Queue before new i (left view i old new) (before-Queue new below)
              (in_before new below) before-Layout (away new below) room))
    | inr other ↦
        let ne : s ≢ new = λ e. absurd (ground (arith, other, e)) in
        rw other (
          push_node-other before new i (left view i old new) (before-Queue new below)
            (in_before new below) before-Layout (away new below) room s (left view i old s) ne
            (in_before s h) (away s h) (before-Queue s h))
  ]

  now_in : state_of after i ≡ new
  now_in =
      push_node-state before new i (left view i old new) (before-Queue new below)
        (in_before new below) before-Layout (away new below) room

  still_in : (j : ℕ) → j ≢ i → state_of after j ≡ state_of pool j
  unfolding stamp remove_node
  still_in j ne =
      push_node-state_else before new i (left view i old new) (before-Queue new below)
        (in_before new below) before-Layout (away new below) room j ne
      ∙ remove_ids pool.memory (pool.queue old) (node_at pool i) (node_at pool j)

  still_on : (j : ℕ) → j ≢ i → (s : ℕ) → On j (view s) → On j (left view i old s)
  still_on j ne s (front, (back, e)) = elim (Bool-cases (s == old)) [
    | inl here ↦
        let same : s ≡ old = ==→eq s old here in
        rw here
          (subst (λ xs. On j (without i xs)) (sym e ∙ ap view same) (On-without i j front back ne))
    | inr other ↦ rw other (front, (back, e))
  ]

  joined_on : (j : ℕ) → j ≢ i → (s : ℕ) → On j (view s) → On j (moved view i old new s)
  joined_on j ne s on = elim (Bool-cases (s == new)) [
    | inl here ↦
        let same : s ≡ new = ==→eq s new here in
        rw here (
          On-append j (left view i old new) (i ∷ [])
            (subst (λ t. On j (left view i old t)) same (still_on j ne s on)))
    | inr other ↦ rw other (still_on j ne s on)
  ]

  joined_inside : (s : ℕ) → s < pool.states → All (λ j. j < pool.number) (moved view i old new s)
  joined_inside s h = elim (Bool-cases (s == new)) [
    | inl here ↦ rw here (
        All-append (λ j. j < pool.number) (left view i old new) (i ∷ []) (left_inside new below)
          (known, tt))
    | inr other ↦ rw other (left_inside s h)
  ]
    where
      left_inside : (s : ℕ) → s < pool.states → All (λ j. j < pool.number) (left view i old s)
      left_inside s h = elim (Bool-cases (s == old)) [
        | inl here ↦ rw here (
            All-without (λ j. j < pool.number) i (view old)
              (v.inside old (old_below pool view v now i old new known was below)))
        | inr other ↦ rw other (v.inside s h)
      ]

  joined_total : total (moved view i old new) pool.states ≡ pool.number
  joined_total = omega (
    arith,
    total-set_view (left view i old) new pool.states (left view i old new ++ i ∷ []) below,
    length-append (left view i old new) (i ∷ []),
    total-left,
  )

  joined_states : (j : ℕ) → j < pool.number → state_of after j < pool.states
  joined_states j h = elim (Bool-cases (j == i)) [
    | inl here ↦
        subst (λ s. s < pool.states) (sym (ap (state_of after) (==→eq j i here) ∙ now_in)) below
    | inr other ↦
        let ne : j ≢ i = λ e. absurd (ground (arith, other, e)) in
        subst (λ s. s < pool.states) (sym (still_in j ne)) (v.states j h)
  ]

  joined_placed : (j : ℕ) → j < pool.number → On j (moved view i old new (state_of after j))
  joined_placed j h = elim (Bool-cases (j == i)) [
    | inl here ↦
        let e = ==→eq j i here in
        let last : On i (moved view i old new new) =
          rw (==_self new) (left view i old new, ([], refl)) in
        subst (λ k. On k (moved view i old new (state_of after k))) (sym e)
          (subst (λ s. On i (moved view i old new s)) (sym now_in) last)
    | inr other ↦
        let ne : j ≢ i = λ e. absurd (ground (arith, other, e)) in
        subst (λ s. On j (moved view i old new s)) (sym (still_in j ne))
          (joined_on j ne (state_of pool j) (v.placed j h))
  ]

  -- The pool is in order again, with the element at the end of its new state's queue.
  pub after-Valid : Valid after (moved view i old new)
  unfolding push_node stamp remove_node
  after-Valid = record {
    layout = v.layout;
    queues = joined_queues;
    inside = joined_inside;
    states = joined_states;
    placed = joined_placed;
    all_elements = joined_total;
    few = v.few;
  }
