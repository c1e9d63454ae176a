-- ===== src/SxePool/Change.antt =====
-- An element that changes its state, in lib-sxe-pool/sxe-pool.c: the queues and the other elements.
use libkit.Common.{
  ℕ, ◌≤◌, ◌<◌, ◌^◌, ◌==◌, false, List, [], ◌∷◌, ◌++◌, length, length-map, map, map-append, ◌≡◌, ◌≢◌,
  refl, sym, ◌∙◌, ap, All, arith, Bool-cases, inl, inr, ==→eq, append_assoc,
}
use mathlib.Core.Path.{subst}
use libkit.SxeList.Linked.{Fresh, Distinct}
use libkit.SxeList.Holds.{All-map, All-middle}
use libkit.SxeList.Deque.{without, without-split}
use libkit.SxePool.Defs.{Pool, node_at, state_of, stamp, push_node, remove_node}
use libkit.SxePool.Queues.{View, Queue, Queue-ids, remove_node-Queue, remove_node-other}
use libkit.SxePool.Valid.{On, Valid, length-total, left}

Distinct-middle : (xs : List ℕ) (n : ℕ) (ys : List ℕ) → Distinct (xs ++ n ∷ ys) → Fresh n (xs ++ ys)
Distinct-middle [] n ys d = d.0
Distinct-middle (x ∷ xs) n ys d =
    ((λ e. All-middle (λ y. x ≢ y) xs ys n d.0 (sym e)), Distinct-middle xs n ys d.1)

Fresh-left : (n : ℕ) (xs ys : List ℕ) → Fresh n (xs ++ ys) → Fresh n xs
Fresh-left n [] ys away = tt
Fresh-left n (x ∷ xs) ys away = (away.0, Fresh-left n xs ys away.1)

Fresh-index :
    (pool : Pool) (i : ℕ) (xs : List ℕ)
    → Fresh (node_at pool i) (map (node_at pool) xs)
    → Fresh i xs
Fresh-index pool i [] away = tt
Fresh-index pool i (x ∷ xs) away = (λ e. away.0 (ap (node_at pool) e), Fresh-index pool i xs away.1)

pub On-without : (i j : ℕ) (front back : List ℕ) → j ≢ i → On j (without i (front ++ j ∷ back))
On-without i j [] back ne =
    let other : (j == i) ≡ false = ground (arith, ne) in rw other ([], (without i back, refl))
On-without i j (x ∷ front) back ne = elim (Bool-cases (x == i)) [
  | inl here ↦ rw here (front, (back, refl))
  | inr other ↦
      let (front', (back', e)) = On-without i j front back ne in
      rw other (x ∷ front', (back', ap (λ t. x ∷ t) e))
]

pub On-append : (i : ℕ) (xs ys : List ℕ) → On i xs → On i (xs ++ ys)
On-append i xs ys (front, (back, e)) =
    (front, (back ++ ys, ap (λ t. t ++ ys) e ∙ append_assoc front (i ∷ back) ys))

pub All-without : (P : ℕ → Type 0) (i : ℕ) (xs : List ℕ) → All P xs → All P (without i xs)
All-without P i [] h = tt
All-without P i (x ∷ xs) h = elim (Bool-cases (x == i)) [
  | inl here ↦ rw here h.1
  | inr other ↦ rw other (h.0, All-without P i xs h.1)
]

-- Only times and counts change.
pub stamp-Queue :
    (now id : ℕ) (pool : Pool) (s : ℕ) (xs : List ℕ)
    → Queue pool s xs
    → Queue (stamp now id pool) s xs
unfolding stamp
stamp-Queue now id pool s xs q = record {
  sentinel = q.sentinel;
  offset = q.offset;
  id = q.id;
  holds = q.holds;
}

module _ (pool : Pool) (view : View) (v : Valid pool view) (now i old new : ℕ)
    (known : i < pool.number) (was : state_of pool i ≡ old) (below : new < pool.states) where
  abbrev pub removed : Pool
  removed = remove_node old i pool

  abbrev pub stamped : Pool
  stamped = stamp now i removed

  abbrev pub result : Pool
  result = push_node new i stamped

  pub old_below : old < pool.states
  old_below = subst (λ s. s < pool.states) was (v.states i known)

  pub place : On i (view old)
  place = subst (λ s. On i (view s)) was (v.placed i known)

  abbrev front : List ℕ
  front = place.0

  abbrev back : List ℕ
  back = place.1.0

  with-Queue : Queue pool old (front ++ i ∷ back)
  with-Queue = subst (Queue pool old) place.1.1 (v.queues old old_below)

  apart : Fresh i (front ++ back)
  apart = Fresh-index pool i (front ++ back) (
      subst (Fresh (node_at pool i)) (sym (map-append (node_at pool) front back)) (
        Distinct-middle (map (node_at pool) front) (node_at pool i) (map (node_at pool) back)
          (subst Distinct (map-append (node_at pool) front (i ∷ back)) with-Queue.holds.distinct)))

  pub rest : without i (view old) ≡ front ++ back
  rest = ap (without i) place.1.1 ∙ without-split i front back (Fresh-left i front back apart)

  pub short : (s : ℕ) → s < pool.states → length (view s) ≤ pool.number
  short s h = omega (arith, length-total view s pool.states h, v.all_elements)

  size : (pool.queue old).length < 2 ^ 32
  size = omega (
    arith,
    with-Queue.holds.counted,
    length-map (node_at pool) (front ++ i ∷ back),
    ap length place.1.1,
    short old old_below,
    v.few,
  )

  pub left_queues : (s : ℕ) → s < pool.states → Queue removed s (left view i old s)
  left_queues s h = elim (Bool-cases (s == old)) [
    | inl here ↦
        let e : s ≡ old = ==→eq s old here in
        rw here (
          subst (λ t. Queue removed t (without i (view old))) (sym e)
            (subst (Queue removed old) (sym rest)
              (remove_node-Queue pool old i front back with-Queue size)))
    | inr other ↦
        let ne : s ≢ old = λ e. absurd (ground (arith, other, e)) in
        rw other
          (remove_node-other pool old i front back with-Queue size s (view s) ne (v.queues s h))
  ]

  pub left-Fresh : (s : ℕ) → s < pool.states → Fresh i (left view i old s)
  left-Fresh s h = elim (Bool-cases (s == old)) [
    | inl here ↦ rw here (subst (Fresh i) (sym rest) apart)
    | inr other ↦
        let ne : s ≢ old = λ e. absurd (ground (arith, other, e)) in
        rw other (
          All-map (λ j. state_of pool j ≡ s) (view s)
            (λ j e f. ne (sym e ∙ ap (state_of pool) (sym f) ∙ was))
            (Queue-ids pool (v.queues s h)))
  ]
