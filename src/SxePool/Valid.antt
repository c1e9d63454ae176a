-- ===== src/SxePool/Valid.antt =====
-- A pool of lib-sxe-pool that is in order, and the moves of an element between its states.
use libkit.Common.{
  ℕ, zero, suc, ◌+◌, ◌≤◌, ◌<◌, ◌^◌, ◌==◌, false, List, [], ◌∷◌, ◌++◌, length, ◌≡◌, refl, All, arith,
  Bool-cases, inl, inr, ==→eq,
}
use libkit.SxeList.Deque.{without}
use libkit.SxePool.Defs.{Pool, state_of}
use libkit.SxePool.Queues.{View, set_view, Queues, Layout}

-- The number of elements in the first `n` states.
abbrev pub total : View → ℕ → ℕ
total view zero = 0
total view (suc n) = length (view n) + total view n

-- The element `i` has its place in the list.
abbrev pub On : ℕ → List ℕ → Type 0
On i xs = (front : List ℕ) × ((back : List ℕ) × (xs ≡ front ++ i ∷ back))

-- Every state's queue holds its elements, and every element is on the queue of the one state that its
-- node has.
pub record Valid (pool : Pool) (view : View) : Type 0 where
  pub layout : Layout pool
  pub queues : Queues pool view
  pub inside : (s : ℕ) → s < pool.states → All (λ i. i < pool.number) (view s)
  pub states : (i : ℕ) → i < pool.number → state_of pool i < pool.states
  pub placed : (i : ℕ) → i < pool.number → On i (view (state_of pool i))
  pub all_elements : total view pool.states ≡ pool.number
  pub few : pool.number < 2 ^ 32

pub total-set_view :
    (view : View) (s n : ℕ) (xs : List ℕ)
    → s < n
    → total (set_view view s xs) n + length (view s) ≡ total view n + length xs
total-set_view view s zero xs below = absurd (omega arith)
total-set_view view s (suc n) xs below = elim (Bool-cases (n == s)) [
  | inl here ↦
      let e : n ≡ s = ==→eq n s here in
      let rest = total_below view s n xs (omega (arith, e)) in rw (here, rest, e) (omega arith)
  | inr other ↦
      let less : s < n = ground (arith, other) in
      rw other (omega (arith, total-set_view view s n xs less))
]
  where
    total_below :
        (view : View) (s n : ℕ) (xs : List ℕ) → n ≤ s → total (set_view view s xs) n ≡ total view n
    total_below view s zero xs h = refl
    total_below view s (suc n) xs h =
        let other : (n == s) ≡ false = ground (arith, h) in
        rw other (omega (arith, total_below view s n xs (omega arith)))

pub length-total : (view : View) (s n : ℕ) → s < n → length (view s) ≤ total view n
length-total view s zero below = absurd (omega arith)
length-total view s (suc n) below = elim (Bool-cases (n == s)) [
  | inl here ↦ (let e : n ≡ s = ==→eq n s here in rw e (omega arith))
  | inr other ↦
      (let less : s < n = ground (arith, other) in omega (arith, length-total view s n less))
]

-- The states after the element `i` has left the state `old`, and after it has joined the state `new`.
abbrev pub left : View → ℕ → ℕ → View
left view i old = set_view view old (without i (view old))

abbrev pub moved : View → ℕ → ℕ → ℕ → View
moved view i old new = set_view (left view i old) new (left view i old new ++ i ∷ [])
