-- ===== src/SxeList/Removal.antt =====
-- Removing, popping, shifting and peeking, in lib-sxe-list/sxe-list.c.
use libkit.Common.{
  ℕ, ◌+◌, ◌-◌, ◌≤◌, ◌<◌, ◌^◌, ◌==◌, List, [], ◌∷◌, ◌++◌, ◌≡◌, ◌≢◌, refl, sym, ◌∙◌, ap, append-nil,
  arith, false, ==_self, u32, Option, none, some,
}
use mathlib.Core.Path.{subst}
use libkit.SxeList.Defs.{
  Memory, SxeList, sxe_list_remove, sxe_list_pop, sxe_list_shift, sxe_list_peek_head,
  sxe_list_peek_tail,
}
use libkit.SxeList.Linked.{last, first, Fresh, Distinct, Removed}
use libkit.SxeList.Holds.{
  Holds, Linked-last, Linked-middle, Holds-remove, length-insert, All-middle,
}

pub ne_last :
    (s : ℕ) (xs : List ℕ) (n : ℕ) (ys : List ℕ)
    → Fresh s (xs ++ n ∷ ys)
    → Distinct (xs ++ n ∷ ys)
    → n ≢ last s xs
ne_last s [] n ys away d = λ e. away.0 (sym e)
ne_last s (x ∷ xs) n ys away d = ne_last x xs n ys d.0 d.1

pub ne_first :
    (s : ℕ) (xs : List ℕ) (n : ℕ) (ys : List ℕ)
    → Fresh s (xs ++ n ∷ ys)
    → Distinct (xs ++ n ∷ ys)
    → n ≢ first ys s
ne_first s [] n [] away d = λ e. away.0 (sym e)
ne_first s [] n (y ∷ ys) away d = d.0.0
ne_first s (x ∷ xs) n ys away d = ne_first s xs n ys away.1 d.1

Fresh-last : (s x : ℕ) (xs : List ℕ) → Fresh s (x ∷ xs) → s ≢ last x xs
Fresh-last s x [] away = away.0
Fresh-last s x (y ∷ xs) away = Fresh-last s y xs away.1

module _ (m : Memory) (list : SxeList) (object : ℕ) where
  abbrev n : ℕ
  n = object + list.offset

  abbrev s : ℕ
  s = list.sentinel

  pub remove_Removed :
      n ≢ m.prev n
      → n ≢ m.next n
      → Removed m ((sxe_list_remove m list object).0) (m.prev n) n (m.next n)
  unfolding sxe_list_remove
  remove_Removed np nq = record {
    next_p = ground arith;
    prev_q = ground arith;
    next_else = λ y p q. ground arith;
    prev_else = λ y p q. ground arith;
  }

  pub remove_ids : (y : ℕ) → (sxe_list_remove m list object).0.id y ≡ m.id y
  unfolding sxe_list_remove
  remove_ids y = refl

  module _ (xs ys : List ℕ) (h : Holds m list (xs ++ n ∷ ys)) (small : list.length < 2 ^ 32) where
    -- Removing an object whose node is on the list takes its node out.
    pub sxe_list_remove-Holds :
        let (m', list') = sxe_list_remove m list object in Holds m' list' (xs ++ ys)
    unfolding sxe_list_remove
    sxe_list_remove-Holds =
        let (before, after) = Linked-middle m s xs n ys s h.linked in
        let r =
          remove_Removed (λ e. ne_last s xs n ys h.fresh h.distinct (e ∙ before))
            (λ e. ne_first s xs n ys h.fresh h.distinct (e ∙ after)) in
        let m' = (sxe_list_remove m list object).0 in
        let shrunk : u32 (list.length + (2 ^ 32 - 1)) + 1 ≡ list.length =
          omega (arith, small, h.counted, length-insert xs ys n) in
        Holds-remove m m' list xs ys n (u32 (list.length + (2 ^ 32 - 1)))
          (subst (λ p. Removed m m' p n (first ys s)) before
            (subst (λ q. Removed m m' (m.prev n) n q) after r))
          remove_ids shrunk h

abbrev pub init : ℕ → List ℕ → List ℕ
init x [] = []
init x (y ∷ xs) = x ∷ init y xs

init-last : (x : ℕ) (xs : List ℕ) → x ∷ xs ≡ init x xs ++ last x xs ∷ []
init-last x [] = refl
init-last x (y ∷ xs) = ap (λ t. x ∷ t) (init-last y xs)

-- The object at either end and the list without it.
abbrev pub popped : ℕ → List ℕ → Option ℕ × List ℕ
popped offset [] = (none, [])
popped offset (x ∷ xs) = (some (last x xs - offset), init x xs)

abbrev pub shifted : ℕ → List ℕ → Option ℕ × List ℕ
shifted offset [] = (none, [])
shifted offset (x ∷ xs) = (some (x - offset), xs)

module _ (m : Memory) (list : SxeList) (small : list.length < 2 ^ 32) where
  -- Peeking shows the object at the end, without a change.
  pub sxe_list_peek_head-shifted :
      (xs : List ℕ) → Holds m list xs → sxe_list_peek_head m list ≡ (shifted list.offset xs).0
  unfolding sxe_list_peek_head
  sxe_list_peek_head-shifted [] h = rw (h.linked.0, ==_self (list.sentinel)) refl
  sxe_list_peek_head-shifted (x ∷ xs) h =
      let other : (x == list.sentinel) ≡ false = ground (arith, h.fresh.0) in
      rw (h.linked.0, other) refl

  pub sxe_list_peek_tail-popped :
      (xs : List ℕ) → Holds m list xs → sxe_list_peek_tail m list ≡ (popped list.offset xs).0
  unfolding sxe_list_peek_tail
  sxe_list_peek_tail-popped [] h = rw (h.linked.1, ==_self (list.sentinel)) refl
  sxe_list_peek_tail-popped (x ∷ xs) h =
      let tail = Linked-last m list.sentinel (x ∷ xs) list.sentinel h.linked in
      let other : (last x xs == list.sentinel) ≡ false =
        ground (arith, Fresh-last list.sentinel x xs h.fresh) in
      rw (tail, other) refl

  pub sxe_list_shift-Holds :
      (xs : List ℕ)
      → Holds m list xs
      → let (object, (m', list')) = sxe_list_shift m list in
        (object ≡ (shifted list.offset xs).0) × Holds m' list' (shifted list.offset xs).1
  unfolding sxe_list_shift
  sxe_list_shift-Holds [] h = rw (h.linked.0, ==_self (list.sentinel)) (refl, h)
  sxe_list_shift-Holds (x ∷ xs) h =
      let other : (x == list.sentinel) ≡ false = ground (arith, h.fresh.0) in
      let there : x - list.offset + list.offset ≡ x = omega (arith, h.offsets.0) in
      rw (h.linked.0, other)
        (
          refl,
          sxe_list_remove-Holds m list (x - list.offset) [] xs
              (subst (λ n. Holds m list (n ∷ xs)) (sym there) h) small,
        )

  pub sxe_list_pop-Holds :
      (xs : List ℕ)
      → Holds m list xs
      → let (object, (m', list')) = sxe_list_pop m list in
        (object ≡ (popped list.offset xs).0) × Holds m' list' (popped list.offset xs).1
  unfolding sxe_list_pop
  sxe_list_pop-Holds [] h = rw (h.linked.1, ==_self (list.sentinel)) (refl, h)
  sxe_list_pop-Holds (x ∷ xs) h =
      let z = last x xs in
      let tail = Linked-last m list.sentinel (x ∷ xs) list.sentinel h.linked in
      let other : (z == list.sentinel) ≡ false =
        ground (arith, Fresh-last list.sentinel x xs h.fresh) in
      let split = subst (Holds m list) (init-last x xs) h in
      let offset = All-middle (λ y. list.offset ≤ y) (init x xs) [] z split.offsets in
      let there : z - list.offset + list.offset ≡ z = omega (arith, offset) in
      rw (tail, other)
        (
          refl,
          subst
              (λ t.
                Holds ((sxe_list_remove m list (z - list.offset)).0)
                  ((sxe_list_remove m list (z - list.offset)).1) t)
              (append-nil (init x xs))
              (sxe_list_remove-Holds m list (z - list.offset) (init x xs) []
                (subst (λ n. Holds m list (init x xs ++ n ∷ [])) (sym there) split) small),
        )
