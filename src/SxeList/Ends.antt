-- ===== src/SxeList/Ends.antt =====
-- Pushing and unshifting, in lib-sxe-list/sxe-list.c.
use libkit.Common.{
  ℕ, ◌+◌, ◌<◌, ◌^◌, List, [], ◌∷◌, ◌++◌, length, ◌≡◌, ◌≢◌, refl, sym, ◌∙◌, append-nil, arith, u32,
}
use mathlib.Core.Path.{subst}
use libkit.SxeList.Defs.{Memory, SxeList, sxe_list_construct_impl, sxe_list_push, sxe_list_unshift}
use libkit.SxeList.Linked.{last, first, Fresh, Inserted}
use libkit.SxeList.Holds.{Holds, Linked-last, Linked-first, SameIds, Holds-insert}

pub last-Fresh : (s : ℕ) (xs : List ℕ) (n : ℕ) → n ≢ s → Fresh n xs → n ≢ last s xs
last-Fresh s [] n ns away = ns
last-Fresh s (x ∷ xs) n ns away = last-Fresh x xs n away.0 away.1

first-Fresh : (s : ℕ) (xs : List ℕ) (n : ℕ) → n ≢ s → Fresh n xs → n ≢ first xs s
first-Fresh s [] n ns away = ns
first-Fresh s (x ∷ xs) n ns away = away.0

module _ (m : Memory) (list : SxeList) (object : ℕ) where
  abbrev n : ℕ
  n = object + list.offset

  abbrev s : ℕ
  s = list.sentinel

  pub push_Inserted :
      n ≢ s → n ≢ m.prev s → Inserted m ((sxe_list_push m list object).0) (m.prev s) n s
  unfolding sxe_list_push
  push_Inserted ns np = record {
    next_p = ground arith;
    next_n = ground arith;
    prev_q = ground arith;
    prev_n = ground arith;
    next_else = λ y p q. ground arith;
    prev_else = λ y p q. ground arith;
  }

  unshift_Inserted :
      n ≢ s → n ≢ m.next s → Inserted m ((sxe_list_unshift m list object).0) s n (m.next s)
  unfolding sxe_list_unshift
  unshift_Inserted ns np = record {
    next_p = ground arith;
    next_n = ground arith;
    prev_q = ground arith;
    prev_n = ground arith;
    next_else = λ y p q. ground arith;
    prev_else = λ y p q. ground arith;
  }

  pub push_ids :
      n ≢ s
      → SameIds m ((sxe_list_push m list object).0) n
        × ((sxe_list_push m list object).0.id n ≡ m.id s)
  unfolding sxe_list_push
  push_ids ns = (λ y p. ground arith, ground arith)

  unshift_ids :
      n ≢ s
      → SameIds m ((sxe_list_unshift m list object).0) n
        × ((sxe_list_unshift m list object).0.id n ≡ m.id s)
  unfolding sxe_list_unshift
  unshift_ids ns = (λ y p. ground arith, ground arith)

  module _ (xs : List ℕ) (h : Holds m list xs) (ns : n ≢ s) (away : Fresh n xs)
      (room : length xs + 1 < 2 ^ 32) where
    grown : u32 (list.length + 1) ≡ list.length + 1
    grown = omega (arith, h.counted)

    -- Pushing an object whose node is not on the list puts its node at the tail.
    pub sxe_list_push-Holds :
        let (m', list') = sxe_list_push m list object in Holds m' list' (xs ++ n ∷ [])
    unfolding sxe_list_push
    sxe_list_push-Holds =
        let tail = Linked-last m s xs s h.linked in
        let (same, id) = push_ids ns in
        let i = push_Inserted ns (λ e. last-Fresh s xs n ns away (e ∙ tail)) in
        let whole = sym (append-nil xs) in
        let m' = (sxe_list_push m list object).0 in
        Holds-insert m m' list xs [] n (u32 (list.length + 1))
          (subst (λ p. Inserted m m' p n s) tail i) same id ns (subst (Fresh n) whole away)
          (omega arith) grown (subst (Holds m list) whole h)

    -- Unshifting it puts it at the head.
    pub sxe_list_unshift-Holds :
        let (m', list') = sxe_list_unshift m list object in Holds m' list' (n ∷ xs)
    unfolding sxe_list_unshift
    sxe_list_unshift-Holds =
        let head = Linked-first m s xs s h.linked in
        let (same, id) = unshift_ids ns in
        let i = unshift_Inserted ns (λ e. first-Fresh s xs n ns away (e ∙ head)) in
        let m' = (sxe_list_unshift m list object).0 in
        Holds-insert m m' list [] xs n (u32 (list.length + 1))
          (subst (λ q. Inserted m m' s n q) head i) same id ns away (omega arith) grown h

-- A list that has just been constructed is empty, whatever memory held.
pub sxe_list_construct_impl-Holds :
    (m : Memory) (list id offset : ℕ)
    → let (m', list') = sxe_list_construct_impl m list id offset in
      Holds m' list' [] × (m'.id list ≡ id)
unfolding sxe_list_construct_impl
sxe_list_construct_impl-Holds m list id offset = (
  record {
    linked = (ground arith, ground arith);
    distinct = tt;
    fresh = tt;
    ids = tt;
    counted = refl;
    offsets = tt;
  },
  ground arith,
)
