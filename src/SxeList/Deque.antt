-- ===== src/SxeList/Deque.antt =====
-- A double-ended queue of objects, and that lib-sxe-list/sxe-list.c implements it.
use libkit.Common.{
  ℕ, ◌+◌, ◌<◌, ◌^◌, ◌==◌, ==_self, List, [], ◌∷◌, ◌++◌, length, ◌≡◌, ◌≢◌, refl, sym, ◌∙◌, ap, ap₂,
  arith, false, if◌then◌else◌, Option, none, some,
}
use mathlib.Core.Path.{subst}
use libkit.SxeList.Defs.{
  Memory, SxeList, sxe_list_push, sxe_list_unshift, sxe_list_remove, sxe_list_pop, sxe_list_shift,
}
use libkit.SxeList.Linked.{Fresh, Distinct, Fresh-middle}
use libkit.SxeList.Holds.{Holds}
use libkit.SxeList.Ends.{sxe_list_push-Holds, sxe_list_unshift-Holds}
use libkit.SxeList.Removal.{
  popped, shifted, sxe_list_remove-Holds, sxe_list_pop-Holds, sxe_list_shift-Holds,
}

-- The operations, with the objects that they are given.
pub data Op : Type 0 where
  push unshift remove : ℕ → Op
  pop shift : Op

-- What the code returns, and what it leaves.
abbrev pub perform : Op → Memory → SxeList → Option ℕ × (Memory × SxeList)
perform (push object) m list = (none, sxe_list_push m list object)
perform (unshift object) m list = (none, sxe_list_unshift m list object)
perform (remove object) m list = (some object, sxe_list_remove m list object)
perform pop m list = sxe_list_pop m list
perform shift m list = sxe_list_shift m list

-- The same on a sequence of nodes, without a memory.
abbrev pub without : ℕ → List ℕ → List ℕ
without n [] = []
without n (x ∷ xs) = if x == n then xs else x ∷ without n xs

-- A list is given by its sentinel and its offset, which no operation changes.
abbrev pub meant : Op → ℕ → List ℕ → Option ℕ × List ℕ
meant (push object) offset xs = (none, xs ++ (object + offset) ∷ [])
meant (unshift object) offset xs = (none, (object + offset) ∷ xs)
meant (remove object) offset xs = (some object, without (object + offset) xs)
meant pop offset xs = popped offset xs
meant shift offset xs = shifted offset xs

-- A new node is not on the list and not its sentinel; a node to remove is on it.
abbrev pub Allowed : Op → ℕ → ℕ → List ℕ → Type 0
Allowed (push object) sentinel offset xs =
    (object + offset ≢ sentinel) × Fresh (object + offset) xs × (length xs + 1 < 2 ^ 32)
Allowed (unshift object) sentinel offset xs =
    (object + offset ≢ sentinel) × Fresh (object + offset) xs × (length xs + 1 < 2 ^ 32)
Allowed (remove object) sentinel offset xs =
    (front : List ℕ) × ((back : List ℕ) × (xs ≡ front ++ (object + offset) ∷ back))
Allowed pop sentinel offset xs = Unit
Allowed shift sentinel offset xs = Unit

same_place :
    (op : Op) (m : Memory) (list : SxeList)
    → let list' = (perform op m list).1.1 in
      (list'.sentinel ≡ list.sentinel) × (list'.offset ≡ list.offset)
unfolding sxe_list_push sxe_list_unshift sxe_list_remove sxe_list_pop sxe_list_shift
same_place (push object) m list = (refl, refl)
same_place (unshift object) m list = (refl, refl)
same_place (remove object) m list = (refl, refl)
same_place pop m list = ground arith
same_place shift m list = ground arith

pub without-split :
    (n : ℕ) (front back : List ℕ) → Fresh n front → without n (front ++ n ∷ back) ≡ front ++ back
without-split n [] back away = rw (==_self n) refl
without-split n (x ∷ front) back away =
    let other : (x == n) ≡ false = ground (arith, away.0) in
    rw other (ap (λ t. x ∷ t) (without-split n front back away.1))

pub Fresh-front : (n : ℕ) (front back : List ℕ) → Distinct (front ++ n ∷ back) → Fresh n front
Fresh-front n [] back d = tt
Fresh-front n (x ∷ front) back d =
    (λ e. Fresh-middle front back x n d.0 (sym e), Fresh-front n front back d.1)

-- One operation, allowed on a list of fewer than 2^32 objects: the result and the list are as meant.
perform-Holds :
    (op : Op) (m : Memory) (list : SxeList) (xs : List ℕ)
    → Holds m list xs
    → length xs < 2 ^ 32
    → Allowed op list.sentinel list.offset xs
    → let (object, (m', list')) = perform op m list in
      (object ≡ (meant op list.offset xs).0) × Holds m' list' (meant op list.offset xs).1
perform-Holds (push object) m list xs h small (ne, away, room) =
    (refl, sxe_list_push-Holds m list object xs h ne away room)
perform-Holds (unshift object) m list xs h small (ne, away, room) =
    (refl, sxe_list_unshift-Holds m list object xs h ne away room)
perform-Holds (remove object) m list xs h small (front, (back, e)) =
    let n = object + list.offset in
    let split = subst (Holds m list) e h in
    let rest : without n xs ≡ front ++ back =
      ap (without n) e ∙ without-split n front back (Fresh-front n front back split.distinct) in
    (
      refl,
      subst (Holds ((sxe_list_remove m list object).0) ((sxe_list_remove m list object).1))
          (sym rest)
          (sxe_list_remove-Holds m list object front back split (omega (arith, h.counted))),
    )
perform-Holds pop m list xs h small allowed =
    sxe_list_pop-Holds m list (omega (arith, h.counted)) xs h
perform-Holds shift m list xs h small allowed =
    sxe_list_shift-Holds m list (omega (arith, h.counted)) xs h

-- A run of operations: what they return, and what they leave.
abbrev pub performs : List Op → Memory → SxeList → List (Option ℕ) × (Memory × SxeList)
performs [] m list = ([], (m, list))
performs (op ∷ ops) m list =
    let (object, (m', list')) = perform op m list in
    let (objects, rest) = performs ops m' list' in (object ∷ objects, rest)

abbrev pub meanings : List Op → ℕ → List ℕ → List (Option ℕ) × List ℕ
meanings [] offset xs = ([], xs)
meanings (op ∷ ops) offset xs =
    let (object, xs') = meant op offset xs in
    let (objects, rest) = meanings ops offset xs' in (object ∷ objects, rest)

-- Every operation is allowed where it is performed.
abbrev pub AllAllowed : List Op → ℕ → ℕ → List ℕ → Type 0
AllAllowed [] sentinel offset xs = Unit
AllAllowed (op ∷ ops) sentinel offset xs =
    Allowed op sentinel offset xs
    × (length xs < 2 ^ 32)
    × AllAllowed ops sentinel offset (meant op offset xs).1

-- Any run of allowed operations on a list in memory returns what the same run on a sequence of nodes
-- returns, and leaves in memory the list of the nodes that it leaves.
pub performs-meanings :
    (ops : List Op) (m : Memory) (list : SxeList) (xs : List ℕ)
    → Holds m list xs
    → AllAllowed ops list.sentinel list.offset xs
    → let (objects, (m', list')) = performs ops m list in
      (objects ≡ (meanings ops list.offset xs).0) × Holds m' list' (meanings ops list.offset xs).1
performs-meanings [] m list xs h allowed = (refl, h)
performs-meanings (op ∷ ops) m list xs h (allowed, small, rest) =
    let (object, h') = perform-Holds op m list xs h small allowed in
    let m' = (perform op m list).1.0 in
    let list' = (perform op m list).1.1 in
    let xs' = (meant op list.offset xs).1 in
    let (sentinel, offset) = same_place op m list in
    let rest' =
      subst (λ t. AllAllowed ops t list'.offset xs') (sym sentinel)
        (subst (λ t. AllAllowed ops list.sentinel t xs') (sym offset) rest) in
    let (objects, h'') = performs-meanings ops m' list' xs' h' rest' in
    (
      ap₂ (λ o os. o ∷ os) object (objects ∙ ap (λ t. (meanings ops t xs').0) offset),
      subst
          (λ t.
            Holds ((performs ops m' list').1.0) ((performs ops m' list').1.1)
              (meanings ops t xs').1)
          offset h'',
    )
