-- ===== src/SxeList/Walk.antt =====
-- Walking a list, with lib-sxe-list/sxe-list-walker.c.
use libkit.Common.{
  ℕ, zero, suc, ◌-◌, ◌<◌, ◌==◌, List, [], ◌∷◌, map, length, ◌≡◌, ◌≢◌, refl, ◌∙◌, ap, arith, false,
  ==_self, none, some,
}
use libkit.SxeList.Defs.{
  Memory, SxeList, Walker, sxe_list_walker_construct, sxe_list_walker_back, sxe_list_walker_find,
  sxe_list_walker_step,
}
use libkit.SxeList.Linked.{Linked, Fresh}
use libkit.SxeList.Holds.{Holds}

-- `while ((object = sxe_list_walker_step(&walker)) != NULL)`: the objects that the body sees, in at
-- most so many rounds.
unfoldable pub visits : ℕ → Memory → Walker → List ℕ
visits zero m walker = []
visits (suc rounds) m walker =
    let (object, walker') = sxe_list_walker_step m walker in
    let rest = visits rounds m walker' in elim object [ none ↦ [] | some x ↦ x ∷ rest ]

visits_from :
    (m : Memory) (list : SxeList) (a back : ℕ) (xs : List ℕ) (rounds : ℕ)
    → Linked m a xs list.sentinel
    → Fresh list.sentinel xs
    → length xs < rounds
    → visits rounds m (record { list = list; back = back; node = a })
      ≡ map (λ x. x - list.offset) xs
unfolding visits sxe_list_walker_step sxe_list_walker_find
visits_from m list a back xs zero h away enough = absurd (omega arith)
visits_from m list a back [] (suc rounds) h away enough =
    rw (visits, h.0, ==_self (list.sentinel)) refl
visits_from m list a back (x ∷ xs) (suc rounds) h away enough =
    let other : (x == list.sentinel) ≡ false = ground (arith, away.0) in
    rw (visits, h.0, other)
      (ap (λ y. (x - list.offset) ∷ visits rounds m (record { list = list; back = a; node = y }))
          h.0
        ∙ ap (λ t. (x - list.offset) ∷ t)
            (visits_from m list x a xs rounds h.2 away.1 (omega arith)))

-- A walk from a walker that has just been constructed sees each object of the list once, from the
-- head to the tail, and ends, in as many rounds as the list has objects and one more.
pub visits-sxe_list_walker_construct :
    (m : Memory) (list : SxeList) (xs : List ℕ) (rounds : ℕ)
    → Holds m list xs
    → length xs < rounds
    → visits rounds m (sxe_list_walker_construct list) ≡ map (λ x. x - list.offset) xs
unfolding sxe_list_walker_construct
visits-sxe_list_walker_construct m list xs rounds h enough =
    visits_from m list list.sentinel list.sentinel xs rounds h.linked h.fresh enough

-- From a walker on an object, going back after a step returns that object, which the walker is on
-- again; going back a second time returns none and leaves the walker where it is.
pub sxe_list_walker_back-sxe_list_walker_step :
    (m : Memory) (walker : Walker)
    → walker.node ≢ walker.list.sentinel
    → let (object, stepped) = sxe_list_walker_step m walker in
      let (before, returned) = sxe_list_walker_back stepped in
      (before ≡ sxe_list_walker_find walker)
      × (sxe_list_walker_find returned ≡ sxe_list_walker_find walker)
      × (sxe_list_walker_back returned ≡ (none, returned))
unfolding sxe_list_walker_step sxe_list_walker_back sxe_list_walker_find
sxe_list_walker_back-sxe_list_walker_step m walker on =
    let other : (walker.node == walker.list.sentinel) ≡ false = ground (arith, on) in
    rw (other, other, ==_self (walker.list.sentinel)) (refl, refl, refl)
