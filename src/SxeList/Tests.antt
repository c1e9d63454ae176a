-- ===== src/SxeList/Tests.antt =====
-- A run of a list with its nodes at an offset in the objects, and the theorems at it.
use libkit.Common.{◌-◌, List, [], ◌∷◌, map, some, none, ◌≡◌, refl, arith}
use libkit.SxeList.Defs.{
  Memory, SxeList, Walker, sxe_list_construct_impl, sxe_list_push, sxe_list_unshift,
  sxe_list_remove, sxe_list_pop, sxe_list_shift, sxe_list_walker_construct, sxe_list_walker_back,
  sxe_list_walker_find, sxe_list_walker_step, sxe_list_peek_head, sxe_list_peek_tail,
}
use libkit.SxeList.Holds.{Holds}
use libkit.SxeList.Ends.{sxe_list_construct_impl-Holds}
use libkit.SxeList.Walk.{
  visits, visits-sxe_list_walker_construct, sxe_list_walker_back-sxe_list_walker_step,
}
use libkit.SxeList.Deque.{
  Op, push, unshift, remove, pop, shift, performs, meanings, performs-meanings,
}

program : Unit {0}
unfolding sxe_list_construct_impl sxe_list_push sxe_list_unshift sxe_list_remove sxe_list_pop
    sxe_list_shift sxe_list_walker_construct sxe_list_walker_back sxe_list_walker_find
    sxe_list_walker_step sxe_list_peek_head sxe_list_peek_tail visits
program = tt

abbrev blank : Memory
blank = record { next = λ a. 7; prev = λ a. 7; id = λ a. 7 }

-- The list at 50, with nodes 8 bytes into the objects.
abbrev memory : Memory
memory = (sxe_list_construct_impl blank 50 3 8).0

abbrev list : SxeList
list = (sxe_list_construct_impl blank 50 3 8).1

memory-Holds : Holds memory list []
memory-Holds = (sxe_list_construct_impl-Holds blank 50 3 8).0

abbrev ops : List Op
ops = push 100 ∷ unshift 200 ∷ push 300 ∷ remove 100 ∷ pop ∷ shift ∷ pop ∷ []

performs-ops :
    (performs ops memory list).0 ≡ none ∷ none ∷ none ∷ some 100 ∷ some 300 ∷ some 200 ∷ none ∷ []
unfolding program
performs-ops = refl

performs-meanings_example :
    ((performs ops memory list).0 ≡ (meanings ops 8 []).0)
    × Holds
        ((performs ops memory list).1.0)
        ((performs ops memory list).1.1)
        ((meanings ops 8 []).1)
unfolding program
performs-meanings_example = performs-meanings ops memory list [] memory-Holds (
  ground arith,
  omega arith,
  (
    ground arith,
    omega arith,
    (
      ground arith,
      omega arith,
      (
        (208 ∷ [], (308 ∷ [], refl)),
        omega arith,
        (tt, omega arith, (tt, omega arith, (tt, omega arith, tt))),
      ),
    ),
  ),
)

abbrev two : Memory × SxeList
two = sxe_list_push ((sxe_list_push memory list 100).0) ((sxe_list_push memory list 100).1) 200

two-Holds : Holds (two.0) (two.1) (108 ∷ 208 ∷ [])
unfolding program
two-Holds =
    (performs-meanings (push 100 ∷ push 200 ∷ []) memory list [] memory-Holds (ground arith)).1

visits-sxe_list_walker_construct_example :
    visits 3 (two.0) (sxe_list_walker_construct (two.1))
    ≡ map (λ x. x - (two.1).offset) (108 ∷ 208 ∷ [])
visits-sxe_list_walker_construct_example =
    visits-sxe_list_walker_construct (two.0) (two.1) (108 ∷ 208 ∷ []) 3 two-Holds (omega arith)

abbrev on_first : Walker
on_first = record { list = list; back = 50; node = 108 }

back_after_step :
    let (object, stepped) = sxe_list_walker_step (two.0) on_first in
    let (before, returned) = sxe_list_walker_back stepped in
    (before ≡ sxe_list_walker_find on_first)
    × (sxe_list_walker_find returned ≡ sxe_list_walker_find on_first)
    × (sxe_list_walker_back returned ≡ (none, returned))
unfolding program
back_after_step = sxe_list_walker_back-sxe_list_walker_step (two.0) on_first (ground arith)
