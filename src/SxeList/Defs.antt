-- ===== src/SxeList/Defs.antt =====
-- lib-sxe-list/sxe-list.c and sxe-list-walker.c: doubly linked lists through a sentinel.
use libkit.Common.{ℕ, ◌+◌, ◌-◌, ◌^◌, ◌==◌, if◌then◌else◌, Option, none, some, u32}

-- The nodes in memory, field by field, at their addresses. A relative pointer is written as the
-- address that `SXE_PTR_FIX` makes of it, so `NULL_REL` is 0, the null pointer.
pub record Memory : Type 0 where
  pub next : ℕ → ℕ
  pub prev : ℕ → ℕ
  pub id : ℕ → ℕ

abbrev pub update : (ℕ → ℕ) → ℕ → ℕ → ℕ → ℕ
update f a v x = if x == a then v else f x

abbrev pub set_next : Memory → ℕ → ℕ → Memory
set_next m a v = record m { next = update m.next a v }

abbrev pub set_prev : Memory → ℕ → ℕ → Memory
set_prev m a v = record m { prev = update m.prev a v }

abbrev pub set_id : Memory → ℕ → ℕ → Memory
set_id m a v = record m { id = update m.id a v }

-- A list: the address of its sentinel, which is the list's own, and the other members. The members of
-- the sentinel are in memory; `HEAD` is its `next` and `TAIL` its `prev`.
pub record SxeList : Type 0 where
  pub sentinel : ℕ
  pub length : ℕ
  pub offset : ℕ

unfoldable pub sxe_list_construct_impl : Memory → ℕ → ℕ → ℕ → Memory × SxeList
sxe_list_construct_impl m list id offset =
    let m1 = set_next m list list in
    let m2 = set_prev m1 list list in
    let m3 = set_id m2 list id in (m3, record { sentinel = list; length = 0; offset = offset })

unfoldable pub sxe_list_push : Memory → SxeList → ℕ → Memory × SxeList
sxe_list_push m list object =
    let node = object + list.offset in
    let m1 = set_next m node list.sentinel in
    let m2 = set_prev m1 node (m1.prev list.sentinel) in
    let m3 = set_prev m2 list.sentinel node in
    let m4 = set_next m3 (m3.prev node) node in
    let m5 = set_id m4 node (m4.id list.sentinel) in
    (m5, record list { length = u32 (list.length + 1) })

unfoldable pub sxe_list_unshift : Memory → SxeList → ℕ → Memory × SxeList
sxe_list_unshift m list object =
    let node = object + list.offset in
    let m1 = set_prev m node list.sentinel in
    let m2 = set_next m1 node (m1.next list.sentinel) in
    let m3 = set_next m2 list.sentinel node in
    let m4 = set_prev m3 (m3.next node) node in
    let m5 = set_id m4 node (m4.id list.sentinel) in
    (m5, record list { length = u32 (list.length + 1) })

-- The result `object` is the argument.
unfoldable pub sxe_list_remove : Memory → SxeList → ℕ → Memory × SxeList
sxe_list_remove m list object =
    let node = object + list.offset in
    let m1 = set_prev m (m.next node) (m.prev node) in
    let m2 = set_next m1 (m1.prev node) (m1.next node) in
    let m3 = set_prev m2 node 0 in
    let m4 = set_next m3 node 0 in (m4, record list { length = u32 (list.length + (2 ^ 32 - 1)) })

-- The object, or none for `NULL`.
unfoldable pub sxe_list_pop : Memory → SxeList → Option ℕ × (Memory × SxeList)
sxe_list_pop m list =
    let node = m.prev list.sentinel in
    if node == list.sentinel
    then (none, (m, list))
    else (some (node - list.offset), sxe_list_remove m list (node - list.offset))

unfoldable pub sxe_list_shift : Memory → SxeList → Option ℕ × (Memory × SxeList)
sxe_list_shift m list =
    let node = m.next list.sentinel in
    if node == list.sentinel
    then (none, (m, list))
    else (some (node - list.offset), sxe_list_remove m list (node - list.offset))

unfoldable pub sxe_list_peek_head : Memory → SxeList → Option ℕ
sxe_list_peek_head m list =
    if m.next list.sentinel == list.sentinel
    then none
    else some (m.next list.sentinel - list.offset)

unfoldable pub sxe_list_peek_tail : Memory → SxeList → Option ℕ
sxe_list_peek_tail m list =
    if m.prev list.sentinel == list.sentinel
    then none
    else some (m.prev list.sentinel - list.offset)

-- A walker, and the list that it is on.
pub record Walker : Type 0 where
  pub list : SxeList
  pub back : ℕ
  pub node : ℕ

unfoldable pub sxe_list_walker_construct : SxeList → Walker
sxe_list_walker_construct list = record { list = list; back = list.sentinel; node = list.sentinel }

unfoldable pub sxe_list_walker_back : Walker → Option ℕ × Walker
sxe_list_walker_back walker = if walker.back == walker.list.sentinel then (none, walker) else (
  some (walker.back - walker.list.offset),
  record walker { node = walker.back; back = walker.list.sentinel },
)

unfoldable pub sxe_list_walker_find : Walker → Option ℕ
sxe_list_walker_find walker =
    if walker.node == walker.list.sentinel then none else some (walker.node - walker.list.offset)

unfoldable pub sxe_list_walker_step : Memory → Walker → Option ℕ × Walker
sxe_list_walker_step m walker =
    let moved : Walker = record walker { back = walker.node; node = m.next walker.node } in
    (sxe_list_walker_find moved, moved)
