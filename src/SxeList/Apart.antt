-- ===== src/SxeList/Apart.antt =====
-- A list that another list's change leaves alone: the nodes of the two have different identifiers.
use libkit.Common.{ℕ, ◌+◌, List, [], ◌∷◌, ◌++◌, ◌≡◌, ◌≢◌, refl, sym, ◌∙◌, ap, All}
use libkit.SxeList.Defs.{Memory, SxeList, sxe_list_push, sxe_list_remove}
use libkit.SxeList.Linked.{Linked-kept, last, first, Fresh}
use libkit.SxeList.Holds.{Holds, Linked-last, Linked-middle, All-map, All-middle}
use libkit.SxeList.Ends.{push_Inserted, push_ids, last-Fresh}
use libkit.SxeList.Removal.{remove_Removed, remove_ids, ne_last, ne_first}

abbrev pub Same : Memory → Memory → ℕ → Type 0
Same m m' y = (m'.next y ≡ m.next y) × (m'.prev y ≡ m.prev y) × (m'.id y ≡ m.id y)

pub Holds-Same :
    (m m' : Memory) (list : SxeList) (xs : List ℕ)
    → All (Same m m') (list.sentinel ∷ xs)
    → Holds m list xs
    → Holds m' list xs
Holds-Same m m' list xs (s, same) h = record {
  linked =
      Linked-kept m m' list.sentinel xs list.sentinel
        (s.0, All-map (Same m m') xs (λ x e. e.0) same) (All-map (Same m m') xs (λ x e. e.1) same)
        (s.1) h.linked;
  distinct = h.distinct;
  fresh = h.fresh;
  ids = ids xs same h.ids;
  counted = h.counted;
  offsets = h.offsets;
}
  where
    ids :
        (ys : List ℕ)
        → All (Same m m') ys
        → All (λ x. m.id x ≡ m.id list.sentinel) ys
        → All (λ x. m'.id x ≡ m'.id list.sentinel) ys
    ids [] e g = tt
    ids (y ∷ ys) e g = (e.0.2 ∙ g.0 ∙ sym s.2, ids ys e.1 g.1)

-- Every node of a list, its sentinel and its ends have the list's identifier.
last_id :
    (m : Memory) (s t : ℕ) (xs : List ℕ)
    → m.id s ≡ t
    → All (λ x. m.id x ≡ t) xs
    → m.id (last s xs) ≡ t
last_id m s t [] e h = e
last_id m s t (x ∷ xs) e h = last_id m x t xs h.0 h.1

first_id :
    (m : Memory) (s t : ℕ) (xs : List ℕ)
    → m.id s ≡ t
    → All (λ x. m.id x ≡ t) xs
    → m.id (first xs s) ≡ t
first_id m s t [] e h = e
first_id m s t (x ∷ xs) e h = h.0

tail_ids :
    (P : ℕ → Type 0) (xs : List ℕ) (n : ℕ) (ys : List ℕ)
    → All P (xs ++ n ∷ ys)
    → All P xs × All P ys
tail_ids P [] n ys h = (tt, h.1)
tail_ids P (x ∷ xs) n ys h = let r = tail_ids P xs n ys h.1 in ((h.0, r.0), r.1)

module _ (m : Memory) (list : SxeList) (object : ℕ) where
  abbrev n : ℕ
  n = object + list.offset

  abbrev s : ℕ
  s = list.sentinel

  pub sxe_list_push-Same :
      (xs : List ℕ)
      → Holds m list xs
      → n ≢ s
      → Fresh n xs
      → (y : ℕ) → m.id y ≢ m.id s
      → y ≢ n
      → Same m ((sxe_list_push m list object).0) y
  sxe_list_push-Same xs h ns away y other yn =
      let tail = Linked-last m s xs s h.linked in
      let i = push_Inserted m list object ns (λ e. last-Fresh s xs n ns away (e ∙ tail)) in
      let end = last_id m s (m.id s) xs refl h.ids in
      (
        i.next_else y (λ e. other (ap m.id (e ∙ tail) ∙ end)) yn,
        i.prev_else y (λ e. other (ap m.id e)) yn,
        (push_ids m list object ns).0 y yn,
      )

  pub sxe_list_remove-Same :
      (xs ys : List ℕ)
      → Holds m list (xs ++ n ∷ ys)
      → (y : ℕ) → m.id y ≢ m.id s
      → Same m ((sxe_list_remove m list object).0) y
  sxe_list_remove-Same xs ys h y other =
      let (before, after) = Linked-middle m s xs n ys s h.linked in
      let r =
        remove_Removed m list object (λ e. ne_last s xs n ys h.fresh h.distinct (e ∙ before))
          (λ e. ne_first s xs n ys h.fresh h.distinct (e ∙ after)) in
      let parts = tail_ids (λ x. m.id x ≡ m.id s) xs n ys h.ids in
      let own : y ≢ n = λ e. other (ap m.id e ∙ All-middle (λ x. m.id x ≡ m.id s) xs ys n h.ids) in
      (
        r.next_else y (λ e. other (ap m.id (e ∙ before) ∙ last_id m s (m.id s) xs refl parts.0))
            own,
        r.prev_else y (λ e. other (ap m.id (e ∙ after) ∙ first_id m s (m.id s) ys refl parts.1))
            own,
        remove_ids m list object y,
      )
