-- ===== src/Ring/Tests.antt =====
-- nih/list.c run on concrete entries.
use libnih.Prelude.{true, refl, arith, [], ◌∷◌}
use libnih.Ring.{Heap, list_add, list_remove, list_cut, link_before}
use libnih.Ring.Links.{Linked, list_add-Linked}
use libnih.Ring.Segment.{RingOf}
use libnih.Ring.Move.{list_add-appends, list_remove-deletes}

-- Every entry is alone.
abbrev apart : Heap
apart = record { prev = λ p. p; next = λ p. p; content = λ p. p; destructor = λ p. true }

-- The list 1 with the entries 2 and 3, and the list 5 with the entry 6.
abbrev full : Heap
full = list_add 5 6 (list_add 1 3 (list_add 1 2 apart))

apart-Linked : Linked apart
apart-Linked = record { next_back = λ p. refl; prev_back = λ p. refl }

full-Linked : Linked full
full-Linked =
    list_add-Linked (list_add 1 3 (list_add 1 2 apart))
      (list_add-Linked (list_add 1 2 apart) (list_add-Linked apart apart-Linked 1 2 (ground arith))
        1 3 (ground arith))
      5 6 (ground arith)

full-RingOf : RingOf full 1 (2 ∷ 3 ∷ []) × RingOf full 5 (6 ∷ [])
unfolding list_add list_cut link_before
full-RingOf =
    (((refl, (refl, refl)), (ground arith, (ground arith, tt))), ((refl, refl), (ground arith, tt)))

list_add-appends_example :
    Linked (list_add 1 4 full) × RingOf (list_add 1 4 full) 1 (2 ∷ 3 ∷ 4 ∷ [])
list_add-appends_example =
    list_add-appends full full-Linked 1 4 (ground arith) (2 ∷ 3 ∷ []) full-RingOf.0
      (ground arith, (ground arith, tt))

list_remove-deletes_example :
    Linked (list_remove 2 full)
    × RingOf (list_remove 2 full) 1 (3 ∷ [])
    × RingOf (list_remove 2 full) 2 []
list_remove-deletes_example = list_remove-deletes full full-Linked 2 1 [] (3 ∷ []) full-RingOf.0
