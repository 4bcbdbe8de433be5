-- ===== src/Alloc/Total.antt =====
-- How many rounds the loop that finalises takes: one for each reference.
use libnih.Prelude.{
  Ptr, update, ℕ, zero, suc, ◌+◌, ◌≤◌, ◌≡◌, refl, arith, false, List, [], ◌∷◌, some, length,
  length-append,
}
use libnih.Alloc.{Heap, finalise, visit_ref, collect}
use libnih.Alloc.Sound.{has}

-- the references to the children of some objects
unfoldable pub refs_of : List Ptr → (Ptr → List Ptr) → ℕ
refs_of [] children = 0
refs_of (o ∷ os) children = length (children o) + refs_of os children

-- All parents are among the objects.
abbrev pub Covers : List Ptr → Heap → Type 0
Covers objects h = (p : Ptr) → has p objects ≡ false → h.children p ≡ []

refs_of-update-le :
    (os : List Ptr) (children : Ptr → List Ptr) (p : Ptr)
    → refs_of os (update children p []) ≤ refs_of os children
unfolding refs_of
refs_of-update-le [] children p = omega arith
refs_of-update-le (o ∷ os) children p = ground (arith, refs_of-update-le os children p)

pub refs_of-update :
    (os : List Ptr) (children : Ptr → List Ptr) (p : Ptr)
    → (has p os ≡ false → children p ≡ [])
    → length (children p) + refs_of os (update children p []) ≤ refs_of os children
unfolding refs_of
refs_of-update [] children p outside = ground (arith, outside)
refs_of-update (o ∷ os) children p outside =
    ground (arith, refs_of-update os children p, refs_of-update-le os children p, outside)

visit_ref-falls :
    (os : List Ptr) (r : Ptr) (work dead : List Ptr) (h : Heap)
    → Covers os h
    → length (visit_ref r work dead h).0 + refs_of os (visit_ref r work dead h).2.children
      ≤ length work + refs_of os h.children
unfolding visit_ref finalise
visit_ref-falls os r work dead h covers = ground (
  arith,
  refs_of-update os h.children (h.ref_child r),
  covers (h.ref_child r),
  length-append (h.children (h.ref_child r)) work,
)

visit_ref-Covers :
    (os : List Ptr) (r : Ptr) (work dead : List Ptr) (h : Heap)
    → Covers os h
    → Covers os (visit_ref r work dead h).2
unfolding visit_ref finalise
visit_ref-Covers os r work dead h covers p n = ground (arith, covers p n)

pub collect_total :
    (n : ℕ) (os work dead : List Ptr) (h : Heap)
    → Covers os h
    → length work + refs_of os h.children ≤ n
    → (s : List Ptr × Heap) × (collect n work dead h ≡ some s)
unfolding collect
collect_total n os [] dead h covers m = ((dead, h), refl)
collect_total zero os (r ∷ work) dead h covers m = absurd (omega arith)
collect_total (suc n) os (r ∷ work) dead h covers m =
    let s = visit_ref r work dead h in
    collect_total n os s.0 s.1 s.2 (visit_ref-Covers os r work dead h covers)
      (omega (arith, visit_ref-falls os r work dead h covers))
