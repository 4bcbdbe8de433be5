-- ===== src/Ring/Segment.antt =====
-- The entries that `NIH_LIST_FOREACH` visits, and what cutting and linking do to them.
use libnih.Prelude.{Ptr, ◌≡◌, ◌≢◌, arith, List, [], ◌∷◌, ◌++◌, All}
use libnih.Ring.{Heap, list_cut, link_before, link_after}
use libnih.Ring.Links.{Linked, LinkedBut}

-- Following `next` from `p` visits `xs` and then arrives at `q`.
abbrev pub Walk : Heap → Ptr → List Ptr → Ptr → Type 0
Walk h p [] q = h.next p ≡ q
Walk h p (x ∷ xs) q = (h.next p ≡ x) × Walk h x xs q

abbrev pub Avoids : Ptr → List Ptr → Type 0
Avoids e = All (λ x. x ≢ e)

-- The list at `l` has the entries `xs`, none of which is `l` itself.
abbrev pub RingOf : Heap → Ptr → List Ptr → Type 0
RingOf h l xs = Walk h l xs l × Avoids l xs

module _ (h : Heap) (linked : Linked h) (e : Ptr) where
  pub list_cut-frame :
      (p : Ptr) (xs : List Ptr) (q : Ptr)
      → Walk h p xs q
      → p ≢ e
      → Avoids e xs
      → q ≢ e
      → Walk (list_cut e h) p xs q
  unfolding list_cut
  list_cut-frame p [] q w n a m = ground (arith, linked.next_back p, linked.prev_back e)
  list_cut-frame p (x ∷ xs) q w n a m =
      (ground (arith, linked.next_back p, linked.prev_back e), list_cut-frame x xs q w.1 a.0 a.1 m)

  pub list_cut-Walk :
      (p : Ptr) (ys zs : List Ptr) (q : Ptr)
      → Walk h p (ys ++ e ∷ zs) q
      → p ≢ e
      → Avoids e ys
      → Avoids e zs
      → q ≢ e
      → Walk (list_cut e h) p (ys ++ zs) q
  unfolding list_cut
  list_cut-Walk p [] [] q w n a b m = ground (arith, linked.next_back p, linked.prev_back e)
  list_cut-Walk p [] (z ∷ zs) q w n a b m = (
    ground (arith, linked.next_back p, linked.prev_back e),
    list_cut-frame z zs q w.1.1 b.0 b.1 m,
  )
  list_cut-Walk p (y ∷ ys) zs q w n a b m = (
    ground (arith, linked.next_back p, linked.prev_back e),
    list_cut-Walk y ys zs q w.1 a.0 a.1 b m,
  )

module _ (g : Heap) (list e : Ptr) (linked : LinkedBut e g) (other : list ≢ e) where
  pub link_before-frame :
      (p : Ptr) (xs : List Ptr) (q : Ptr)
      → Walk g p xs q
      → p ≢ e
      → Avoids e xs
      → Avoids list xs
      → q ≢ list
      → Walk (link_before list e g) p xs q
  unfolding link_before
  link_before-frame p [] q w n a b m =
      ground (arith, other, linked.next_back p n, linked.prev_back list other)
  link_before-frame p (x ∷ xs) q w n a b m = (
    ground (arith, other, linked.next_back p n, linked.prev_back list other),
    link_before-frame x xs q w.1 a.0 a.1 b.1 m,
  )

  pub link_before-Walk :
      (p : Ptr) (xs : List Ptr)
      → Walk g p xs list
      → p ≢ e
      → Avoids e xs
      → Avoids list xs
      → Walk (link_before list e g) p (xs ++ e ∷ []) list
  unfolding link_before
  link_before-Walk p [] w n a b = (
    ground (arith, other, linked.next_back p n, linked.prev_back list other),
    ground (arith, other, linked.next_back p n, linked.prev_back list other),
  )
  link_before-Walk p (x ∷ xs) w n a b = (
    ground (arith, other, linked.next_back p n, linked.prev_back list other),
    link_before-Walk x xs w.1 a.0 a.1 b.1,
  )

  pub link_after-frame :
      (p : Ptr) (xs : List Ptr) (q : Ptr)
      → Walk g p xs q
      → p ≢ e
      → Avoids e xs
      → p ≢ list
      → Avoids list xs
      → Walk (link_after list e g) p xs q
  unfolding link_after
  link_after-frame p [] q w n a m b = ground (arith, other)
  link_after-frame p (x ∷ xs) q w n a m b =
      (ground (arith, other), link_after-frame x xs q w.1 a.0 a.1 b.0 b.1)

  pub link_after-Walk :
      (xs : List Ptr) (q : Ptr)
      → Walk g list xs q
      → Avoids e xs
      → Avoids list xs
      → Walk (link_after list e g) list (e ∷ xs) q
  unfolding link_after
  link_after-Walk [] q w a b = (ground (arith, other), ground (arith, other))
  link_after-Walk (x ∷ xs) q w a b =
      (ground (arith, other), (ground (arith, other), link_after-frame x xs q w.1 a.0 a.1 b.0 b.1))
