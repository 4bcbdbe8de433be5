-- ===== src/Ring/Move.antt =====
-- What each operation of nih/list.c does to the lists that it touches.
use libnih.Prelude.{
  Ptr, ◌≡◌, ◌≢◌, arith, List, [], ◌∷◌, ◌++◌, All-append, All-before, All-behind, sym,
}
use libnih.Ring.{Heap, list_init, list_cut, list_add, list_add_after, list_remove}
use libnih.Ring.Links.{
  Linked, list_cut-LinkedBut, list_add-Linked, list_add_after-Linked, list_remove-Linked,
}
use libnih.Ring.Distinct.{RingOf-once}
use libnih.Ring.Segment.{
  Walk, Avoids, RingOf, list_cut-frame, list_cut-Walk, link_before-frame, link_before-Walk,
  link_after-Walk,
}

list_init-frame :
    (g : Heap) (e p : Ptr) (xs : List Ptr) (q : Ptr)
    → Walk g p xs q
    → p ≢ e
    → Avoids e xs
    → Walk (list_init e g) p xs q
unfolding list_init
list_init-frame g e p [] q w n a = ground (arith, n)
list_init-frame g e p (x ∷ xs) q w n a = (ground (arith, n), list_init-frame g e x xs q w.1 a.0 a.1)

list_init_self : (e : Ptr) (g : Heap) → (list_init e g).next e ≡ e
unfolding list_init
list_init_self e g = ground arith

module _ (e : Ptr) (xs zs : List Ptr) (l : Ptr) (a : Avoids l (xs ++ e ∷ zs)) where
  Avoids-rest : Avoids l (xs ++ zs)
  Avoids-rest =
      All-append (λ x. x ≢ l) xs zs (All-before (λ x. x ≢ l) xs (e ∷ zs) a)
        (All-behind (λ x. x ≢ l) xs (e ∷ zs) a).1

  Avoids-entry : l ≢ e
  Avoids-entry p = (All-behind (λ x. x ≢ l) xs (e ∷ zs) a).0 (sym p)

module _ (h : Heap) (linked : Linked h) (list entry : Ptr) (other : list ≢ entry) where
  -- In a heap where the two pointers of all entries are inverse to each other, `nih_list_add` of an
  -- entry other than the list, and not in it, puts it at the list's end, behind all the entries
  -- there, and the pointers stay inverse. The entry may have been in any other list before.
  pub list_add-appends :
      (xs : List Ptr)
      → RingOf h list xs
      → Avoids entry xs
      → Linked (list_add list entry h) × RingOf (list_add list entry h) list (xs ++ entry ∷ [])
  unfolding list_add
  list_add-appends xs ring away = (
    list_add-Linked h linked list entry other,
    (
      link_before-Walk (list_cut entry h) list entry (list_cut-LinkedBut h linked entry) other list
          xs (list_cut-frame h linked entry list xs list ring.0 other away other) other away ring.1,
      All-append (λ x. x ≢ list) xs (entry ∷ []) ring.1 (λ e. other (sym e), tt),
    ),
  )

  -- In a heap where the two pointers of all entries are inverse to each other, `nih_list_add` of an
  -- entry of one list to a second list takes it out of the first and keeps the order of the entries
  -- that stay there, when the first list has no part of the second.
  pub list_add-leaves :
      (from : Ptr) (ys zs : List Ptr)
      → RingOf h from (ys ++ entry ∷ zs)
      → from ≢ list
      → Avoids list (ys ++ entry ∷ zs)
      → RingOf (list_add list entry h) from (ys ++ zs)
  unfolding list_add
  list_add-leaves from ys zs ring apart away =
      let once = RingOf-once h from entry ys zs ring in
      let m = Avoids-entry entry ys zs from ring.1 in
      (
        link_before-frame (list_cut entry h) list entry (list_cut-LinkedBut h linked entry) other
            from (ys ++ zs) from
            (list_cut-Walk h linked entry from ys zs from ring.0 m once.0 once.1 m) m
            (All-append (λ x. x ≢ entry) ys zs once.0 once.1) (Avoids-rest entry ys zs list away)
            apart,
        Avoids-rest entry ys zs from ring.1,
      )

  -- In a heap where the two pointers of all entries are inverse to each other, `nih_list_add` of an
  -- entry to the list that it is already in moves it to the end, behind the others in their order.
  pub list_add-rotates :
      (ys zs : List Ptr)
      → RingOf h list (ys ++ entry ∷ zs)
      → RingOf (list_add list entry h) list ((ys ++ zs) ++ entry ∷ [])
  unfolding list_add
  list_add-rotates ys zs ring =
      let once = RingOf-once h list entry ys zs ring in
      let rest = Avoids-rest entry ys zs list ring.1 in
      (
        link_before-Walk (list_cut entry h) list entry (list_cut-LinkedBut h linked entry) other
            list (ys ++ zs)
            (list_cut-Walk h linked entry list ys zs list ring.0 other once.0 once.1 other) other
            (All-append (λ x. x ≢ entry) ys zs once.0 once.1) rest,
        All-append (λ x. x ≢ list) (ys ++ zs) (entry ∷ []) rest (λ e. other (sym e), tt),
      )

  -- In a heap where the two pointers of all entries are inverse to each other, `nih_list_add_after`
  -- of an entry other than the place it is given, and not in that list, puts it directly behind the
  -- place, before all the entries there, and the pointers stay inverse.
  pub list_add_after-prepends :
      (xs : List Ptr)
      → RingOf h list xs
      → Avoids entry xs
      → Linked (list_add_after list entry h)
        × RingOf (list_add_after list entry h) list (entry ∷ xs)
  unfolding list_add_after
  list_add_after-prepends xs ring away = (
    list_add_after-Linked h linked list entry other,
    (
      link_after-Walk (list_cut entry h) list entry (list_cut-LinkedBut h linked entry) other xs
          list (list_cut-frame h linked entry list xs list ring.0 other away other) away ring.1,
      (λ e. other (sym e), ring.1),
    ),
  )

  -- In a heap where the two pointers of all entries are inverse to each other, `nih_list_add`
  -- leaves a list as it is that has neither the entry nor the list that the entry is added to.
  pub list_add-frame :
      (k : Ptr) (xs : List Ptr)
      → RingOf h k xs
      → k ≢ entry
      → Avoids entry xs
      → k ≢ list
      → Avoids list xs
      → RingOf (list_add list entry h) k xs
  unfolding list_add
  list_add-frame k xs ring n away apart avoids = (
    link_before-frame (list_cut entry h) list entry (list_cut-LinkedBut h linked entry) other k xs k
        (list_cut-frame h linked entry k xs k ring.0 n away n) n away avoids apart,
    ring.1,
  )

-- In a heap where the two pointers of all entries are inverse to each other, `nih_list_remove`
-- takes an entry out of the list that it is in, keeps the order of the others, and leaves it a list
-- of its own; the pointers stay inverse.
pub list_remove-deletes :
    (h : Heap) (linked : Linked h) (entry from : Ptr) (ys zs : List Ptr)
    → RingOf h from (ys ++ entry ∷ zs)
    → Linked (list_remove entry h)
      × RingOf (list_remove entry h) from (ys ++ zs)
      × RingOf (list_remove entry h) entry []
unfolding list_remove
list_remove-deletes h linked entry from ys zs ring =
    let once = RingOf-once h from entry ys zs ring in
    let m = Avoids-entry entry ys zs from ring.1 in
    (
      list_remove-Linked h linked entry,
      (
        list_init-frame (list_cut entry h) entry from (ys ++ zs) from
            (list_cut-Walk h linked entry from ys zs from ring.0 m once.0 once.1 m) m
            (All-append (λ x. x ≢ entry) ys zs once.0 once.1),
        Avoids-rest entry ys zs from ring.1,
      ),
      (list_init_self entry (list_cut entry h), tt),
    )
