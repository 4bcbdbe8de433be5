-- ===== src/Alloc/Refs.antt =====
-- Taking a reference out of the two lists that it stands in.
use libnih.Prelude.{
  Ptr, ◌≡◌, ◌⊎◌, inr, refl, arith, true, false, List, [], ◌∷◌, ◌++◌, ◌==◌, if◌then◌else◌, if_rule,
}
use libnih.Alloc.{Heap, alloc_ref_free, free_refs}
use libnih.Alloc.Sound.{has, Distinct, Sound, has-cut_out, cut_out-Distinct, has-append}

-- The references `rs` are no longer in the lists of their children.
pub record Drops (h : Heap) (rs : List Ptr) (h' : Heap) : Type 0 where
  pub same_parent : h'.ref_parent ≡ h.ref_parent
  pub same_child : h'.ref_child ≡ h.ref_child
  pub same_size : h'.size ≡ h.size
  pub same_destructor : h'.destructor ≡ h.destructor
  pub same_called : h'.called ≡ h.called
  pub same_freed : h'.freed ≡ h.freed
  pub dropped :
      (c s : Ptr) → has s (h'.parents c) ≡ (if has s rs then false else has s (h.parents c))

module _ (h : Heap) (loose c r : Ptr) (sound : Sound h loose []) (only : (loose ≡ 0) ⊎ (loose ≡ c))
    (m : has r (h.parents c) ≡ true) where
  abbrev child : h.ref_child r ≡ c
  child = sound.up c r m

  old_child :
      (p s : Ptr)
      → has s ((alloc_ref_free r h).children p) ≡ true
      → (has s (h.children p) ≡ true) × ((s == r) ≡ false)
  unfolding alloc_ref_free
  old_child p s n = ground (arith, n, has-cut_out s r (h.children (h.ref_parent r)), sound.down p s)

  new_parents :
      (p s : Ptr)
      → has s ((alloc_ref_free r h).parents p) ≡ (if s == r then false else has s (h.parents p))
  unfolding alloc_ref_free
  new_parents p s =
      ground (arith, child, m, has-cut_out s r (h.parents (h.ref_child r)), sound.up p s)

  pub alloc_ref_free-Sound : Sound (alloc_ref_free r h) c []
  unfolding alloc_ref_free
  alloc_ref_free-Sound = record {
    work_gone = λ s n. cc;
    work_linked = λ s n. cc;
    work_root = λ s n. cc;
    work_once = tt;
    up = λ d s n. sound.up d s (ground (arith, new_parents d s, n));
    up_once = λ d.
        if_rule Distinct (d == h.ref_child r)
          (λ q. cut_out-Distinct r _ (sound.up_once (h.ref_child r))) (λ q. sound.up_once d);
    up_linked = λ d s n. ground (
      arith,
      n,
      new_parents d s,
      sound.up_linked d s,
      has-cut_out s r (h.children (h.ref_parent r)),
    );
    down = λ p s n. sound.down p s (old_child p s n).0;
    down_linked = λ p s n.
        ground (arith, new_parents (h.ref_child s) s, old_child p s n, sound.down_linked p s);
    down_once = λ p.
        if_rule Distinct (p == h.ref_parent r)
          (λ q. cut_out-Distinct r _ (sound.down_once (h.ref_parent r))) (λ q. sound.down_once p);
    dead = λ d g. ground (arith, sound.dead d g, m, child);
    owned = λ d g n. ground (arith, n, g, only, child, sound.owned d g);
    null = ground (arith, sound.null);
  }

  pub alloc_ref_free-Drops : Drops h (r ∷ []) (alloc_ref_free r h)
  unfolding alloc_ref_free
  alloc_ref_free-Drops = record {
    same_parent = refl;
    same_child = refl;
    same_size = refl;
    same_destructor = refl;
    same_called = refl;
    same_freed = refl;
    dropped = λ d s. ground (arith, new_parents d s);
  }

module _ (h : Heap) (rs : List Ptr) (i : Heap) (ss : List Ptr) (j : Heap) where
  Drops-trans : Drops h rs i → Drops i ss j → Drops h (rs ++ ss) j
  Drops-trans a b = record {
    same_parent = cc (a.same_parent, b.same_parent);
    same_child = cc (a.same_child, b.same_child);
    same_size = cc (a.same_size, b.same_size);
    same_destructor = cc (a.same_destructor, b.same_destructor);
    same_called = cc (a.same_called, b.same_called);
    same_freed = cc (a.same_freed, b.same_freed);
    dropped = λ c s. ground (arith, a.dropped c s, b.dropped c s, has-append s rs ss);
  }

Drops-refl : (h : Heap) → Drops h [] h
Drops-refl h = record {
  same_parent = refl;
  same_child = refl;
  same_size = refl;
  same_destructor = refl;
  same_called = refl;
  same_freed = refl;
  dropped = λ c s. refl;
}

-- All the references of one object.
module _ (c : Ptr) where
  pub free_refs-Drops :
      (rs : List Ptr) (h : Heap)
      → Sound h c []
      → Distinct rs
      → ((r : Ptr) → has r rs ≡ true → has r (h.parents c) ≡ true)
      → Drops h rs (free_refs rs h) × Sound (free_refs rs h) c []
  free_refs-Drops [] h sound d m = (Drops-refl h, sound)
  free_refs-Drops (r ∷ rs) h sound d m =
      let here : has r (h.parents c) ≡ true = m r (ground arith) in
      let step = alloc_ref_free-Drops h c c r sound (inr refl) here in
      let rest =
        free_refs-Drops rs (alloc_ref_free r h) (alloc_ref_free-Sound h c c r sound (inr refl) here)
          d.1 (λ s n. ground (arith, n, d.0, m s (ground (arith, n)), step.dropped c s)) in
      (Drops-trans h (r ∷ []) _ rs _ step rest.0, rest.1)
