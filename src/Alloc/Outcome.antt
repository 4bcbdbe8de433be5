-- ===== src/Alloc/Outcome.antt =====
-- What freeing does to the other objects: which go, and that each goes once.
use libnih.Prelude.{
  Ptr, update, ℕ, zero, suc, ◌+◌, ◌≡◌, refl, arith, Bool, true, false, Bool-cases, List, [], ◌∷◌,
  ◌++◌, ◌==◌, if◌then◌else◌, some, inl, inr, ◌∙◌,
}
use libnih.Alloc.{
  Heap, Destructor, unset, calls, finalised, gone, is_empty, cut_out, set_parents, set_children,
  finalise, visit_ref, collect,
}
use libnih.Alloc.Sound.{has, Sound, has-cut_out}
use libnih.Alloc.Collect.{child-alive, visit_ref-eq, visit_ref-Sound}

abbrev pub count : Ptr → List Ptr → ℕ
count c [] = 0
count c (x ∷ xs) = if x == c then suc (count c xs) else count c xs

pub count-append : (c : Ptr) (xs ys : List Ptr) → count c (xs ++ ys) ≡ count c xs + count c ys
count-append c [] ys = omega arith
count-append c (x ∷ xs) ys = ground (arith, count-append c xs ys)

-- whether the object went between two states, as a number
abbrev pub passed : Heap → Heap → Ptr → ℕ
passed h h' c = if gone h c then 0 else if gone h' c then 1 else 0

abbrev pub has_destructor : Destructor → Bool
has_destructor (calls f) = true
has_destructor unset = false
has_destructor finalised = false

abbrev pub called : Heap → Heap → Ptr → ℕ
called h h' c = if has_destructor (h.destructor c) then passed h h' c else 0

-- From `h` to `h'`, where the list of the dead grows from `ended` to `ended'`.
pub record Frees (h : Heap) (ended : List Ptr) (h' : Heap) (ended' : List Ptr) : Type 0 where
  pub same_parent : (r : Ptr) → h'.ref_parent r ≡ h.ref_parent r
  pub same_child : (r : Ptr) → h'.ref_child r ≡ h.ref_child r
  pub same_size : (c : Ptr) → h'.size c ≡ h.size c
  pub same_destructor : (c : Ptr) → gone h' c ≡ false → h'.destructor c ≡ h.destructor c
  pub stays_gone : (c : Ptr) → gone h c ≡ true → gone h' c ≡ true
  pub kept : (c r : Ptr) → has r (h'.parents c) ≡ true → has r (h.parents c) ≡ true
  pub lost :
      (c r : Ptr)
      → has r (h.parents c) ≡ true
      → has r (h'.parents c) ≡ false
      → (gone h' (h.ref_parent r) ≡ true) × ((h.ref_parent r == 0) ≡ false)
  pub ends_once : (c : Ptr) → count c ended' ≡ count c ended + passed h h' c
  pub calls_once : (c : Ptr) → count c h'.called ≡ count c h.called + called h h' c

pub Frees-refl : (h : Heap) (ended : List Ptr) → Frees h ended h ended
Frees-refl h ended = record {
  same_parent = λ r. refl;
  same_child = λ r. refl;
  same_size = λ c. refl;
  same_destructor = λ c g. refl;
  stays_gone = λ c g. g;
  kept = λ c r m. m;
  lost = λ c r m n. cc;
  ends_once = λ c. ground arith;
  calls_once = λ c. ground arith;
}

pub Frees-trans :
    (h : Heap) (xs : List Ptr) (i : Heap) (ys : List Ptr) (j : Heap) (zs : List Ptr)
    → Frees h xs i ys
    → Frees i ys j zs
    → Frees h xs j zs
Frees-trans h xs i ys j zs a b = record {
  same_parent = λ r. cc (a.same_parent r, b.same_parent r);
  same_child = λ r. cc (a.same_child r, b.same_child r);
  same_size = λ c. cc (a.same_size c, b.same_size c);
  same_destructor =
      λ c g. ground (arith, g, a.same_destructor c, b.same_destructor c g, b.stays_gone c);
  stays_gone = λ c g. b.stays_gone c (a.stays_gone c g);
  kept = λ c r m. a.kept c r (b.kept c r m);
  lost = λ c r m n.
      ground (arith, n, a.lost c r m, b.lost c r, a.same_parent r, b.stays_gone (h.ref_parent r));
  ends_once = λ c. ground (arith, a.ends_once c, b.ends_once c, a.stays_gone c, b.stays_gone c);
  calls_once = λ c.
      ground (
        arith,
        a.calls_once c,
        b.calls_once c,
        a.same_destructor c,
        a.stays_gone c,
        b.stays_gone c,
      );
}

-- The end of one object.
pub finalise-count :
    (p c : Ptr) (h : Heap)
    → gone h p ≡ false
    → count c (finalise p h).called ≡ count c h.called + called h (finalise p h) c
unfolding finalise
finalise-count p c h g = ground (arith, g, count-append c h.called (p ∷ []))

module _ (h : Heap) (r : Ptr) (work : List Ptr) (sound : Sound h 0 (r ∷ work)) where
  abbrev parents' : Ptr → List Ptr
  parents' = update h.parents (h.ref_child r) (cut_out r (h.parents (h.ref_child r)))

  kept_here : (c s : Ptr) → has s (parents' c) ≡ true → has s (h.parents c) ≡ true
  kept_here c s m = ground (arith, m, has-cut_out s r (h.parents (h.ref_child r)))

  lost_here :
      (c s : Ptr)
      → has s (h.parents c) ≡ true
      → has s (parents' c) ≡ false
      → (gone h (h.ref_parent s) ≡ true) × ((h.ref_parent s == 0) ≡ false)
  lost_here c s m n = ground (
    arith,
    m,
    n,
    has-cut_out s r (h.parents (h.ref_child r)),
    sound.work_gone r (ground arith),
    sound.work_root r (ground arith),
  )

  keep_Frees :
      (ended : List Ptr)
      → Frees h ended (set_parents (h.ref_child r) (cut_out r (h.parents (h.ref_child r))) h) ended
  keep_Frees ended = record {
    same_parent = λ s. refl;
    same_child = λ s. refl;
    same_size = λ c. refl;
    same_destructor = λ c g. refl;
    stays_gone = λ c g. g;
    kept = kept_here;
    lost = lost_here;
    ends_once = λ c. ground arith;
    calls_once = λ c. ground arith;
  }

  abbrev killed : Heap
  killed = set_children (h.ref_child r) [] (
      finalise (h.ref_child r)
        (set_parents (h.ref_child r) (cut_out r (h.parents (h.ref_child r))) h))

  alive : gone h (h.ref_child r) ≡ false
  alive = child-alive h r work sound

  kill_Frees : (ended : List Ptr) → Frees h ended killed (ended ++ h.ref_child r ∷ [])
  unfolding finalise
  kill_Frees ended = record {
    same_parent = λ s. refl;
    same_child = λ s. refl;
    same_size = λ c. refl;
    same_destructor = λ c g. ground (arith, g);
    stays_gone = λ c g. ground (arith, g);
    kept = kept_here;
    lost = λ c s m n. ground (arith, lost_here c s m n);
    ends_once = λ c. ground (arith, count-append c ended (h.ref_child r ∷ []), alive);
    calls_once = λ c. finalise-count (h.ref_child r) c h alive;
  }

  visit_ref-Frees :
      (ended : List Ptr) → Frees h ended (visit_ref r work ended h).2 (visit_ref r work ended h).1
  visit_ref-Frees ended = elim (Bool-cases (is_empty (cut_out r (h.parents (h.ref_child r))))) [
    | inl e ↦ rw (visit_ref-eq h r work ended, e) (kill_Frees ended)
    | inr e ↦ rw (visit_ref-eq h r work ended, e) (keep_Frees ended)
  ]

pub collect-Frees :
    (n : ℕ) (work ended : List Ptr) (h : Heap) (s : List Ptr × Heap)
    → collect n work ended h ≡ some s
    → Sound h 0 work
    → Frees h ended s.1 s.0
unfolding collect
collect-Frees n [] ended h s e sound =
    let same : (ended, h) ≡ s = cc in rw (← same) (Frees-refl h ended)
collect-Frees zero (r ∷ work) ended h s e sound = cc
collect-Frees (suc n) (r ∷ work) ended h s e sound =
    let t = visit_ref r work ended h in
    Frees-trans h ended t.2 t.1 s.1 s.0 (visit_ref-Frees h r work sound ended)
      (collect-Frees n t.0 t.1 t.2 s e (visit_ref-Sound h r work sound ended))

visit_ref-freed :
    (r : Ptr) (work ended : List Ptr) (h : Heap) → (visit_ref r work ended h).2.freed ≡ h.freed
unfolding visit_ref finalise
visit_ref-freed r work ended h = ground arith

pub collect-freed :
    (n : ℕ) (work ended : List Ptr) (h : Heap) (s : List Ptr × Heap)
    → collect n work ended h ≡ some s
    → s.1.freed ≡ h.freed
unfolding collect
collect-freed n [] ended h s e = cc
collect-freed zero (r ∷ work) ended h s e = cc
collect-freed (suc n) (r ∷ work) ended h s e =
    let t = visit_ref r work ended h in
    collect-freed n t.0 t.1 t.2 s e ∙ visit_ref-freed r work ended h
