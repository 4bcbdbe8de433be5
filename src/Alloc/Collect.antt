-- ===== src/Alloc/Collect.antt =====
-- The loop that finalises the objects that nothing refers to any more.
use libnih.Prelude.{
  Ptr, update, ℕ, zero, suc, ◌≡◌, ◌⊎◌, inl, inr, arith, true, false, not, Bool-cases, List, [], ◌∷◌,
  ◌++◌, ◌==◌, if◌then◌else◌, if_rule, some,
}
use libnih.Alloc.{
  Heap, gone, is_empty, cut_out, set_parents, set_children, finalise, visit_ref, collect,
}
use libnih.Alloc.Sound.{
  has, Distinct, Sound, has-cut_out, has-append, cut_out-Distinct, append-Distinct, empty-has,
  empty-eq,
}

-- The round with the child's list read before it is written.
pub visit_ref-eq :
    (h : Heap) (r : Ptr) (work ended : List Ptr)
    → visit_ref r work ended h ≡ (
        let child = h.ref_child r in
        let rest = cut_out r (h.parents child) in
        let a = set_parents child rest h in
        if not (is_empty rest) then (work, ended, a) else (
          h.children child ++ work,
          ended ++ child ∷ [],
          set_children child [] (finalise child a),
        ))
unfolding visit_ref
visit_ref-eq h r work ended = ground arith

module _ (h : Heap) (r : Ptr) (work : List Ptr) (sound : Sound h 0 (r ∷ work)) where
  abbrev pub child : Ptr
  child = h.ref_child r

  abbrev pub left_over : List Ptr
  left_over = cut_out r (h.parents child)

  pub linked : has r (h.parents child) ≡ true
  linked = sound.work_linked r (ground arith)

  pub child-alive : gone h child ≡ false
  child-alive = ground (arith, linked, sound.dead child)

  -- a reference that is still to be visited is another one
  not_r : (s : Ptr) → has s work ≡ true → (s == r) ≡ false
  not_r s m = ground (arith, m, sound.work_once)

  -- so is one in the list of a parent
  not_child : (p s : Ptr) → has s (h.children p) ≡ true → (s == r) ≡ false
  not_child p s m =
      ground (arith, m, sound.down p s m, sound.work_gone r (ground arith), sound.dead p)

  -- what is left in the lists of references was there before, and is not `r`
  was :
      (c s : Ptr)
      → has s (update h.parents child left_over c) ≡ true
      → (has s (h.parents c) ≡ true) × ((s == r) ≡ false)
  was c s m = elim (Bool-cases (c == child)) [
    | inl e ↦ (
      ground (arith, m, e, has-cut_out s r (h.parents child)),
      ground (arith, m, e, has-cut_out s r (h.parents child)),
    )
    | inr e ↦
        let old : has s (h.parents c) ≡ true = ground (arith, m, e) in
        (old, ground (arith, e, sound.up c s old))
  ]

  keep-Sound : is_empty left_over ≡ false → Sound (set_parents child left_over h) 0 work
  keep-Sound e = record {
    work_gone = λ s m. sound.work_gone s (ground (arith, m));
    work_root = λ s m. sound.work_root s (ground (arith, m));
    work_linked = λ s m. ground (
      arith,
      sound.work_linked s (ground (arith, m)),
      not_r s m,
      has-cut_out s r (h.parents child),
    );
    work_once = sound.work_once.1;
    up = λ c s m. sound.up c s (was c s m).0;
    up_once = λ c.
        if_rule Distinct (c == child) (λ q. cut_out-Distinct r _ (sound.up_once child))
          (λ q. sound.up_once c);
    up_linked = λ c s m. ground (arith, was c s m, sound.up_linked c s (was c s m).0);
    down = sound.down;
    down_linked = λ p s m.
        ground (arith, sound.down_linked p s m, not_child p s m, has-cut_out s r (h.parents child));
    down_once = sound.down_once;
    dead = λ c g. ground (arith, g, child-alive, sound.dead c g);
    owned = λ c g n. ground (arith, g, e, n, sound.owned c g n);
    null = sound.null;
  }

  abbrev killed : Heap
  killed = set_children child [] (finalise child (set_parents child left_over h))

  abbrev next_work : List Ptr
  next_work = h.children child ++ work

  -- where a reference to be visited comes from
  from :
      (s : Ptr) → has s next_work ≡ true → (has s (h.children child) ≡ true) ⊎ (has s work ≡ true)
  from s m = ground (arith, m, has-append s (h.children child) work)

  module _ (e : is_empty left_over ≡ true) where
    abbrev lists : (s : Ptr) → has s left_over ≡ (if s == r then false else has s (h.parents child))
    lists s = has-cut_out s r (h.parents child)

    -- the killed object had one reference only
    pub only : (s : Ptr) → has s (h.parents child) ≡ true → (s == r) ≡ true
    only s m = ground (arith, m, lists s, empty-has left_over s e)

    kill-linked :
        (s : Ptr)
        → (s == r) ≡ false
        → has s (h.parents (h.ref_child s)) ≡ true
        → has s (update h.parents child left_over (h.ref_child s)) ≡ true
    kill-linked s n m = ground (arith, n, m, lists s)

    kill-up_linked :
        (s : Ptr)
        → (h.ref_parent s ≡ 0)
          ⊎ (has s (h.children (h.ref_parent s)) ≡ true)
          ⊎ (has s (r ∷ work) ≡ true)
        → (s == r) ≡ false
        → (h.ref_parent s ≡ 0)
          ⊎ (has s (update h.children child [] (h.ref_parent s)) ≡ true)
          ⊎ (has s next_work ≡ true)
    kill-up_linked s u n = ground (arith, u, n, has-append s (h.children child) work)

    kill-Sound : Sound killed 0 next_work
    unfolding finalise
    kill-Sound = record {
      work_gone = λ s m. ground (arith, from s m, sound.work_gone s, sound.down child s);
      work_root =
          λ s m. ground (arith, from s m, sound.work_root s, sound.down child s, sound.null);
      work_linked = λ s m. ground (
        arith,
        from s m,
        kill-linked s,
        not_r s,
        not_child child s,
        sound.work_linked s,
        sound.down_linked child s,
      );
      work_once =
          append-Distinct (h.children child) work (sound.down_once child) sound.work_once.1
            (λ s m. ground (arith, m, sound.down child s m, child-alive, sound.work_gone s));
      up = λ c s m. sound.up c s (was c s m).0;
      up_once = λ c.
          if_rule Distinct (c == child) (λ q. cut_out-Distinct r _ (sound.up_once child))
            (λ q. sound.up_once c);
      up_linked = λ c s m. kill-up_linked s (sound.up_linked c s (was c s m).0) (was c s m).1;
      down = λ p s m. ground (arith, m, sound.down p s);
      down_linked = λ p s m. ground (arith, m, kill-linked s, not_child p s, sound.down_linked p s);
      down_once = λ p. if_rule Distinct (p == child) (λ q. tt) (λ q. sound.down_once p);
      dead = λ c g. ground (arith, g, sound.dead c, empty-eq left_over e);
      owned = λ c g n. ground (arith, g, e, n, sound.owned c);
      null = ground (arith, sound.null);
    }

  pub visit_ref-Sound :
      (ended : List Ptr) → Sound (visit_ref r work ended h).2 0 (visit_ref r work ended h).0
  visit_ref-Sound ended = elim (Bool-cases (is_empty left_over)) [
    | inl e ↦ rw (visit_ref-eq h r work ended, e) (kill-Sound e)
    | inr e ↦ rw (visit_ref-eq h r work ended, e) (keep-Sound e)
  ]

pub collect-Sound :
    (n : ℕ) (work ended : List Ptr) (h : Heap) (s : List Ptr × Heap)
    → collect n work ended h ≡ some s
    → Sound h 0 work
    → Sound s.1 0 []
unfolding collect
collect-Sound n [] ended h s e sound = let same : h ≡ s.1 = cc in rw (← same) sound
collect-Sound zero (r ∷ work) ended h s e sound = cc
collect-Sound (suc n) (r ∷ work) ended h s e sound =
    let t = visit_ref r work ended h in
    collect-Sound n t.0 t.1 t.2 s e (visit_ref-Sound h r work sound ended)
