-- ===== src/Alloc/Free.antt =====
-- `nih_alloc_context_free`, and the calls that lead to it.
use libnih.Prelude.{
  Ptr, ℕ, ◌+◌, ◌≤◌, ◌≡◌, refl, ap, ◌∙◌, arith, false, List, [], ◌∷◌, ◌++◌, ◌==◌, if_rule, some,
  length,
}
use libnih.Alloc.{Heap, gone, set_children, finalise, collect, alloc_context_free}
use libnih.Alloc.Sound.{Distinct, Sound}
use libnih.Alloc.Collect.{collect-Sound}
use libnih.Alloc.Outcome.{
  count, count-append, Frees, Frees-trans, collect-Frees, collect-freed, finalise-count,
}
use libnih.Alloc.Total.{refs_of, Covers, collect_total, refs_of-update}

abbrev begin : Heap → Ptr → Heap
begin h ctx = set_children ctx [] (finalise ctx h)

-- The list of the dead may start with others, and `freed` is not looked at.
Frees-shift :
    (h : Heap) (xs : List Ptr) (i : Heap) (ys xs' ys' freed' : List Ptr)
    → Frees h xs i ys
    → ((c : Ptr) → count c ys' + count c xs ≡ count c xs' + count c ys)
    → Frees h xs' (record i { freed = freed' }) ys'
Frees-shift h xs i ys xs' ys' freed' f e = record {
  same_parent = f.same_parent;
  same_child = f.same_child;
  same_size = f.same_size;
  same_destructor = f.same_destructor;
  stays_gone = f.stays_gone;
  kept = f.kept;
  lost = f.lost;
  ends_once = λ c. ground (arith, f.ends_once c, e c);
  calls_once = f.calls_once;
}

pub Sound-freed :
    (h : Heap) (loose : Ptr) (freed' : List Ptr)
    → Sound h loose []
    → Sound (record h { freed = freed' }) loose []
Sound-freed h loose freed' s = record {
  work_gone = s.work_gone;
  work_linked = s.work_linked;
  work_root = s.work_root;
  work_once = s.work_once;
  up = s.up;
  up_once = s.up_once;
  up_linked = s.up_linked;
  down = s.down;
  down_linked = s.down_linked;
  down_once = s.down_once;
  dead = s.dead;
  owned = s.owned;
  null = s.null;
}

module _ (h : Heap) (ctx : Ptr) (sound : Sound h ctx []) (alive : gone h ctx ≡ false)
    (valid : (ctx == 0) ≡ false) (bare : h.parents ctx ≡ []) where
  begin-Sound : Sound (begin h ctx) 0 (h.children ctx)
  unfolding finalise
  begin-Sound = record {
    work_gone = λ s m. ground (arith, sound.down ctx s m);
    work_linked = λ s m. sound.down_linked ctx s m;
    work_root = λ s m. ground (arith, sound.down ctx s m, sound.null, m);
    work_once = sound.down_once ctx;
    up = sound.up;
    up_once = sound.up_once;
    up_linked = λ c s m. ground (arith, sound.up_linked c s m);
    down = λ p s m. ground (arith, m, sound.down p s);
    down_linked = λ p s m. ground (arith, m, sound.down_linked p s);
    down_once = λ p. if_rule Distinct (p == ctx) (λ q. tt) (λ q. sound.down_once p);
    dead = λ c g. ground (arith, g, bare, sound.dead c);
    owned = λ c g n. ground (arith, g, n, sound.owned c);
    null = ground (arith, sound.null);
  }

  begin-Frees : (ended : List Ptr) → Frees h ended (begin h ctx) (ended ++ ctx ∷ [])
  unfolding finalise
  begin-Frees ended = record {
    same_parent = λ r. refl;
    same_child = λ r. refl;
    same_size = λ c. refl;
    same_destructor = λ c g. ground (arith, g);
    stays_gone = λ c g. ground (arith, g);
    kept = λ c r m. m;
    lost = λ c r m n. cc;
    ends_once = λ c. ground (arith, alive, count-append c ended (ctx ∷ []));
    calls_once = λ c. finalise-count ctx c h alive;
  }

  begin-freed : (begin h ctx).freed ≡ h.freed
  unfolding finalise
  begin-freed = refl

  begin-Covers :
      (os : List Ptr)
      → Covers os h
      → Covers os (begin h ctx)
        × (length (h.children ctx) + refs_of os (begin h ctx).children ≤ refs_of os h.children)
  unfolding finalise
  begin-Covers os covers =
      (λ p n. ground (arith, covers p n), refs_of-update os h.children ctx (covers ctx))

  abbrev pub Ended : Heap → Type 0
  Ended h' = Sound h' 0 [] × Frees h h.freed h' h'.freed

  ended :
      (n : ℕ) (s : List Ptr × Heap)
      → collect n (h.children ctx) [] (begin h ctx) ≡ some s
      → Ended (record s.1 { freed = s.1.freed ++ (s.0 ++ ctx ∷ []) })
  ended n s e =
      let f = s.1.freed ++ (s.0 ++ ctx ∷ []) in
      let same : s.1.freed ≡ h.freed =
        collect-freed n (h.children ctx) [] (begin h ctx) s e ∙ begin-freed in
      let parts : (c : Ptr) → count c f + 0 ≡ count c (h.freed ++ ctx ∷ []) + count c s.0 = λ c.
        ground (
          arith,
          count-append c s.1.freed (s.0 ++ ctx ∷ []),
          count-append c s.0 (ctx ∷ []),
          count-append c h.freed (ctx ∷ []),
          ap (count c) same,
        ) in
      (
        Sound-freed s.1 0 f (collect-Sound n (h.children ctx) [] (begin h ctx) s e begin-Sound),
        Frees-trans h h.freed (begin h ctx) (h.freed ++ ctx ∷ []) (record s.1 { freed = f }) f
            (begin-Frees h.freed)
            (Frees-shift (begin h ctx) [] s.1 s.0 (h.freed ++ ctx ∷ []) f f
              (collect-Frees n (h.children ctx) [] (begin h ctx) s e begin-Sound) parts),
      )

  pub alloc_context_free_lem :
      (n : ℕ) (os : List Ptr)
      → Covers os h
      → refs_of os h.children ≤ n
      → (h' : Heap) × (alloc_context_free n ctx h ≡ some h') × Ended h'
  unfolding alloc_context_free finalise
  alloc_context_free_lem n os covers enough =
      let first = begin-Covers os covers in
      let c =
        collect_total n os (h.children ctx) [] (begin h ctx) first.0 (omega (arith, first.1)) in
      (
        record c.0.1 { freed = c.0.1.freed ++ (c.0.0 ++ ctx ∷ []) },
        ground (arith, alive, valid, bare, c.1),
        ended n c.0 c.1,
      )
