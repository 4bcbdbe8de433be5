-- ===== src/Alloc/Tests.antt =====
-- nih/alloc.c run on three objects.
use libnih.Prelude.{
  Ptr, ◌≡◌, inl, inr, refl, arith, ◌>>=◌, true, not, ◌&&◌, none, some, List, [], ◌∷◌, ◌==◌,
  if◌then◌else◌, if_rule, ◌≤◌,
}
use libnih.Alloc.{
  Heap, unset, calls, finalised, gone, alloc_ref_lookup, unref, free, alloc, ref, realloc,
  alloc_ref_free, alloc_context_free, finalise, collect, visit_ref,
}
use libnih.Alloc.Sound.{Distinct, Sound}
use libnih.Alloc.Total.{refs_of, Covers}
use libnih.Alloc.Gone.{Exact}
use libnih.Alloc.Exact.{unref-Exact, free-Exact}
use libnih.Alloc.Grow.{AddsRef, ref-AddsRef, alloc-AddsRef}
use libnih.Alloc.Moved.{realloc-Moves}

-- 11 holds 1; 12 is from 1 to 2, 13 from 2 to 3, and 14 from 1 to 3.
abbrev three : Heap
three = record {
  parents = λ p.
      if p == 1 then 11 ∷ [] else if p == 2 then 12 ∷ [] else if p == 3 then 14 ∷ 13 ∷ [] else [];
  children = λ p. if p == 1 then 14 ∷ 12 ∷ [] else if p == 2 then 13 ∷ [] else [];
  destructor = λ p.
      if p == 1 then unset else if p == 2 then calls 7 else if p == 3 then unset else finalised;
  size = λ p. 8;
  ref_parent = λ r. if r == 12 then 1 else if r == 13 then 2 else if r == 14 then 1 else 0;
  ref_child = λ r. if r == 11 then 1 else if r == 12 then 2 else 3;
  called = [];
  freed = [];
}

three-Sound : Sound three 0 []
three-Sound = record {
  work_gone = λ s m. cc;
  work_linked = λ s m. cc;
  work_root = λ s m. cc;
  work_once = tt;
  up = λ c s m. ground (arith, m);
  up_once = λ c.
      if_rule Distinct (c == 1) (λ e. (refl, tt))
        (λ e.
          if_rule Distinct (c == 2) (λ e. (refl, tt))
            (λ e. if_rule Distinct (c == 3) (λ e. (refl, (refl, tt))) (λ e. tt)));
  up_linked = λ c s m. ground (arith, m);
  down = λ p s m. ground (arith, m);
  down_linked = λ p s m. ground (arith, m);
  down_once = λ c.
      if_rule Distinct (c == 1) (λ e. (refl, (refl, tt)))
        (λ e. if_rule Distinct (c == 2) (λ e. (refl, tt)) (λ e. tt));
  dead = λ c g. ground (arith, g);
  owned = λ c g n. ground (arith, g, n);
  null = refl;
}

abbrev objects : List Ptr
objects = 1 ∷ 2 ∷ 3 ∷ []

three-Covers : Covers objects three
three-Covers p n = ground (arith, n)

rounds : refs_of objects three.children ≤ 5
unfolding refs_of
rounds = omega arith

-- Without its holder the first object goes, then both others, each once.
order : (unref 5 1 0 three >>= λ h. some h.freed) ≡ some (2 ∷ 3 ∷ 1 ∷ [])
unfolding unref alloc_ref_lookup alloc_ref_free alloc_context_free finalise collect visit_ref
order = refl

-- The third is kept by the first.
kept : (unref 5 2 1 three >>= λ h. some (gone h 2 && not (gone h 3))) ≡ some true
unfolding unref alloc_ref_lookup alloc_ref_free alloc_context_free finalise collect visit_ref
kept = refl

unref-Exact_example : (h' : Heap) × (unref 5 1 0 three ≡ some h') × Exact three (11 ∷ []) h'
unfolding alloc_ref_lookup
unref-Exact_example = unref-Exact 5 objects 1 three three-Sound three-Covers rounds 0 11 refl

free-Exact_example :
    (h' : Heap) × (free 5 2 three ≡ some h') × Exact three (12 ∷ []) h' × (gone h' 2 ≡ true)
free-Exact_example = free-Exact 5 objects 2 three three-Sound three-Covers rounds refl refl

ref-AddsRef_example : (h' : Heap) × (ref 15 2 0 three ≡ some h') × AddsRef three 15 0 2 h'
ref-AddsRef_example =
    ref-AddsRef three 15 0 2 three-Sound ((λ c. ground arith), (λ c. ground arith)) (inl refl) refl
      refl

alloc-AddsRef_example :
    (h' : Heap) × (alloc (some 4) 15 3 16 three ≡ some (some 4, h'))
    × Sound h' 0 []
    × (h'.parents 4 ≡ 15 ∷ [])
    × (h'.children 4 ≡ [])
    × (h'.destructor 4 ≡ unset)
    × (h'.size 4 ≡ 16)
    × (h'.ref_parent 15 ≡ 3)
alloc-AddsRef_example =
    alloc-AddsRef three 15 3 4 three-Sound ((λ c. ground arith), (λ c. ground arith)) (inr refl) 16
      refl refl

realloc-Moves_example :
    (realloc none 0 2 0 32 three ≡ some (none, three))
    × (h' : Heap) × (realloc (some 9) 0 2 0 32 three ≡ some (some 9, h'))
    × Sound h' 0 []
    × (h'.parents 9 ≡ 12 ∷ [])
    × (h'.children 9 ≡ 13 ∷ [])
    × (h'.destructor 9 ≡ calls 7)
    × (h'.size 9 ≡ 32)
realloc-Moves_example = realloc-Moves three 9 0 2 0 32 three-Sound refl refl refl (inr refl)
