-- ===== src/Alloc/Gone.antt =====
-- What it says of a state that exactly the objects are gone that nothing keeps any more.
use libnih.Prelude.{
  Ptr, ℕ, ◌+◌, ◌≡◌, ◌⊎◌, refl, ap, arith, true, false, Bool-cases, List, [], ◌∷◌, ◌==◌,
}
use libnih.Alloc.{Heap, Destructor, is_final, gone, is_empty}
use libnih.Alloc.Sound.{has, Sound}
use libnih.Alloc.Outcome.{count, passed, called, Frees}
use libnih.Alloc.Refs.{Drops}

-- What a reference is worth: its parent is `NULL`, or has not gone.
abbrev pub Keeps : Heap → Ptr → Type 0
Keeps h r = (h.ref_parent r ≡ 0) ⊎ (gone h (h.ref_parent r) ≡ false)

-- The references `rs` were given up, and `h'` is the state after it. An object that goes had only
-- those and references from objects that go; one that stays has another. The destructor of an
-- object that goes is called once, and its memory freed once; those that stay keep what they had.
pub record Exact (h : Heap) (rs : List Ptr) (h' : Heap) : Type 0 where
  pub sound : Sound h' 0 []
  pub goes :
      (c r : Ptr)
      → gone h' c ≡ true
      → has r (h.parents c) ≡ true
      → (has r rs ≡ true) ⊎ ((gone h' (h.ref_parent r) ≡ true) × ((h.ref_parent r == 0) ≡ false))
  pub stays :
      (c : Ptr)
      → gone h' c ≡ false
      → (c == 0) ≡ false
      → (r : Ptr) × (has r (h.parents c) ≡ true) × (has r rs ≡ false) × Keeps h' r
  pub stays_gone : (c : Ptr) → gone h c ≡ true → gone h' c ≡ true
  pub kept : (c r : Ptr) → has r (h'.parents c) ≡ true → has r (h.parents c) ≡ true
  pub same_parent : (r : Ptr) → h'.ref_parent r ≡ h.ref_parent r
  pub same_child : (r : Ptr) → h'.ref_child r ≡ h.ref_child r
  pub same_size : (c : Ptr) → h'.size c ≡ h.size c
  pub same_destructor : (c : Ptr) → gone h' c ≡ false → h'.destructor c ≡ h.destructor c
  pub freed_once : (c : Ptr) → count c h'.freed ≡ count c h.freed + passed h h' c
  pub called_once : (c : Ptr) → count c h'.called ≡ count c h.called + called h h' c

-- what a list holds that is not empty
first : (xs : List Ptr) → is_empty xs ≡ false → (r : Ptr) × (has r xs ≡ true)
first [] e = cc
first (x ∷ xs) e = (x, ground arith)

Sound-Keeps : (h : Heap) (c r : Ptr) → Sound h 0 [] → has r (h.parents c) ≡ true → Keeps h r
Sound-Keeps h c r s m =
    ground (arith, s.up_linked c r m, Bool-cases (gone h (h.ref_parent r)), s.dead (h.ref_parent r))

module _ (h : Heap) (rs : List Ptr) (h1 h' : Heap) (d : Drops h rs h1)
    (e : Sound h' 0 [] × Frees h1 h1.freed h' h'.freed) where
  abbrev f : Frees h1 h1.freed h' h'.freed
  f = e.1

  same_gone : (c : Ptr) → gone h1 c ≡ gone h c
  same_gone c = ap (λ (g : Ptr → Destructor). is_final (g c)) d.same_destructor

  kept' :
      (c r : Ptr) → has r (h'.parents c) ≡ true → (has r (h.parents c) ≡ true) × (has r rs ≡ false)
  kept' c r m = ground (arith, f.kept c r m, d.dropped c r)

  pub Exact-intro : Exact h rs h'
  Exact-intro = record {
    sound = e.0;
    goes = λ c r g m. ground (
      arith,
      m,
      d.dropped c r,
      f.lost c r,
      e.0.dead c g,
      ap (λ (p : Ptr → Ptr). p r) d.same_parent,
    );
    stays = λ c g n.
        let x = first (h'.parents c) (e.0.owned c g (ground (arith, n))) in
        (x.0, (kept' c x.0 x.1).0, (kept' c x.0 x.1).1, Sound-Keeps h' c x.0 e.0 x.1);
    stays_gone = λ c g. f.stays_gone c (cc (same_gone c));
    kept = λ c r m. (kept' c r m).0;
    same_parent = λ r. cc (f.same_parent r, ap (λ (p : Ptr → Ptr). p r) d.same_parent);
    same_child = λ r. cc (f.same_child r, ap (λ (p : Ptr → Ptr). p r) d.same_child);
    same_size = λ c. cc (f.same_size c, ap (λ (p : Ptr → ℕ). p c) d.same_size);
    same_destructor =
        λ c g. cc (f.same_destructor c g, ap (λ (p : Ptr → Destructor). p c) d.same_destructor);
    freed_once = λ c. ground (arith, f.ends_once c, same_gone c, ap (count c) d.same_freed);
    called_once = λ c. ground (
      arith,
      f.calls_once c,
      same_gone c,
      ap (count c) d.same_called,
      ap (λ (p : Ptr → Destructor). p c) d.same_destructor,
    );
  }

pub Sound-loosened : (h : Heap) (c : Ptr) → Sound h 0 [] → Sound h c []
Sound-loosened h c s = record {
  work_gone = s.work_gone;
  work_linked = s.work_linked;
  work_root = s.work_root;
  work_once = s.work_once;
  up = s.up;
  up_once = s.up_once;
  up_linked = s.up_linked;
  down = s.down;
  down_linked = s.down_linked;
  down_once = s.down_once;
  dead = s.dead;
  owned = λ d g n. ground (arith, n, s.owned d g);
  null = s.null;
}

pub empty-of_has : (xs : List Ptr) → ((r : Ptr) → has r xs ≡ false) → xs ≡ []
empty-of_has [] e = refl
empty-of_has (x ∷ xs) e = ground (arith, e x)

-- An object that has kept a reference is no longer loose.
pub Sound-settled :
    (h : Heap) (c : Ptr) → Sound h c [] → is_empty (h.parents c) ≡ false → Sound h 0 []
Sound-settled h c s e = record {
  work_gone = s.work_gone;
  work_linked = s.work_linked;
  work_root = s.work_root;
  work_once = s.work_once;
  up = s.up;
  up_once = s.up_once;
  up_linked = s.up_linked;
  down = s.down;
  down_linked = s.down_linked;
  down_once = s.down_once;
  dead = s.dead;
  owned = λ d g n. ground (arith, g, n, e, s.owned d g);
  null = s.null;
}
