-- ===== src/Alloc/Grow.antt =====
-- `nih_alloc` and `nih_ref`: a new object, and a new reference.
use libnih.Prelude.{
  Ptr, update, ℕ, ◌≡◌, ◌⊎◌, inl, inr, refl, arith, true, false, List, [], ◌∷◌, ◌==◌, if◌then◌else◌,
  if_rule, some,
}
use libnih.Alloc.{Heap, unset, gone, alloc_ref_new, alloc, ref}
use libnih.Alloc.Sound.{has, Distinct, Sound}

-- Memory that is no reference yet.
abbrev pub IsUnused : Ptr → Heap → Type 0
IsUnused r h =
    ((c : Ptr) → has r (h.parents c) ≡ false) × ((p : Ptr) → has r (h.children p) ≡ false)

-- An object that may be the parent of a reference, `NULL` included.
abbrev pub CanHold : Ptr → Heap → Type 0
CanHold p h = (p ≡ 0) ⊎ (gone h p ≡ false)

module _ (h : Heap) (loose c r p : Ptr) (sound : Sound h loose [])
    (only : (loose ≡ 0) ⊎ (loose ≡ c)) (unused : IsUnused r h) (holds : CanHold p h)
    (valid : (c == 0) ≡ false) (alive : gone h c ≡ false) where
  abbrev new_children : Ptr → List Ptr
  new_children = if p == 0 then h.children else update h.children p (r ∷ h.children p)

  abbrev grown : Heap
  grown = record h {
    ref_parent = update h.ref_parent r p;
    ref_child = update h.ref_child r c;
    children = new_children;
    parents = update h.parents c (r ∷ h.parents c);
  }

  pub alloc_ref_new-eq : alloc_ref_new r p c h ≡ some grown
  unfolding alloc_ref_new
  alloc_ref_new-eq = ground (arith, holds, valid, alive)

  pub grown-Sound : Sound grown 0 []
  grown-Sound = record {
    work_gone = λ s n. cc;
    work_linked = λ s n. cc;
    work_root = λ s n. cc;
    work_once = tt;
    up = λ d s n. ground (arith, n, sound.up d s, unused.0 d);
    up_once =
        λ d. if_rule Distinct (d == c) (λ q. (unused.0 c, sound.up_once c)) (λ q. sound.up_once d);
    up_linked = λ d s n. ground (arith, n, sound.up_linked d s, unused.0 d);
    down = λ q s n. ground (arith, n, sound.down q s, unused.1 q);
    down_linked = λ q s n. ground (arith, n, sound.down_linked q s, unused.1 q);
    down_once = λ q.
        if_rule (λ (f : Ptr → List Ptr). Distinct (f q)) (p == 0) (λ e. sound.down_once q)
          (λ e.
            if_rule Distinct (q == p) (λ e'. (unused.1 p, sound.down_once p))
              (λ e'. sound.down_once q));
    dead = λ d g. ground (arith, g, sound.dead d, holds, alive, sound.null);
    owned = λ d g n. ground (arith, g, n, only, sound.owned d g);
    null = ground (arith, sound.null);
  }

-- What the new reference does: it is the first one of the child, and all else stays.
pub record AddsRef (h : Heap) (r p c : Ptr) (h' : Heap) : Type 0 where
  pub sound : Sound h' 0 []
  pub parents : (d : Ptr) → h'.parents d ≡ (if d == c then r ∷ h.parents c else h.parents d)
  pub parent : h'.ref_parent r ≡ p
  pub child : h'.ref_child r ≡ c
  pub same_gone : (d : Ptr) → gone h' d ≡ gone h d

module _ (h : Heap) (r p c : Ptr) (sound : Sound h 0 []) (unused : IsUnused r h)
    (holds : CanHold p h) where
  -- `ref` of a living object, with a parent that is `NULL` or lives and an unused reference, makes
  -- that reference the first of the object, changes the references of no other object, and keeps
  -- the heap sound.
  pub ref-AddsRef :
      (c == 0) ≡ false
      → gone h c ≡ false
      → (h' : Heap) × (ref r c p h ≡ some h') × AddsRef h r p c h'
  unfolding ref
  ref-AddsRef valid alive = (
    grown h 0 c r p sound (inl refl) unused holds valid alive,
    alloc_ref_new-eq h 0 c r p sound (inl refl) unused holds valid alive,
    record {
      sound = grown-Sound h 0 c r p sound (inl refl) unused holds valid alive;
      parents = λ d. ground arith;
      parent = ground arith;
      child = ground arith;
      same_gone = λ d. refl;
    },
  )

  abbrev made : ℕ → Heap
  made size = record h {
    parents = update h.parents c [];
    children = update h.children c [];
    destructor = update h.destructor c unset;
    size = update h.size c size;
  }

  made-Sound : (size : ℕ) → gone h c ≡ true → (c == 0) ≡ false → Sound (made size) c []
  made-Sound size fresh valid = record {
    work_gone = λ s n. cc;
    work_linked = λ s n. cc;
    work_root = λ s n. cc;
    work_once = tt;
    up = λ d s n. sound.up d s (ground (arith, n));
    up_once = λ d. if_rule Distinct (d == c) (λ q. tt) (λ q. sound.up_once d);
    up_linked = λ d s n. ground (arith, n, sound.up_linked d s, sound.dead c fresh);
    down = λ q s n. sound.down q s (ground (arith, n));
    down_linked = λ q s n. ground (arith, n, sound.down_linked q s, sound.dead c fresh);
    down_once = λ q. if_rule Distinct (q == c) (λ e. tt) (λ e. sound.down_once q);
    dead = λ d g. ground (arith, g, sound.dead d);
    owned = λ d g n. ground (arith, g, n, sound.owned d);
    null = ground (arith, sound.null);
  }

  -- `alloc`, with memory at an address that holds no object, makes a living object of the given
  -- size with no children and no destructor, whose one reference is from the parent, and keeps the
  -- heap sound.
  pub alloc-AddsRef :
      (size : ℕ)
      → (c == 0) ≡ false
      → gone h c ≡ true
      → (h' : Heap) × (alloc (some c) r p size h ≡ some (some c, h'))
        × Sound h' 0 []
        × (h'.parents c ≡ r ∷ [])
        × (h'.children c ≡ [])
        × (h'.destructor c ≡ unset)
        × (h'.size c ≡ size)
        × (h'.ref_parent r ≡ p)
  unfolding alloc
  alloc-AddsRef size valid fresh =
      let u : IsUnused r (made size) =
        ((λ d. ground (arith, unused.0 d)), (λ d. ground (arith, unused.1 d))) in
      let k : CanHold p (made size) = ground (arith, holds) in
      let alive : gone (made size) c ≡ false = ground arith in
      let s = made-Sound size fresh valid in
      (
        grown (made size) c c r p s (inr refl) u k valid alive,
        rw (alloc_ref_new-eq (made size) c c r p s (inr refl) u k valid alive) refl,
        grown-Sound (made size) c c r p s (inr refl) u k valid alive,
        ground arith,
        ground (arith, holds, fresh, valid),
        ground arith,
        ground arith,
        ground arith,
      )
