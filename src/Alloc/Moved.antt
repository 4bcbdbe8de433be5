-- ===== src/Alloc/Moved.antt =====
-- `nih_realloc`: an object that moves, with its references.
use libnih.Prelude.{
  Ptr, update, ℕ, ◌≡◌, ◌⊎◌, inl, inr, refl, arith, true, false, Bool-cases, List, [], ◌∷◌, ◌==◌,
  if◌then◌else◌, if_rule, none, some,
}
use libnih.Alloc.{Heap, gone, point_to, move_to, realloc}
use libnih.Alloc.Sound.{has, Distinct, Sound}

point_to_lem :
    (ctx : Ptr) (rs : List Ptr) (f : Ptr → Ptr) (q : Ptr)
    → point_to ctx rs f q ≡ (if has q rs then ctx else f q)
point_to_lem ctx [] f q = refl
point_to_lem ctx (r ∷ rs) f q = ground (arith, point_to_lem ctx rs (update f r ctx) q)

module _ (h : Heap) (c ptr : Ptr) (size : ℕ) (sound : Sound h 0 []) (valid : (c == 0) ≡ false)
    (from : (ptr == 0) ≡ false) (alive : gone h ptr ≡ false)
    (room : (c ≡ ptr) ⊎ (gone h c ≡ true)) where
  moved_once :
      (f : Ptr → List Ptr)
      → ((d : Ptr) → Distinct (f d))
      → (d : Ptr) → Distinct (update (update f ptr []) c (f ptr) d)
  moved_once f once d =
      if_rule Distinct (d == c) (λ q. once ptr)
        (λ q. if_rule Distinct (d == ptr) (λ q'. tt) (λ q'. once d))

  child' :
      (s : Ptr)
      → (move_to c ptr size h).ref_child s ≡ (if has s (h.parents ptr) then c else h.ref_child s)
  unfolding move_to
  child' s = point_to_lem c (h.parents ptr) h.ref_child s

  parent' :
      (s : Ptr)
      → (move_to c ptr size h).ref_parent s ≡ (if has s (h.children ptr) then c else h.ref_parent s)
  unfolding move_to
  parent' s = point_to_lem c (h.children ptr) h.ref_parent s

  -- what stands in the lists of the others
  parents' :
      (d s : Ptr)
      → has s ((move_to c ptr size h).parents d) ≡ (
          if d == c then has s (h.parents ptr) else if d == ptr then false else has s (h.parents d))
  unfolding move_to
  parents' d s = ground arith

  children' :
      (d s : Ptr)
      → has s ((move_to c ptr size h).children d) ≡ (
          if d == c
          then has s (h.children ptr)
          else if d == ptr
          then false
          else has s (h.children d))
  unfolding move_to
  children' d s = ground arith

  -- a reference to or from the new place is one to or from the old
  linked' :
      (d s : Ptr)
      → has s ((move_to c ptr size h).parents d) ≡ true
      → (h.ref_parent s ≡ 0) ⊎ (has s (h.children (h.ref_parent s)) ≡ true)
  linked' d s n = ground (arith, n, parents' d s, sound.up_linked d s, sound.up_linked ptr s)

  fresh :
      (s : Ptr)
      → (c == ptr) ≡ false
      → (has s (h.parents c) ≡ false) × (has s (h.children c) ≡ false)
  fresh s n = ground (arith, n, room, sound.dead c)

  up_linked' :
      (d s : Ptr)
      → has s ((move_to c ptr size h).parents d) ≡ true
      → ((move_to c ptr size h).ref_parent s ≡ 0)
        ⊎ (has s ((move_to c ptr size h).children ((move_to c ptr size h).ref_parent s)) ≡ true)
  up_linked' d s n = elim (Bool-cases (has s (h.children ptr))) [
    | inl e ↦
        let new : (move_to c ptr size h).ref_parent s ≡ c = ground (arith, e, parent' s) in
        inr (rw new (ground (arith, e, children' c s)))
    | inr e ↦
        let new : (move_to c ptr size h).ref_parent s ≡ h.ref_parent s =
          ground (arith, e, parent' s) in
        rw new (
          ground (
            arith,
            e,
            linked' d s n,
            children' (h.ref_parent s) s,
            fresh s,
            sound.down (h.ref_parent s) s,
          ))
  ]

  down_linked' :
      (q s : Ptr)
      → has s ((move_to c ptr size h).children q) ≡ true
      → has s ((move_to c ptr size h).parents ((move_to c ptr size h).ref_child s)) ≡ true
  down_linked' q s n =
      let old : has s (h.parents (h.ref_child s)) ≡ true =
        ground (arith, n, children' q s, sound.down_linked q s, sound.down_linked ptr s) in
      elim (Bool-cases (has s (h.parents ptr))) [
        | inl e ↦
            let new : (move_to c ptr size h).ref_child s ≡ c = ground (arith, e, child' s) in
            rw new (ground (arith, e, parents' c s))
        | inr e ↦
            let new : (move_to c ptr size h).ref_child s ≡ h.ref_child s =
              ground (arith, e, child' s) in
            rw new (ground (arith, e, old, parents' (h.ref_child s) s, fresh s))
      ]

  pub move_to-Sound : Sound (move_to c ptr size h) 0 []
  unfolding move_to
  move_to-Sound = record {
    work_gone = λ s n. cc;
    work_linked = λ s n. cc;
    work_root = λ s n. cc;
    work_once = tt;
    up = λ d s n. ground (arith, n, parents' d s, child' s, sound.up d s, sound.up ptr s);
    up_once = λ d. moved_once h.parents sound.up_once d;
    up_linked = λ d s n. ground (arith, up_linked' d s n);
    down = λ q s n. ground (arith, n, children' q s, parent' s, sound.down q s, sound.down ptr s);
    down_linked = λ q s n. down_linked' q s n;
    down_once = λ q. moved_once h.children sound.down_once q;
    dead = λ d g. ground (arith, g, alive, sound.dead d);
    owned = λ d g n. ground (arith, g, n, alive, from, sound.owned d, sound.owned ptr);
    null = ground (arith, sound.null, valid);
  }

-- `realloc` of a living object changes nothing if it is given no memory; at the old address, or at
-- one that holds no object, the object has its lists of references, its destructor and the new
-- size, and the heap is sound.
pub realloc-Moves :
    (h : Heap) (c r ptr p : Ptr) (size : ℕ)
    → Sound h 0 []
    → (c == 0) ≡ false
    → (ptr == 0) ≡ false
    → gone h ptr ≡ false
    → (c ≡ ptr) ⊎ (gone h c ≡ true)
    → (realloc none r ptr p size h ≡ some (none, h))
      × (h' : Heap) × (realloc (some c) r ptr p size h ≡ some (some c, h'))
      × Sound h' 0 []
      × (h'.parents c ≡ h.parents ptr)
      × (h'.children c ≡ h.children ptr)
      × (h'.destructor c ≡ h.destructor ptr)
      × (h'.size c ≡ size)
unfolding realloc move_to
realloc-Moves h c r ptr p size sound valid from alive room = (
  rw (from, alive) refl,
  move_to c ptr size h,
  rw (from, alive) refl,
  move_to-Sound h c ptr size sound valid from alive room,
  ground arith,
  ground arith,
  ground arith,
  ground arith,
)
