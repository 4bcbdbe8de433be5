-- ===== src/Alloc/Exact.antt =====
-- `nih_unref`, `nih_free` and `nih_discard`: exactly the objects go that nothing keeps any more.
use libnih.Prelude.{
  Ptr, ℕ, ◌≤◌, ◌≡◌, inl, inr, refl, arith, true, false, Bool-cases, List, [], ◌∷◌, ◌==◌, some,
  length,
}
use libnih.Alloc.{
  Heap, gone, is_empty, cut_out, alloc_ref_free, free_refs, find_parent, alloc_ref_lookup,
  free_unowned, free, unref, discard,
}
use libnih.Alloc.Sound.{has, Sound, empty-eq}
use libnih.Alloc.Outcome.{Frees-refl}
use libnih.Alloc.Refs.{Drops, alloc_ref_free-Sound, alloc_ref_free-Drops, free_refs-Drops}
use libnih.Alloc.Free.{alloc_context_free_lem}
use libnih.Alloc.Total.{refs_of, Covers}
use libnih.Alloc.Gone.{Exact, Exact-intro, Sound-loosened, empty-of_has, Sound-settled}

module _ (n : ℕ) (os : List Ptr) (ptr : Ptr) where
  -- What a state needs so that its objects can be freed in `n` rounds.
  abbrev CanFree : Heap → Type 0
  CanFree h = Covers os h × (refs_of os h.children ≤ n)

  free_unowned-Exact :
      (h : Heap) (rs : List Ptr) (h1 : Heap)
      → Drops h rs h1
      → Sound h1 ptr []
      → (ptr == 0) ≡ false
      → gone h ptr ≡ false
      → CanFree h1
      → (h' : Heap) × (free_unowned n ptr h1 ≡ some h') × Exact h rs h'
  free_unowned-Exact h rs h1 d s valid alive can = elim (Bool-cases (is_empty (h1.parents ptr))) [
    | inl e ↦
        let bare = empty-eq (h1.parents ptr) e in
        let r =
          alloc_context_free_lem h1 ptr s (ground (arith, alive, d.same_destructor)) valid bare n os
            can.0 can.1 in
        (r.0, rw e r.1, Exact-intro h rs h1 r.0 d r.2)
    | inr e ↦
        (h1, rw e, Exact-intro h rs h1 h1 d (Sound-settled h1 ptr s e, Frees-refl h1 h1.freed))
  ]

find_parent-has :
    (h : Heap) (parent : Ptr) (rs : List Ptr) {r : Ptr}
    → find_parent h parent rs ≡ some r
    → (has r rs ≡ true) × (h.ref_parent r ≡ parent)
find_parent-has h parent [] e = cc
find_parent-has h parent (x ∷ rs) {r} e = ground (arith, find_parent-has h parent rs {r = r})

-- What a successful look-up says.
pub lookup-has :
    (parent ptr : Ptr) (h : Heap) {r : Ptr}
    → alloc_ref_lookup parent ptr h ≡ some (some r)
    → ((ptr == 0) ≡ false)
      × (gone h ptr ≡ false)
      × (has r (h.parents ptr) ≡ true)
      × (h.ref_parent r ≡ parent)
unfolding alloc_ref_lookup
lookup-has parent ptr h {r} e = ground (arith, find_parent-has h parent (h.parents ptr) {r = r})

length-cut_out : (r : Ptr) (xs : List Ptr) → length (cut_out r xs) ≤ length xs
length-cut_out r [] = omega arith
length-cut_out r (x ∷ xs) = ground (arith, length-cut_out r xs)

refs_of-alloc_ref_free :
    (os : List Ptr) (r : Ptr) (h : Heap)
    → refs_of os (alloc_ref_free r h).children ≤ refs_of os h.children
unfolding refs_of alloc_ref_free
refs_of-alloc_ref_free [] r h = omega arith
refs_of-alloc_ref_free (o ∷ os) r h =
    ground (arith, refs_of-alloc_ref_free os r h, length-cut_out r (h.children (h.ref_parent r)))

alloc_ref_free-CanFree :
    (n : ℕ) (os : List Ptr) (r : Ptr) (h : Heap)
    → Covers os h × (refs_of os h.children ≤ n)
    → Covers os (alloc_ref_free r h) × (refs_of os (alloc_ref_free r h).children ≤ n)
unfolding alloc_ref_free
alloc_ref_free-CanFree n os r h can =
    ((λ p q. ground (arith, can.0 p q)), omega (arith, can.1, refs_of-alloc_ref_free os r h))

free_refs-CanFree :
    (n : ℕ) (os rs : List Ptr) (h : Heap)
    → Covers os h × (refs_of os h.children ≤ n)
    → Covers os (free_refs rs h) × (refs_of os (free_refs rs h).children ≤ n)
free_refs-CanFree n os [] h can = can
free_refs-CanFree n os (r ∷ rs) h can =
    free_refs-CanFree n os rs (alloc_ref_free r h) (alloc_ref_free-CanFree n os r h can)

-- An object that has given up all its references is gone.
freed-gone :
    (h h' : Heap) (c : Ptr) → Exact h (h.parents c) h' → (c == 0) ≡ false → gone h' c ≡ true
freed-gone h h' c e n = elim (Bool-cases (gone h' c)) [
  | inl g ↦ g
  | inr g ↦ let x = e.stays c g n in cc (x.1, x.2)
]

module _ (n : ℕ) (os : List Ptr) (ptr : Ptr) (h : Heap) (sound : Sound h 0 [])
    (covers : Covers os h) (enough : refs_of os h.children ≤ n) where
  -- A reference given up.
  drop-Exact :
      (r : Ptr)
      → (ptr == 0) ≡ false
      → gone h ptr ≡ false
      → has r (h.parents ptr) ≡ true
      → (h' : Heap) × (free_unowned n ptr (alloc_ref_free r h) ≡ some h') × Exact h (r ∷ []) h'
  drop-Exact r valid alive m =
      free_unowned-Exact n os ptr h (r ∷ []) (alloc_ref_free r h)
        (alloc_ref_free-Drops h 0 ptr r sound (inl refl) m)
        (alloc_ref_free-Sound h 0 ptr r sound (inl refl) m) valid alive
        (alloc_ref_free-CanFree n os r h (covers, enough))

  -- `unref` of a parent that the object has runs to its end, given as many rounds as there are
  -- references to children: in the state after it both lists of every reference agree, no object
  -- that is gone has a reference, an object is gone just when all its references but the given one
  -- came from objects that went, and each object that went had its destructor called once, if it
  -- had one, and was freed once.
  pub unref-Exact :
      (parent r : Ptr)
      → alloc_ref_lookup parent ptr h ≡ some (some r)
      → (h' : Heap) × (unref n ptr parent h ≡ some h') × Exact h (r ∷ []) h'
  unfolding unref
  unref-Exact parent r found =
      let here = lookup-has parent ptr h found in rw found (drop-Exact r here.0 here.1 here.2)

  -- `discard`, likewise, of an object that has the reference of `NULL`.
  pub discard-Exact :
      (r : Ptr)
      → alloc_ref_lookup 0 ptr h ≡ some (some r)
      → (h' : Heap) × (discard n ptr h ≡ some h') × Exact h (r ∷ []) h'
  unfolding discard
  discard-Exact r found =
      let here = lookup-has 0 ptr h found in rw found (drop-Exact r here.0 here.1 here.2)

  -- `free` runs to its end, given as many rounds as there are references to children, and the
  -- object is gone, with exactly those objects that had only references from objects that went;
  -- each has its destructor called once, if it had one, and is freed once.
  pub free-Exact :
      (ptr == 0) ≡ false
      → gone h ptr ≡ false
      → (h' : Heap) × (free n ptr h ≡ some h') × Exact h (h.parents ptr) h' × (gone h' ptr ≡ true)
  unfolding free
  free-Exact valid alive =
      let h1 = free_refs (h.parents ptr) h in
      let d =
        free_refs-Drops ptr (h.parents ptr) h (Sound-loosened h ptr sound) (sound.up_once ptr)
          (λ r m. m) in
      let alive1 : gone h1 ptr ≡ false = ground (arith, alive, d.0.same_destructor) in
      let can = free_refs-CanFree n os (h.parents ptr) h (covers, enough) in
      let none_left = empty-of_has (h1.parents ptr) (λ r. ground (arith, d.0.dropped ptr r)) in
      let r = alloc_context_free_lem h1 ptr d.1 alive1 valid none_left n os can.0 can.1 in
      let exact = Exact-intro h (h.parents ptr) h1 r.0 d.0 r.2 in
      (r.0, rw (valid, alive) r.1, exact, freed-gone h r.0 ptr exact valid)
