-- ===== src/Hash/Replace.antt =====
-- What `nih_hash_replace` leaves in the bin of its key.
use libnih.Prelude.{
  Ptr, ℕ, ◌+◌, ◌≡◌, ◌≢◌, ◌<◌, ◌⊎◌, inl, inr, ap, ◌∙◌, arith, Bool, Bool-cases, List, [], ◌∷◌, ◌++◌,
  All-append, All-before, All-behind, length, none, some, Option-cases,
}
use mathlib.Core.Path.{subst}
use libnih.Ring.{Heap, list_add, list_remove}
use libnih.Ring.Links.{Linked}
use libnih.Ring.Segment.{RingOf, Avoids}
use libnih.Ring.Move.{list_add-appends, list_add-frame, list_remove-deletes}
use libnih.Hash.{Hash, hash_add, bin_of, same_key, hash_lookup, hash_replace}
use libnih.Hash.Search.{first_match}
use libnih.Hash.Bins.{Holds, Fresh, slot, slot_bound}
use libnih.Hash.Unique.{found, hash_lookup-found, match_loop-found}

-- where the first match stands
first_match-some :
    (p : Ptr → Bool) (xs : List Ptr) (x : Ptr)
    → first_match p xs ≡ some x
    → (ys : List Ptr) × (zs : List Ptr) × (xs ≡ ys ++ x ∷ zs)
first_match-some p [] x e = cc
first_match-some p (y ∷ xs) x e = elim (Bool-cases (p y)) [
  | inl hit ↦ ([], xs, ap (λ z. z ∷ xs) (ground (arith, hit, e)))
  | inr miss ↦
      let rest = first_match-some p xs x (ground (arith, miss, e)) in
      (y ∷ rest.0, rest.1, ap (◌∷◌ y) rest.2)
]

module _ {Key : Type 0} (hash : Hash Key) (h : Heap) (contents : ℕ → List Ptr)
    (holds : Holds hash h contents) (positive : 0 < hash.size) (entry : Ptr)
    (fresh : Fresh hash contents entry) (rounds : ℕ)
    (enough : length (contents (slot hash (hash.key_function entry))) < rounds) where
  -- the bin once its entry `x` has made way for the new one
  ring_replaced :
      (x : Ptr) (ys zs : List Ptr)
      → contents (slot hash (hash.key_function entry)) ≡ ys ++ x ∷ zs
      → Linked (list_add (bin_of hash (hash.key_function entry)) entry (list_remove x h))
        × RingOf
            (list_add (bin_of hash (hash.key_function entry)) entry (list_remove x h))
            (bin_of hash (hash.key_function entry))
            ((ys ++ zs) ++ entry ∷ [])
        × RingOf (list_add (bin_of hash (hash.key_function entry)) entry (list_remove x h)) x []
  unfolding bin_of
  ring_replaced x ys zs e =
      let b = slot hash (hash.key_function entry) in
      let bin = hash.bins + b in
      let lt = slot_bound hash h contents holds positive (hash.key_function entry) in
      let ring : RingOf h bin (ys ++ x ∷ zs) = subst (λ xs. RingOf h bin xs) e (holds.rings b lt) in
      let away : Avoids entry (ys ++ x ∷ zs) = subst (λ xs. Avoids entry xs) e (fresh.away b lt) in
      let behind = All-behind (λ z. z ≢ entry) ys (x ∷ zs) away in
      let other = fresh.other b lt in
      let removed = list_remove-deletes h holds.linked x bin ys zs ring in
      let added =
        list_add-appends (list_remove x h) removed.0 bin entry other (ys ++ zs) removed.1 (
          All-append (λ z. z ≢ entry) ys zs (All-before (λ z. z ≢ entry) ys (x ∷ zs) away)
            behind.1) in
      (
        added.0,
        added.1,
        list_add-frame (list_remove x h) removed.0 bin entry other x [] removed.2 behind.0 tt
            (All-behind (λ z. z ≢ bin) ys (x ∷ zs) ring.1).0 tt,
      )

  -- In a table of at least one bin whose bins hold the entries that their keys name,
  -- `nih_hash_replace` of an entry that is in no bin, given more rounds than its bin has entries,
  -- does one of two things. Where a lookup of the key finds no entry, it adds the entry and returns
  -- `NULL`. Where the lookup finds one, it returns that one, alone in a list of its own, and the
  -- bin has the other entries in their order and then the new one; the pointers of all entries stay
  -- inverse.
  pub hash_replace-Replaces :
      (hash_lookup hash rounds (hash.key_function entry) h ≡ some none)
        × (hash_replace hash rounds entry h ≡ some (none, hash_add hash entry h))
      ⊎ ((x : Ptr) × (ys : List Ptr) × (zs : List Ptr) × (g : Heap) × (contents
              (slot hash (hash.key_function entry))
            ≡ ys ++ x ∷ zs)
          × (hash_lookup hash rounds (hash.key_function entry) h ≡ some (some x))
          × (hash_replace hash rounds entry h ≡ some (some x, g))
          × Linked g
          × RingOf g (bin_of hash (hash.key_function entry)) ((ys ++ zs) ++ entry ∷ [])
          × RingOf g x [])
  unfolding hash_replace hash_add found
  hash_replace-Replaces =
      let key = hash.key_function entry in
      let looked = hash_lookup-found hash h contents holds positive key rounds enough in
      let matched = match_loop-found hash h contents holds positive key rounds enough in
      elim (Option-cases (found hash h contents holds positive key)) [
        | inl miss ↦ inl (looked ∙ ap some miss, ground (arith, matched, miss))
        | inr hit ↦
            let at = first_match-some (same_key hash key) (contents (slot hash key)) hit.0 hit.1 in
            let after = ring_replaced hit.0 at.0 at.1 at.2 in
            inr (
              hit.0,
              at.0,
              at.1,
              list_add (bin_of hash key) entry (list_remove hit.0 h),
              at.2,
              looked ∙ ap some hit.1,
              ground (arith, matched, hit.1),
              after.0,
              after.1,
              after.2,
            )
      ]
