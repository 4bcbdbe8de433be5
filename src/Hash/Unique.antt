-- ===== src/Hash/Unique.antt =====
-- What a lookup finds after `nih_hash_add_unique`.
use libnih.Prelude.{
  Ptr, ℕ, ◌+◌, ◌%◌, ◌≡◌, ◌<◌, ◌⊎◌, inl, inr, arith, true, false, List, [], ◌∷◌, ◌++◌, All, length,
  Option, none, some, Option-cases, Bool, Bool-cases, All-map, sym, ap, ◌∙◌, suc, length-append,
}
use libnih.Ring.{Heap}
use libnih.Hash.{Hash, hash_add, bin_of, same_key, hash_lookup, match_loop, hash_add_unique}
use libnih.Hash.Search.{first_match, candidates, match_loop-finds, candidates-zero}
use mathlib.Core.Path.{subst}
use mathlib.Core.Option.{some_inj}
use native.Mathlib.Decide.{ℕ_discrete}
use libnih.Hash.Bins.{equal, slot_bound, Holds, Fresh, slot, put, hash_search-finds, hash_add-Holds}

first_match-none :
    (p : Ptr → Bool) (xs : List Ptr) → first_match p xs ≡ none → All (λ x. p x ≡ false) xs
first_match-none p [] h = tt
first_match-none p (x ∷ xs) h = elim (Bool-cases (p x)) [
  | inl e ↦ ground (arith, e, h)
  | inr e ↦ (e, first_match-none p xs (ground (arith, e, h)))
]

put-same :
    {Key : Type 0} (hash : Hash Key) (contents : ℕ → List Ptr) (b : ℕ) (entry : Ptr)
    → put hash contents b entry b ≡ contents b ++ entry ∷ []
put-same hash contents b entry = ground arith

first_match-append :
    (p : Ptr → Bool) (xs : List Ptr) (y : Ptr)
    → first_match p xs ≡ none
    → p y ≡ true
    → first_match p (xs ++ y ∷ []) ≡ some y
first_match-append p [] y h e = ground arith
first_match-append p (x ∷ xs) y h e = ground (arith, first_match-append p xs y)

module _ {Key : Type 0} (hash : Hash Key) (h : Heap) (contents : ℕ → List Ptr)
    (holds : Holds hash h contents) (positive : 0 < hash.size) where
  unfoldable pub found : (key : Key) → Option Ptr
  found key = first_match (same_key hash key) (contents (slot hash key))

  pub hash_lookup-found :
      (key : Key) (rounds : ℕ)
      → length (contents (slot hash key)) < rounds
      → hash_lookup hash rounds key h ≡ some (found key)
  unfolding hash_lookup found
  hash_lookup-found key rounds l =
      hash_search-finds hash h contents holds positive key rounds 0 l
      ∙ ap (λ xs. some (first_match (same_key hash key) xs))
          (candidates-zero (contents (slot hash key)))

  pub match_loop-found :
      (key : Key) (rounds : ℕ)
      → length (contents (slot hash key)) < rounds
      → match_loop hash rounds h (bin_of hash key) key (h.next (bin_of hash key)) ≡ some (found key)
  unfolding bin_of found
  match_loop-found key rounds l =
      let b = slot hash key in
      let ring = holds.rings b (slot_bound hash h contents holds positive key) in
      match_loop-finds hash h (hash.bins + b) key rounds (hash.bins + b) (contents b) ring.0 ring.1
        l

  -- In a table of at least one bin whose bins hold the entries that their keys name, and when keys
  -- that compare equal hash equally, a `nih_hash_lookup` that returns `NULL`, given more rounds
  -- than the key's bin has entries, means that no entry of any bin has the key.
  pub hash_lookup_complete :
      (key : Key) (rounds : ℕ)
      → length (contents (slot hash key)) < rounds
      → ((k l : Key) → hash.cmp_function k l ≡ 0 → hash.hash_function k ≡ hash.hash_function l)
      → hash_lookup hash rounds key h ≡ some none
      → (i : ℕ) → i < hash.size
      → All (λ x. same_key hash key x ≡ false) (contents i)
  unfolding found
  hash_lookup_complete key rounds l agree e i lt =
      let b = slot hash key in
      elim (ℕ_discrete b i) [
        | yes same ↦
            subst (λ j. All (λ x. same_key hash key x ≡ false) (contents j)) same
              (first_match-none (same_key hash key) (contents b)
                (some_inj.0 (sym (hash_lookup-found key rounds l) ∙ e)))
        | no apart ↦
            All-map (λ x. slot hash (hash.key_function x) ≡ i) (λ x. same_key hash key x ≡ false)
              (contents i)
              (λ x at. elim (Bool-cases (same_key hash key x)) [
                | inl hit ↦ absurd (
                    apart (
                      ap (λ n. n % hash.size)
                        (agree key (hash.key_function x)
                          (sym (equal 0 (hash.cmp_function key (hash.key_function x)) hit)))
                      ∙ at))
                | inr miss ↦ miss
              ])
              (holds.placed i lt)
      ]

  module _ (entry : Ptr) (fresh : Fresh hash contents entry)
      (reflexive : same_key hash (hash.key_function entry) entry ≡ true) (rounds : ℕ)
      (enough : length (contents (slot hash (hash.key_function entry))) < rounds) where
    refound :
        found (hash.key_function entry) ≡ none
        → hash_lookup hash (suc rounds) (hash.key_function entry) (hash_add hash entry h)
          ≡ some (some entry)
    unfolding hash_lookup found
    refound miss =
        let key = hash.key_function entry in
        let b = slot hash key in
        let after = put hash contents b entry in
        hash_search-finds hash (hash_add hash entry h) after
          (hash_add-Holds hash h contents holds positive entry fresh) positive key (suc rounds) 0
          (subst (λ xs. length xs < suc rounds) (sym (put-same hash contents b entry))
            (omega (arith, length-append (contents b) (entry ∷ []), enough)))
        ∙ ap (λ xs. some (first_match (same_key hash key) (candidates 0 xs)))
            (put-same hash contents b entry)
        ∙ ap (λ xs. some (first_match (same_key hash key) xs))
            (candidates-zero (contents b ++ entry ∷ []))
        ∙ ap some (first_match-append (same_key hash key) (contents b) entry miss reflexive)

    -- In a table of at least one bin whose bins hold the entries that their keys name,
    -- `nih_hash_add_unique` of an entry that is in no bin and whose key compares equal to itself,
    -- given more rounds than its bin has entries, either returns `NULL`, changes nothing and leaves
    -- an entry in the table that a lookup of the key finds, or adds the entry where a lookup of the
    -- key found none, and the lookup finds the entry afterwards.
    pub hash_add_unique-Unique :
        ((x : Ptr) × (hash_add_unique hash rounds entry h ≡ some (none, h))
          × (hash_lookup hash rounds (hash.key_function entry) h ≡ some (some x)))
        ⊎ ((hash_add_unique hash rounds entry h ≡ some (some entry, hash_add hash entry h))
            × (hash_lookup hash rounds (hash.key_function entry) h ≡ some none)
            × (hash_lookup hash (suc rounds) (hash.key_function entry) (hash_add hash entry h)
                ≡ some (some entry)))
    unfolding hash_add_unique hash_add bin_of found
    hash_add_unique-Unique =
        let key = hash.key_function entry in
        elim (Option-cases (found key)) [
          | inr hit ↦ inl (
            hit.0,
            (ground (arith, match_loop-found key rounds enough, hit.1)),
            hash_lookup-found key rounds enough ∙ ap some hit.1,
          )
          | inl miss ↦ inr (
            ground (arith, match_loop-found key rounds enough, miss),
            hash_lookup-found key rounds enough ∙ ap some miss,
            refound miss,
          )
        ]
