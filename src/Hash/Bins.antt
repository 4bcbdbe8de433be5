-- ===== src/Hash/Bins.antt =====
-- The entries of a hash table, bin by bin, and how adding one changes them.
use libnih.Prelude.{
  Ptr, ℕ, ◌+◌, ◌%◌, ◌≡◌, ◌≢◌, ◌<◌, arith, true, false, List, [], ◌∷◌, ◌++◌, ◌==◌, All, All-append,
  if◌then◌else◌, if_rule, sym, refl, length, some,
}
use libnih.Ring.{Heap, list_add}
use libnih.Ring.Links.{Linked}
use libnih.Ring.Segment.{RingOf, Avoids}
use libnih.Ring.Move.{list_add-appends, list_add-frame}
use libnih.Hash.{Hash, hash_add, bin_of, same_key, hash_search}
use libnih.Hash.Search.{first_match, candidates, search_loop-finds}
use mathlib.Core.Path.{subst}
use native.Mathlib.Nat.{mod-lt}

pub equal : (b i : ℕ) → (i == b) ≡ true → b ≡ i
equal b i e = ground arith

differ : (b i : ℕ) → (i == b) ≡ false → i ≢ b
differ b i e q = ground (arith, q)

module _ {Key : Type 0} (hash : Hash Key) where
  abbrev pub slot : Key → ℕ
  slot key = hash.hash_function key % hash.size

  -- Bin `i` has the entries `contents i`, which are neither `NULL` nor bins, and each entry is in
  -- the bin that its key names.
  pub record Holds (h : Heap) (contents : ℕ → List Ptr) : Type 0 where
    pub linked : Linked h
    pub rings : (i : ℕ) → i < hash.size → RingOf h (hash.bins + i) (contents i)
    pub apart : (i j : ℕ) → i < hash.size → j < hash.size → Avoids (hash.bins + j) (contents i)
    pub real : (i : ℕ) → i < hash.size → Avoids 0 (contents i)
    pub placed : (i : ℕ) → i < hash.size → All (λ x. slot (hash.key_function x) ≡ i) (contents i)

  -- An entry that is in no bin, is no bin, and is not `NULL`.
  pub record Fresh (contents : ℕ → List Ptr) (entry : Ptr) : Type 0 where
    pub away : (i : ℕ) → i < hash.size → Avoids entry (contents i)
    pub other : (i : ℕ) → i < hash.size → hash.bins + i ≢ entry
    pub real : entry ≢ 0

  -- The contents with the entry at the end of bin `b`.
  abbrev pub put : (ℕ → List Ptr) → ℕ → Ptr → ℕ → List Ptr
  put contents b entry i = if i == b then contents i ++ entry ∷ [] else contents i

  pub put_rule :
      (P : ℕ → List Ptr → Type 0) (contents : ℕ → List Ptr) (b : ℕ) (entry : Ptr) (i : ℕ)
      → P b (contents b ++ entry ∷ [])
      → (i ≢ b → P i (contents i))
      → P i (put contents b entry i)
  put_rule P contents b entry i new old =
      if_rule (P i) (i == b) (λ e. subst (λ j. P j (contents j ++ entry ∷ [])) (equal b i e) new)
        (λ e. old (differ b i e))

  module _ (h : Heap) (contents : ℕ → List Ptr) (holds : Holds h contents)
      (positive : 0 < hash.size) where
    pub slot_bound : (k : Key) → slot k < hash.size
    slot_bound k = mod-lt (hash.hash_function k) positive

    -- In a table of at least one bin whose bins hold the entries that their keys name,
    -- `nih_hash_search` returns, given more rounds than the key's bin has entries, the first entry
    -- behind the given one (the first of all for `NULL`) in that bin whose key compares equal, and
    -- `NULL` when there is none.
    pub hash_search-finds :
        (key : Key) (rounds : ℕ) (entry : Ptr)
        → length (contents (slot key)) < rounds
        → hash_search hash rounds key entry h
          ≡ some (first_match (same_key hash key) (candidates entry (contents (slot key))))
    unfolding hash_search bin_of
    hash_search-finds key rounds entry l =
        search_loop-finds hash h (hash.bins + slot key) key rounds entry (hash.bins + slot key)
          (contents (slot key)) (holds.rings (slot key) (slot_bound key)).0
          (holds.rings (slot key) (slot_bound key)).1 (holds.real (slot key) (slot_bound key)) l

    module _ (entry : Ptr) (fresh : Fresh contents entry) where
      -- In a table of at least one bin whose bins hold the entries that their keys name,
      -- `nih_hash_add` of an entry that is in no bin puts it at the end of the bin that its key
      -- names, leaves the other bins alone, and keeps every entry in the bin that its key names.
      pub hash_add-Holds :
          Holds (hash_add hash entry h) (put contents (slot (hash.key_function entry)) entry)
      unfolding hash_add bin_of
      hash_add-Holds =
          let b = slot (hash.key_function entry) in
          let lb = slot_bound (hash.key_function entry) in
          let added =
            list_add-appends h holds.linked (hash.bins + b) entry (fresh.other b lb) (contents b)
              (holds.rings b lb) (fresh.away b lb) in
          record {
            linked = added.0;
            rings = λ i lt.
                put_rule (λ i xs. RingOf (list_add (hash.bins + b) entry h) (hash.bins + i) xs)
                  contents b entry i added.1
                  (λ n.
                    list_add-frame h holds.linked (hash.bins + b) entry (fresh.other b lb)
                      (hash.bins + i) (contents i) (holds.rings i lt) (fresh.other i lt)
                      (fresh.away i lt) (λ q. n (omega (arith, q))) (holds.apart i b lt lb));
            apart = λ i j lt ltj.
                put_rule (λ i xs. Avoids (hash.bins + j) xs) contents b entry i
                  (All-append (λ x. x ≢ hash.bins + j) (contents b) (entry ∷ [])
                    (holds.apart b j lb ltj) (λ q. fresh.other j ltj (sym q), tt))
                  (λ n. holds.apart i j lt ltj);
            real = λ i lt.
                put_rule (λ i xs. Avoids 0 xs) contents b entry i
                  (All-append (λ x. x ≢ 0) (contents b) (entry ∷ []) (holds.real b lb)
                    (fresh.real, tt))
                  (λ n. holds.real i lt);
            placed = λ i lt.
                put_rule (λ i xs. All (λ x. slot (hash.key_function x) ≡ i) xs) contents b entry i
                  (All-append (λ x. slot (hash.key_function x) ≡ b) (contents b) (entry ∷ [])
                    (holds.placed b lb) (refl, tt))
                  (λ n. holds.placed i lt);
          }
