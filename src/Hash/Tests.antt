-- ===== src/Hash/Tests.antt =====
-- nih/hash.c run on a table of strings.
use libnih.Prelude.{
  Ptr, ℕ, ◌≡◌, ◌<◌, ◌⊎◌, refl, arith, true, false, List, [], ◌∷◌, ◌++◌, none, some, ◌==◌,
  if◌then◌else◌, All, length,
}
use libnih.CString.{Bytes, codes, streq}
use libnih.Ring.{Heap, list_add, list_cut, link_before}
use libnih.Ring.Segment.{Avoids, RingOf}
use libnih.Ring.Links.{Linked}
use libnih.Hash.Replace.{hash_replace-Replaces}
use libnih.Hash.{
  Hash, hash_add, hash_add_unique, hash_replace, hash_search, hash_lookup, search_loop, same_key,
  bin_of,
}
use libnih.Hash.Search.{first_match, candidates}
use libnih.Hash.Bins.{put_rule, Holds, Fresh, put, slot, hash_search-finds, hash_add-Holds}
use libnih.Hash.Unique.{hash_lookup_complete, hash_add_unique-Unique}
use libnih.Hash.Text.{string_hash, string_hash_loop, string_cmp, string_hash-string_cmp}

-- The entries 1 and 3 have the key "a", all others "b".
abbrev text : Ptr → Bytes
text p = if p == 1 then codes "a" else if p == 3 then codes "a" else codes "b"

abbrev apart : Heap
apart = record { prev = λ p. p; next = λ p. p; content = λ p. p; destructor = λ p. false }

-- Two bins, at 10 and 11.
abbrev table : Hash Bytes
table = record {
  size = 2;
  bins = 10;
  key_function = text;
  hash_function = string_hash;
  cmp_function = string_cmp;
}

abbrev empty : ℕ → List Ptr
empty i = []

string_hash_a : string_hash (codes "a") ≡ 84696446
unfolding string_hash string_hash_loop
string_hash_a = refl

empty-Holds : Holds table apart empty
empty-Holds = record {
  linked = record { next_back = λ p. refl; prev_back = λ p. refl };
  rings = λ i lt. (refl, tt);
  apart = λ i j lt ltj. tt;
  real = λ i lt. tt;
  placed = λ i lt. tt;
}

empty-Fresh : Fresh table empty 1
empty-Fresh = record { away = λ i lt. tt; other = λ i lt e. omega (arith, e); real = ground arith }

abbrev one : Heap
one = hash_add table 1 apart

abbrev holding : ℕ → List Ptr
holding = put table empty (slot table (codes "a")) 1

one-Holds : Holds table one holding
one-Holds = hash_add-Holds table apart empty empty-Holds (omega arith) 1 empty-Fresh

holding-Fresh : Fresh table holding 3
holding-Fresh = record {
  away = λ i lt.
      put_rule table (λ j xs. Avoids 3 xs) empty (slot table (codes "a")) 1 i (ground arith, tt)
        (λ n. tt);
  other = λ i lt e. omega (arith, e);
  real = ground arith;
}

few : length (holding (slot table (codes "a"))) < 2
unfolding string_hash string_hash_loop
few = omega arith

few_b : length (holding (slot table (codes "b"))) < 2
unfolding string_hash string_hash_loop
few_b = omega arith

slot_a : slot table (codes "a") < 2
unfolding string_hash string_hash_loop
slot_a = omega arith

hash_add-Holds_example : Holds table (hash_add table 1 apart) holding
hash_add-Holds_example = hash_add-Holds table apart empty empty-Holds (omega arith) 1 empty-Fresh

hash_search-finds_example :
    hash_search table 2 (codes "a") 0 one
    ≡ some
        (first_match (same_key table (codes "a")) (candidates 0 (holding (slot table (codes "a")))))
hash_search-finds_example =
    hash_search-finds table one holding one-Holds (omega arith) (codes "a") 2 0 few

same_a : same_key table (codes "a") 3 ≡ true
unfolding string_cmp streq
same_a = refl

hash_add_unique-Unique_example :
    ((x : Ptr) × (hash_add_unique table 2 3 one ≡ some (none, one))
      × (hash_lookup table 2 (codes "a") one ≡ some (some x)))
    ⊎ ((hash_add_unique table 2 3 one ≡ some (some 3, hash_add table 3 one))
        × (hash_lookup table 2 (codes "a") one ≡ some none)
        × (hash_lookup table 3 (codes "a") (hash_add table 3 one) ≡ some (some 3)))
hash_add_unique-Unique_example =
    hash_add_unique-Unique table one holding one-Holds (omega arith) 3 holding-Fresh same_a 2 few

-- A table that holds the entry 1 under "a" alone has nothing under "b".
absent : hash_lookup table 2 (codes "b") one ≡ some none
unfolding hash_lookup hash_search search_loop bin_of string_cmp streq string_hash string_hash_loop
    hash_add list_add list_cut link_before
absent = refl

hash_lookup_complete_example :
    All (λ x. same_key table (codes "b") x ≡ false) (holding (slot table (codes "a")))
hash_lookup_complete_example =
    hash_lookup_complete table one holding one-Holds (omega arith) (codes "b") 2 few_b
      string_hash-string_cmp absent (slot table (codes "a")) slot_a

hash_replace-Replaces_example :
    (hash_lookup table 2 (codes "a") one ≡ some none)
      × (hash_replace table 2 3 one ≡ some (none, hash_add table 3 one))
    ⊎ ((x : Ptr) × (ys : List Ptr) × (zs : List Ptr) × (g : Heap) × (holding
            (slot table (codes "a"))
          ≡ ys ++ x ∷ zs)
        × (hash_lookup table 2 (codes "a") one ≡ some (some x))
        × (hash_replace table 2 3 one ≡ some (some x, g))
        × Linked g
        × RingOf g (bin_of table (codes "a")) ((ys ++ zs) ++ 3 ∷ [])
        × RingOf g x [])
hash_replace-Replaces_example =
    hash_replace-Replaces table one holding one-Holds (omega arith) 3 holding-Fresh 2 few
