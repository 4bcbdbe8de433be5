-- ===== src/Hash.antt =====
-- nih/hash.c: hash tables whose bins are lists of nih/list.c. The keys of the entries, their hash
-- and their comparison are the caller's.

pub mod Size
pub mod Search
pub mod Bins
pub mod Unique
pub mod Replace
pub mod Text
mod Tests
use libnih.Prelude.{
  Ptr, ℕ, zero, suc, ◌+◌, ◌%◌, Bool, true, false, not, Option, none, some, List, [], ◌∷◌, ◌==◌, ltb,
  if◌then◌else◌, ◌>>=◌,
}
use libnih.Ring.{Heap, list_init, list_add, list_remove}

-- `NihHash`: bin `i` is the entry at `bins + i`. `NULL` is 0.
pub record Hash (Key : Type 0) : Type 0 where
  pub size : ℕ
  pub bins : Ptr
  pub key_function : Ptr → Key
  pub hash_function : Key → ℕ
  pub cmp_function : Key → Key → ℕ

abbrev pub primes : List ℕ
primes =
    17 ∷ 37 ∷ 79 ∷ 163 ∷ 331 ∷ 673 ∷ 1259 ∷ 2521 ∷ 5051 ∷ 10103 ∷ 20219 ∷ 40459 ∷ 80929 ∷ 160231
    ∷ 320449 ∷ 640973 ∷ 1281563 ∷ 2566637 ∷ 5136083 ∷ 10250323 ∷ []

unfoldable pub size_loop : List ℕ → ℕ → ℕ → ℕ
size_loop [] entries size = size
size_loop (p ∷ ps) entries size =
    let rest = size_loop ps entries p in if ltb p entries then rest else size

unfoldable pub init_bins : ℕ → Ptr → Heap → Heap
init_bins zero bin h = h
init_bins (suc n) bin h = init_bins n (suc bin) (list_init bin h)

module _ {Key : Type 0} where
  -- `allocated` and `bins` are what the two allocations return.
  unfoldable pub hash_new :
      Bool
      → Option Ptr
      → ℕ
      → (Ptr → Key)
      → (Key → ℕ)
      → (Key → Key → ℕ)
      → Heap
      → Option (Hash Key) × Heap
  hash_new false bins entries key hash cmp h = (none, h)
  hash_new true none entries key hash cmp h = (none, h)
  hash_new true (some bins) entries key hash cmp h =
      let size = size_loop primes entries 17 in
      (
        some (record {
          size = size;
          bins = bins;
          key_function = key;
          hash_function = hash;
          cmp_function = cmp;
        }),
        init_bins size bins h,
      )

  module _ (hash : Hash Key) where
    unfoldable pub bin_of : Key → Ptr
    bin_of key = hash.bins + hash.hash_function key % hash.size

    -- `! hash->cmp_function (key, hash->key_function (iter))`
    abbrev pub same_key : Key → Ptr → Bool
    same_key key iter = hash.cmp_function key (hash.key_function iter) == 0

    unfoldable pub hash_add : Ptr → Heap → Heap
    hash_add entry h = list_add (bin_of (hash.key_function entry)) entry h

    -- the first iterator over the bin that has the key, `none` when out of rounds
    unfoldable pub match_loop : ℕ → Heap → Ptr → Key → Ptr → Option (Option Ptr)
    match_loop zero h bin key iter = none
    match_loop (suc n) h bin key iter =
        let rest = match_loop n h bin key (h.next iter) in
        if iter == bin then some none else if same_key key iter then some (some iter) else rest

    unfoldable pub hash_add_unique : ℕ → Ptr → Heap → Option (Option Ptr × Heap)
    hash_add_unique rounds entry h =
        let key = hash.key_function entry in
        let bin = bin_of key in
        match_loop rounds h bin key (h.next bin) >>= λ found.
        some (elim found [ some iter ↦ (none, h) | none ↦ (some entry, list_add bin entry h) ])

    unfoldable pub hash_replace : ℕ → Ptr → Heap → Option (Option Ptr × Heap)
    hash_replace rounds entry h =
        let key = hash.key_function entry in
        let bin = bin_of key in
        match_loop rounds h bin key (h.next bin) >>= λ found.
        some (found, list_add bin entry (elim found [ some iter ↦ list_remove iter h | none ↦ h ]))

    unfoldable pub search_loop : ℕ → Heap → Ptr → Key → Ptr → Ptr → Option (Option Ptr)
    search_loop zero h bin key entry iter = none
    search_loop (suc n) h bin key entry iter =
        let rest = search_loop n h bin key (if iter == entry then 0 else entry) (h.next iter) in
        if iter == bin
        then some none
        else if iter == entry
        then rest
        else if not (entry == 0)
        then rest
        else if same_key key iter
        then some (some iter)
        else rest

    unfoldable pub hash_search : ℕ → Key → Ptr → Heap → Option (Option Ptr)
    hash_search rounds key entry h =
        let bin = bin_of key in search_loop rounds h bin key entry (h.next bin)

    unfoldable pub hash_lookup : ℕ → Key → Heap → Option (Option Ptr)
    hash_lookup rounds key h = hash_search rounds key 0 h
