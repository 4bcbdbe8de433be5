-- ===== src/Hash/Search.antt =====
-- The loops over a bin find the first entry that has the key.
use libnih.Prelude.{
  Ptr, ℕ, zero, suc, ◌≡◌, ◌<◌, arith, Bool, Option, none, some, List, [], ◌∷◌, ◌==◌, if◌then◌else◌,
  length,
}
use libnih.Ring.{Heap}
use libnih.Ring.Segment.{Walk, Avoids}
use libnih.Hash.{Hash, match_loop, search_loop, same_key}

abbrev pub first_match : (Ptr → Bool) → List Ptr → Option Ptr
first_match p [] = none
first_match p (x ∷ xs) = if p x then some x else first_match p xs

-- The entries behind `entry`, and all of them for `NULL`.
abbrev pub candidates : Ptr → List Ptr → List Ptr
candidates entry [] = []
candidates entry (x ∷ xs) =
    if entry == 0 then x ∷ xs else if x == entry then xs else candidates entry xs

pub candidates-zero : (xs : List Ptr) → candidates 0 xs ≡ xs
candidates-zero [] = ground arith
candidates-zero (x ∷ xs) = ground arith

module _ {Key : Type 0} (hash : Hash Key) (h : Heap) (bin : Ptr) (key : Key) where
  pub match_loop-finds :
      (rounds : ℕ) (p : Ptr) (xs : List Ptr)
      → Walk h p xs bin
      → Avoids bin xs
      → length xs < rounds
      → match_loop hash rounds h bin key (h.next p) ≡ some (first_match (same_key hash key) xs)
  unfolding match_loop
  match_loop-finds zero p xs w a l = ground arith
  match_loop-finds (suc n) p [] w a l = ground arith
  match_loop-finds (suc n) p (x ∷ xs) w a l =
      ground (arith, match_loop-finds n x xs w.1 a.1 (omega arith))

  pub search_loop-finds :
      (rounds : ℕ) (entry p : Ptr) (xs : List Ptr)
      → Walk h p xs bin
      → Avoids bin xs
      → Avoids 0 xs
      → length xs < rounds
      → search_loop hash rounds h bin key entry (h.next p)
        ≡ some (first_match (same_key hash key) (candidates entry xs))
  unfolding search_loop
  search_loop-finds zero entry p xs w a c l = ground arith
  search_loop-finds (suc n) entry p [] w a c l = ground arith
  search_loop-finds (suc n) entry p (x ∷ xs) w a c l = ground (
    arith,
    candidates-zero xs,
    search_loop-finds n entry x xs w.1 a.1 c.1 (omega arith),
    search_loop-finds n 0 x xs w.1 a.1 c.1 (omega arith),
  )
