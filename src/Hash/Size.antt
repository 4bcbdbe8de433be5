-- ===== src/Hash/Size.antt =====
-- The number of bins that `nih_hash_new` chooses.
use libnih.Prelude.{
  ℕ, ◌≡◌, ◌≤◌, ◌<◌, ◌⊎◌, inl, inr, arith, refl, true, if_rule, List, [], ◌∷◌, ltb, All,
}
use libnih.CString.{mem_byte}
use libnih.Hash.{primes, size_loop}

Ascends : ℕ → List ℕ → Type 0
Ascends s [] = Unit
Ascends s (p ∷ ps) = (s ≤ p) × Ascends p ps

-- `size` is at least every number of the list that is below `entries`.
abbrev pub Covers : ℕ → ℕ → List ℕ → Type 0
Covers entries size = All (λ p. (entries ≤ p) ⊎ (p ≤ size))

above : (entries size s : ℕ) (ps : List ℕ) → entries ≤ s → Ascends s ps → Covers entries size ps
unfolding Ascends
above entries size s [] l a = tt
above entries size s (p ∷ ps) l a =
    (inl (omega (arith, l, a.0)), above entries size p ps (omega (arith, l, a.0)) a.1)

-- The size `r` that the loop arrives at from the size `s` and the remaining primes `ps`.
abbrev Fits : ℕ → ℕ → List ℕ → ℕ → Type 0
Fits entries s ps r =
    (s ≤ r) × Covers entries r ps × ((r ≡ s) ⊎ (r < entries)) × (mem_byte r (s ∷ ps) ≡ true)

size_loop-Fits :
    (ps : List ℕ) (entries s : ℕ) → Ascends s ps → Fits entries s ps (size_loop ps entries s)
unfolding Ascends size_loop
size_loop-Fits [] entries s a = (omega arith, tt, inl refl, ground arith)
size_loop-Fits (p ∷ ps) entries s a =
    let next = size_loop-Fits ps entries p a.1 in
    if_rule (Fits entries s (p ∷ ps)) (ltb p entries)
      (λ e. (
        omega (arith, a.0, next.0),
        (inr next.0, next.1),
        inr (ground (arith, e, next.2)),
        ground (arith, next.3),
      ))
      (λ e. (
        omega arith,
        (inl (ground (arith, e)), above entries s p ps (ground (arith, e)) a.1),
        inl refl,
        ground arith,
      ))

-- `nih_hash_new` takes a size from its table of primes that is at least every prime of the table
-- below the expected number of entries, and is itself below that number unless it is the smallest,
-- 17.
pub size_loop-Largest :
    (entries : ℕ)
    → Covers entries (size_loop primes entries 17) primes
      × ((size_loop primes entries 17 ≡ 17) ⊎ (size_loop primes entries 17 < entries))
      × (mem_byte (size_loop primes entries 17) primes ≡ true)
unfolding Ascends
size_loop-Largest entries =
    let fits = size_loop-Fits primes entries 17 (ground arith) in
    (fits.1, fits.2, ground (arith, fits.3))
