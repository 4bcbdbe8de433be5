-- ===== src/Symbol/Gives.antt =====
-- Functions that return a string or fail for want of memory.
use libnih.Prelude.{
  ℕ, ◌≡◌, ◌⊎◌, inl, inr, refl, Bool, false, Option, none, some, if◌then◌else◌, ◌>>=◌, Bool-cases,
}
use libnih.CString.{Bytes}

-- A function that makes a string returns `x`, or `NULL`, which it does only when an allocation
-- fails.
abbrev pub Gives : (ℕ → Bool) → Option Bytes → Bytes → Type 0
Gives allocates o x = (o ≡ some x) ⊎ (o ≡ none) × ((n : ℕ) × (allocates n ≡ false))

module _ (allocates : ℕ → Bool) where
  pub Gives-if : (n : ℕ) (x : Bytes) → Gives allocates (if allocates n then some x else none) x
  Gives-if n x = elim (Bool-cases (allocates n)) [
    | inl e ↦ inl (rw e refl)
    | inr e ↦ inr (rw e refl, (n, e))
  ]

  pub Gives-bind :
      (o : Option Bytes) (f : Bytes → Option Bytes) (x y : Bytes)
      → Gives allocates o x
      → Gives allocates (f x) y
      → Gives allocates (o >>= f) y
  Gives-bind o f x y (inl e) g = rw e g
  Gives-bind o f x y (inr e) g = inr (rw e.0 refl, e.1)
