-- ===== src/Symbol/Valid.antt =====
-- Which strings `symbol_valid` accepts.
use libnih.Prelude.{
  ℕ, suc, ◌≡◌, ◌≤◌, ◌⊎◌, inl, inr, refl, arith, true, false, [], ◌∷◌, All, Bool-cases,
}
use libnih.CString.{Bytes}
use libnih.Symbol.{valid_loop, symbol_valid, underscore}

-- a letter or an underscore
abbrev pub IsStart : ℕ → Type 0
IsStart c = (65 ≤ c) × (c ≤ 90) ⊎ (97 ≤ c) × (c ≤ 122) ⊎ (c ≡ underscore)

-- or a digit
abbrev pub IsPart : ℕ → Type 0
IsPart c = IsStart c ⊎ (48 ≤ c) × (c ≤ 57)

abbrev pub IsSymbol : Bytes → Type 0
IsSymbol [] = ⊥
IsSymbol (c ∷ symbol) = IsStart c × All IsPart symbol

valid_loop-IsPart : (i : ℕ) (symbol : Bytes) → All IsPart symbol → valid_loop (suc i) symbol ≡ true
unfolding valid_loop
valid_loop-IsPart i [] a = refl
valid_loop-IsPart i (c ∷ symbol) a = ground (arith, valid_loop-IsPart (suc i) symbol a.1, a.0)

valid_loop→IsPart : (i : ℕ) (symbol : Bytes) → valid_loop (suc i) symbol ≡ true → All IsPart symbol
unfolding valid_loop
valid_loop→IsPart i [] h = tt
valid_loop→IsPart i (c ∷ symbol) h =
    (ground (arith, h), valid_loop→IsPart (suc i) symbol (ground (arith, h)))

pub IsSymbol-of_valid : (symbol : Bytes) → symbol_valid symbol ≡ true → IsSymbol symbol
unfolding symbol_valid valid_loop
IsSymbol-of_valid [] h = ground (arith, h)
IsSymbol-of_valid (c ∷ symbol) h =
    (ground (arith, h), valid_loop→IsPart 0 symbol (ground (arith, h)))

pub IsSymbol→symbol_valid : (symbol : Bytes) → IsSymbol symbol → symbol_valid symbol ≡ true
unfolding symbol_valid valid_loop
IsSymbol→symbol_valid [] s = ground (arith, s)
IsSymbol→symbol_valid (c ∷ symbol) s = ground (arith, s.0, valid_loop-IsPart 0 symbol s.1)

-- `symbol_valid` accepts the strings that begin with a letter or an underscore and go on with
-- letters, digits and underscores, and no others.
pub symbol_valid-IsSymbol :
    (symbol : Bytes)
    → (symbol_valid symbol ≡ true) × IsSymbol symbol
      ⊎ (symbol_valid symbol ≡ false) × ¬ IsSymbol symbol
symbol_valid-IsSymbol symbol = elim (Bool-cases (symbol_valid symbol)) [
  | inl e ↦ inl (e, IsSymbol-of_valid symbol e)
  | inr e ↦ inr (e, λ s. ground (arith, e, IsSymbol→symbol_valid symbol s))
]
