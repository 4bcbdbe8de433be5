-- ===== src/Config/Tracks.antt =====
-- The line counter of nih/config.c, for all of its functions.
use libnih.Prelude.{
  ℕ, ◌+◌, ◌-◌, ◌≤◌, ◌≡◌, ap, suc, ◌≢◌, ◌⊎◌, inl, inr, Option, none, some, [], ◌∷◌, arith, take,
  drop,
}
use libnih.CString.{Bytes, count, count-take-add}
use libnih.Config.Result.{Cursor, Error-discrete, system_error, Result, ok, err, Parsed}

-- how many line ends stand before a position
abbrev pub lines : Bytes → ℕ → ℕ
lines file p = count b'\n' (take p file)

-- From `c` to `d` the cursor moves forwards, and the line number grows by the line ends passed.
pub record Tracks (file : Bytes) (c d : Cursor) : Type 0 where
  pub forwards : c.pos ≤ d.pos
  pub counts : c.lineno + lines file d.pos ≡ d.lineno + lines file c.pos

module _ (file : Bytes) where
  pub Tracks-refl : (c : Cursor) → Tracks file c c
  Tracks-refl c = omega arith

  pub Tracks-trans : (c d e : Cursor) → Tracks file c d → Tracks file d e → Tracks file c e
  Tracks-trans c d e h k = omega arith

  -- enough to count what was passed over
  pub Tracks-span :
      (c d : Cursor)
      → c.pos ≤ d.pos
      → d.lineno ≡ c.lineno + count b'\n' (take (d.pos - c.pos) (drop c.pos file))
      → Tracks file c d
  Tracks-span c d h e =
      let k : ℕ = d.pos - c.pos in
      let here : lines file d.pos ≡ lines file (c.pos + k) = ap (lines file) (omega arith) in
      omega (arith, here, count-take-add b'\n' c.pos k file)

-- The same, for a loop over what is left of the file.
pub record Passed (rest : Bytes) (c d : Cursor) : Type 0 where
  pub forwards : c.pos ≤ d.pos
  pub counts : d.lineno ≡ c.lineno + count b'\n' (take (d.pos - c.pos) rest)

pub Passed-self : (rest : Bytes) (c : Cursor) → Passed rest c c
Passed-self rest c =
    let none_passed : c.pos - c.pos ≡ 0 = omega arith in
    record { forwards = omega arith; counts = rw none_passed (omega arith) }

pub Passed-cons :
    (b : ℕ) (bs : Bytes) (c e d : Cursor)
    → e.pos ≡ c.pos + 1
    → e.lineno ≡ c.lineno + count b'\n' (b ∷ [])
    → Passed bs e d
    → Passed (b ∷ bs) c d
Passed-cons b bs c e d p l h =
    let k : d.pos - c.pos ≡ suc (d.pos - e.pos) = omega arith in
    record { forwards = omega arith; counts = rw k (omega arith) }

pub Passed-Tracks : (file : Bytes) (c d : Cursor) → Passed (drop c.pos file) c d → Tracks file c d
Passed-Tracks file c d h = Tracks-span file c d h.forwards h.counts

-- A result, which is memory running out or has its cursor behind `c`.
abbrev pub Returns : {A : Type 0} → Bytes → Cursor → Option (Parsed A) → Type 0
Returns file c none = ⊥
Returns file c (some r) = (r.1 ≡ err system_error) ⊎ Tracks file c r.0

-- the error, decided
pub system_or {ℓ} :
    {A : Type 0} {P : Type ℓ} (r : Result A)
    → (r ≢ err system_error → P)
    → (r ≡ err system_error) ⊎ P
system_or (ok a) h = inr (h λ p. cc)
system_or (err e) h = elim (Error-discrete e system_error) [
  | yes p ↦ inl (ap err p)
  | no other ↦ inr (h λ p. other (ground arith))
]
