-- ===== src/Io/Buffer/Rounding.antt =====
-- The size that a buffer is rounded up to.
use libnih.Prelude.{ℕ, ◌+◌, ◌-◌, ◌*◌, ◌/◌, ◌^◌, ◌≡◌, ◌≤◌, ◌<◌, arith}
use libnih.Io.Buffer.{word, round_up}
use native.Mathlib.Nat.{mod-lt, mod-add-div', mod-eq_of_lt}

pub word_small : (n : ℕ) → n < 2 ^ 64 → word n ≡ n
word_small n l = mod-eq_of_lt l

module _ (bufsiz n : ℕ) where
  -- A number of bytes that is not zero rounds up to a size that is at least as large, and by less
  -- than `BUFSIZ` larger, as long as the arithmetic of `size_t` does not wrap around.
  pub round_up_lem :
      0 < bufsiz
      → 0 < n
      → n + bufsiz < 2 ^ 64
      → (n ≤ round_up bufsiz n)
        × (round_up bufsiz n < n + bufsiz)
        × (round_up bufsiz n ≡ (n - 1) / bufsiz * bufsiz + bufsiz)
  round_up_lem positive some_bytes small =
      let exact = mod-add-div' (n - 1) bufsiz in
      let rest = mod-lt (n - 1) positive in
      let unwrapped =
        word_small ((n - 1) / bufsiz * bufsiz + bufsiz) (omega (arith, exact, rest)) in
      (omega (arith, exact, rest, unwrapped), omega (arith, exact, rest, unwrapped), unwrapped)
