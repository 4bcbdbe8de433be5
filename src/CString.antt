-- ===== src/CString.antt =====
-- C strings and byte arrays: a byte is a number below 256, an array a list of bytes. A string in
-- the C sense is such a list with its terminating NUL left out.
use libnih.Prelude.{
  leb, Option, none, some, length, refl, ap, ◌∙◌, ℕ, ◌+◌, ◌≡◌, Bool, true, false, ◌||◌, ◌&&◌, List,
  [], ◌∷◌, ◌++◌, arith, ◌==◌, zero, suc, take, drop, if◌then◌else◌,
}
use Prim.Native.Char.{code}
use Prim.Native.String.{String}
use native.Mathlib.Nat.{zero-add, suc-add}

abbrev pub Bytes : Type 0
Bytes = List ℕ

-- The bytes of an ASCII text.
abbrev pub codes : String → Bytes
codes String.[] = []
codes (String.◌∷◌ c s) = code c ∷ codes s

abbrev pub mem_byte : ℕ → Bytes → Bool
mem_byte c [] = false
mem_byte c (d ∷ ds) = c == d || mem_byte c ds

-- `strchr (s, c) != NULL`: the search includes the terminator, so it always finds NUL.
unfoldable pub strchr : Bytes → ℕ → Bool
strchr s c = c == 0 || mem_byte c s

-- `! strncmp (s, t, strlen (t))`, for an `s` that is at least as long as `t`.
unfoldable pub starts_with : Bytes → Bytes → Bool
starts_with s [] = true
starts_with [] (d ∷ ds) = false
starts_with (c ∷ cs) (d ∷ ds) = c == d && starts_with cs ds

-- `! strcmp (s, t)`
unfoldable pub streq : Bytes → Bytes → Bool
streq [] [] = true
streq [] (d ∷ ds) = false
streq (c ∷ cs) [] = false
streq (c ∷ cs) (d ∷ ds) = c == d && streq cs ds

-- `s[i]`, and NUL past the end.
abbrev pub byte_at : Bytes → ℕ → ℕ
byte_at [] i = 0
byte_at (c ∷ cs) zero = c
byte_at (c ∷ cs) (suc i) = byte_at cs i

-- The string that a buffer holds: the bytes before the first NUL.
abbrev pub c_string : Bytes → Bytes
c_string [] = []
c_string (c ∷ cs) = if c == 0 then [] else c ∷ c_string cs

-- `memcpy` of the bytes to the offset `at`: `none` is a write outside of the array.
abbrev pub copy_in : ℕ → Bytes → Bytes → Option Bytes
copy_in at str bytes =
    if leb (at + length str) (length bytes)
    then some (take at bytes ++ str ++ drop (at + length str) bytes)
    else none

-- The bytes up to the first `b`, and those up to each one that follows and the end.
abbrev pub split_by : ℕ → Bytes → Bytes × List Bytes
split_by b [] = ([], [])
split_by b (c ∷ cs) =
    let rest = split_by b cs in if c == b then ([], rest.0 ∷ rest.1) else (c ∷ rest.0, rest.1)

-- How often the byte `b` occurs.
abbrev pub count : ℕ → Bytes → ℕ
count b [] = 0
count b (c ∷ cs) = (if c == b then 1 else 0) + count b cs

pub count-append : (b : ℕ) (xs ys : Bytes) → count b (xs ++ ys) ≡ count b xs + count b ys
count-append b [] ys = omega arith
count-append b (x ∷ xs) ys = omega (arith, count-append b xs ys)

pub streq→eq : (s t : Bytes) → streq s t ≡ true → s ≡ t
unfolding streq
streq→eq [] [] h = ground arith
streq→eq [] (d ∷ ds) h = ground arith
streq→eq (c ∷ cs) [] h = ground arith
streq→eq (c ∷ cs) (d ∷ ds) h = ground (arith, streq→eq cs ds)

pub streq_refl : (s : Bytes) → streq s s ≡ true
unfolding streq
streq_refl [] = ground arith
streq_refl (c ∷ cs) = ground (arith, streq_refl cs)

count-take-nil : (b k : ℕ) → count b (take k []) ≡ 0
count-take-nil b zero = ground arith
count-take-nil b (suc k) = ground arith

pub count-take-add :
    (b p k : ℕ) (xs : Bytes)
    → count b (take (p + k) xs) ≡ count b (take p xs) + count b (take k (drop p xs))
count-take-add b zero k xs = ap (λ n. count b (take n xs)) (zero-add k) ∙ omega arith
count-take-add b (suc p) k [] = rw (suc-add p k) (omega (arith, count-take-nil b k))
count-take-add b (suc p) k (x ∷ xs) = rw (suc-add p k) (omega (arith, count-take-add b p k xs))

pub byte_at-drop : (p k : ℕ) (xs : Bytes) → byte_at xs (p + k) ≡ byte_at (drop p xs) k
byte_at-drop zero k xs = ap (byte_at xs) (zero-add k)
byte_at-drop (suc p) k [] = refl
byte_at-drop (suc p) k (x ∷ xs) = rw (suc-add p k) (byte_at-drop p k xs)

pub starts_with-take : (s t : Bytes) → starts_with s t ≡ true → take (length t) s ≡ t
unfolding starts_with
starts_with-take s [] h = refl
starts_with-take [] (d ∷ ds) h = cc
starts_with-take (c ∷ cs) (d ∷ ds) h = ground (arith, starts_with-take cs ds)
