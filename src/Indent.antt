-- ===== src/Indent.antt =====
-- nih-dbus-tool/indent.c: tabs, or the stars of a comment, put in front of every line of a string,
-- in the memory of the string.
pub mod Memory
pub mod Whole
pub mod Lines
mod Tests
use libnih.Prelude.{
  ℕ, zero, suc, ◌+◌, ◌-◌, Bool, true, false, not, ◌&&◌, ◌||◌, Option, none, some, List, [], ◌∷◌,
  ◌++◌, ◌==◌, leb, ltb, if◌then◌else◌, ◌>>=◌, length, take, drop, replicate,
}
use libnih.CString.{Bytes, byte_at, copy_in, codes}

-- `memmove` inside an array: `none` is an access outside of it.
unfoldable pub memmove : ℕ → ℕ → ℕ → Bytes → Option Bytes
memmove to at n mem =
    if leb (at + n) (length mem) then copy_in to (take n (drop at mem)) mem else none

abbrev pub is_empty : Bytes → Bool
is_empty [] = true
is_empty (c ∷ cs) = false

-- What the functions put behind a newline, by the byte that stands there, 0 being the end; and in
-- front of the string, by its first byte.
pub record Marks : Type 0 where
  pub line : ℕ → Bytes
  pub first : ℕ → Bytes

abbrev pub tabs : ℕ → Marks
tabs level = record {
  line = λ c. if c == 0 || c == 10 then [] else replicate level 9;
  first = λ c. if c == 10 then [] else replicate level 9;
}

abbrev pub stars : Marks
stars = record {
  line = λ c. if c == 0 then [] else if c == 10 then codes " *" else codes " * ";
  first = λ c. if c == 10 then codes " *" else codes " * ";
}

-- `memmove` of what is behind `at`, and `memset` or `memcpy` of the mark; `len` is the length that
-- the string will have.
unfoldable pub put : Bytes → ℕ → ℕ → Bytes → Option Bytes
put mark at len mem =
    if is_empty mark
    then some mem
    else memmove (at + length mark) at (len + 1 - length mark - at) mem >>= copy_in at mark

module _ (marks : Marks) where
  -- The lengths, as the first loop of each function adds them up.
  unfoldable pub added : Bytes → ℕ
  added [] = 0
  added (c ∷ str) = (if c == 10 then length (marks.line (byte_at str 0)) else 0) + added str

  unfoldable pub size : Bytes → ℕ
  size str = length str + length (marks.first (byte_at str 0)) + added str

  -- The second loop, from the byte at `s` on: `none` is an access outside of the memory, or that
  -- the rounds have run out.
  unfoldable pub put_loop : ℕ → ℕ → ℕ → Bytes → Option Bytes
  put_loop zero s len mem = none
  put_loop (suc n) s len mem =
      if byte_at mem s == 0
      then some mem
      else (if byte_at mem s == 10
          then put (marks.line (byte_at mem (s + 1))) (s + 1) len mem
          else some mem)
        >>= put_loop n (s + 1) len

  -- `grown` is what `nih_realloc` returns for a size, which starts with the string.
  unfoldable pub mark_lines : (ℕ → Option Bytes) → Bytes → Option (Option Bytes)
  mark_lines grown str =
      let len = size str in
      elim (grown (len + 1)) [
        | none ↦ some none
        | some mem ↦
            put (marks.first (byte_at str 0)) 0 len mem >>= put_loop (len + 1) 0 len >>= λ m.
            some (some m)
      ]

-- At the level 0 the assertion fails, which is `none` too.
unfoldable pub indent : (ℕ → Option Bytes) → Bytes → ℕ → Option (Option Bytes)
indent grown str level = if not (ltb 0 level) then none else mark_lines (tabs level) grown str

unfoldable pub comment : (ℕ → Option Bytes) → Bytes → Option (Option Bytes)
comment grown str = mark_lines stars grown str
