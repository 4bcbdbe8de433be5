-- ===== src/Io/Buffer.antt =====
-- nih/io.c: `NihIoBuffer`, a growing array whose first `len` bytes wait to be taken.
pub mod Rounding
pub mod Resized
pub mod Queue
pub mod History
use libnih.Prelude.{
  ℕ, suc, ◌+◌, ◌-◌, ◌*◌, ◌/◌, ◌%◌, ◌^◌, min, Bool, true, false, not, Option, none, some, [], ◌∷◌,
  ◌++◌, ◌==◌, ltb, leb, if◌then◌else◌, ◌>>=◌, take, drop, replicate, length, ◌&&◌,
}
use libnih.CString.{Bytes, copy_in}
use mathlib.Core.Option as Option

pub record Buffer : Type 0 where
  pub buf : Option Bytes
  pub size : ℕ
  pub len : ℕ

-- arithmetic of `size_t`
abbrev pub word : ℕ → ℕ
word n = n % 2 ^ 64

unfoldable pub buffer_new : Bool → Option Buffer
buffer_new false = none
buffer_new true = some (record { buf = none; size = 0; len = 0 })

-- the bytes that `buf` points to; `NULL` points to none
abbrev pub memory : Option Bytes → Bytes
memory none = []
memory (some bytes) = bytes

-- What `nih_realloc` returns: the old bytes as far as they fit, and bytes that nothing has set.
abbrev pub realloc : ℕ → Bytes → ℕ → Bytes
realloc junk old n = take n old ++ replicate (n - length old) junk

-- `memset (new_buf + size, '\0', new_size - size)`
abbrev pub clear_rest : ℕ → ℕ → Bytes → Bytes
clear_rest size new_size bytes =
    if ltb size new_size then take size bytes ++ replicate (new_size - size) 0 else bytes

-- the next multiple of `BUFSIZ`
abbrev pub round_up : ℕ → ℕ → ℕ
round_up bufsiz new_len = word ((new_len - 1) / bufsiz * bufsiz + bufsiz)

-- `BUFSIZ` is the C library's, `allocates n` says whether an allocation of `n` bytes succeeds, and
-- `junk` is what memory holds that nothing has set.
module _ (bufsiz : ℕ) (allocates : ℕ → Bool) (junk : ℕ) where
  -- `false` is the result -1.
  unfoldable pub buffer_resize : Buffer → ℕ → Bool × Buffer
  buffer_resize buffer grow =
      let new_len = word (buffer.len + grow) in
      let new_size = round_up bufsiz new_len in
      if new_len == 0
      then (true, record buffer { buf = none; size = 0 })
      else if new_size == buffer.size
      then (true, buffer)
      else if not (allocates new_size)
      then (false, buffer)
      else (
        true,
        record buffer {
          buf = some (clear_rest buffer.size new_size (realloc junk (memory buffer.buf) new_size));
          size = new_size;
        },
      )

  unfoldable pub buffer_shrink : Buffer → ℕ → Buffer
  buffer_shrink buffer len =
      let n = min len buffer.len in
      let bytes = memory buffer.buf in
      let moved = take (buffer.len - n) (drop n bytes) ++ drop (buffer.len - n) bytes in
      let shorter = record buffer {
        buf = Option.map (λ b. moved) buffer.buf;
        len = buffer.len - n;
      } in
      (buffer_resize shorter 0).1

  -- The string with its terminator, `none` for `NULL`, and `*len`.
  unfoldable pub buffer_pop : Buffer → ℕ → Option Bytes × ℕ × Buffer
  buffer_pop buffer len =
      let n = min len buffer.len in
      if allocates (word (n + 1))
      then (some (take n (memory buffer.buf) ++ 0 ∷ []), n, buffer_shrink buffer n)
      else (none, n, buffer)

  -- `none` when it copies bytes that are not there, or to a place outside the buffer.
  unfoldable pub buffer_push : Buffer → Bytes → ℕ → Option (Bool × Buffer)
  buffer_push buffer str len =
      let resized = buffer_resize buffer len in
      let grown = resized.1 in
      if not resized.0
      then some (false, grown)
      else if not (leb len (length str))
      then none
      else copy_in grown.len (take len str) (memory grown.buf) >>= λ bytes. some (
        true,
        record grown { buf = Option.map (λ b. bytes) grown.buf; len = word (grown.len + len) },
      )
