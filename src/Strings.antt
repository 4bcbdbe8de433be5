-- ===== src/Strings.antt =====
-- nih/string.c: strings that grow. A string stands without its terminator, `NULL` is `none`, and
-- the text that a format and its arguments make is the C library's.
pub mod Array
pub mod Split
mod Tests
use libnih.Prelude.{ℕ, ◌+◌, Bool, Option, none, some, [], ◌++◌, if◌then◌else◌, take, length}
use libnih.CString.{Bytes}

abbrev pub text_of : Option Bytes → Bytes
text_of none = []
text_of (some str) = str

-- `allocates n` says whether an allocation of `n` bytes succeeds.
module _ (allocates : ℕ → Bool) where
  unfoldable pub vsprintf : Bytes → Option Bytes
  vsprintf text = if allocates (length text + 1) then some text else none

  unfoldable pub sprintf : Bytes → Option Bytes
  sprintf text = vsprintf text

  unfoldable pub strndup : Bytes → ℕ → Option Bytes
  strndup str len = if allocates (len + 1) then some (take len str) else none

  unfoldable pub strdup : Bytes → Option Bytes
  strdup str = strndup str (length str)

  -- These return their result and what `*str` is afterwards.
  unfoldable pub strncat : Option Bytes → Bytes → ℕ → Option Bytes × Option Bytes
  strncat none src len = let dup = strndup src len in (dup, dup)
  strncat (some str) src len =
      if allocates (length str + len + 1)
      then (some (str ++ take len src), some (str ++ take len src))
      else (none, some str)

  unfoldable pub strcat : Option Bytes → Bytes → Option Bytes × Option Bytes
  strcat str src = strncat str src (length src)

  unfoldable pub strcat_vsprintf : Option Bytes → Bytes → Option Bytes × Option Bytes
  strcat_vsprintf str text =
      let old = text_of str in
      if allocates (length old + length text + 1)
      then (some (old ++ text), some (old ++ text))
      else (none, str)

  unfoldable pub strcat_sprintf : Option Bytes → Bytes → Option Bytes × Option Bytes
  strcat_sprintf str text = strcat_vsprintf str text
