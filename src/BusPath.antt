-- ===== src/BusPath.antt =====
-- nih-dbus/dbus_util.c: `nih_dbus_path`, which makes an object path of any strings.
pub mod Memory
pub mod Written
pub mod Whole
pub mod Overrun
pub mod Decoded
mod Tests
use libnih.Prelude.{
  ℕ, ◌+◌, ◌/◌, ◌%◌, Bool, true, false, Option, none, some, List, [], ◌∷◌, ◌++◌, ◌==◌, ltb, leb,
  if◌then◌else◌, ◌&&◌, ◌||◌, ◌>>=◌, length, replicate,
}
use libnih.CString.{Bytes, copy_in}

-- a letter or a digit
abbrev pub plain : ℕ → Bool
plain c = leb 97 c && leb c 122 || leb 65 c && leb c 90 || leb 48 c && leb c 57

-- what the first pass counts
unfoldable pub element_len : Bytes → ℕ
element_len [] = 0
element_len (c ∷ arg) = (if plain c then 1 else 3) + element_len arg

unfoldable pub args_len : List Bytes → ℕ
args_len [] = 0
args_len (arg ∷ args) = 1 + (if length arg == 0 then 1 else 0) + element_len arg + args_len args

abbrev pub hex_digit : ℕ → ℕ
hex_digit d = if ltb d 10 then 48 + d else 87 + d

-- What `sprintf` makes of `%02x` and a `char`, which is signed: a byte from 128 on is negative, and
-- printed as 32 bits.
abbrev pub printed : ℕ → Bytes
printed c =
    (if ltb c 128 then [] else replicate 6 102) ++ hex_digit (c / 16) ∷ hex_digit (c % 16) ∷ []

-- The second pass over one element: `path` is the memory, `len` the place to write to.
unfoldable pub escape_loop : Bytes → Bytes → ℕ → Option (Bytes × ℕ)
escape_loop [] path len = some (path, len)
escape_loop (c ∷ arg) path len =
    let as_is = copy_in len (c ∷ []) path >>= λ path. escape_loop arg path (len + 1) in
    let escaped = copy_in len (95 ∷ []) path >>= λ path.
    copy_in (len + 1) (printed c ++ 0 ∷ []) path >>= λ path. escape_loop arg path (len + 1 + 2) in
    if plain c then as_is else escaped

-- The slash, and the underscore of an empty element.
unfoldable pub start_element : Bytes → Bytes → ℕ → Option (Bytes × ℕ)
start_element arg path len = copy_in len (47 ∷ []) path >>= λ path.
    if length arg == 0
    then (copy_in (len + 1) (95 ∷ []) path >>= λ path. some (path, len + 1 + 1))
    else some (path, len + 1)

unfoldable pub args_loop : List Bytes → Bytes → ℕ → Option (Bytes × ℕ)
args_loop [] path len = some (path, len)
args_loop (arg ∷ args) path len =
    start_element arg path len >>= λ s. escape_loop arg s.0 s.1 >>= λ s. args_loop args s.0 s.1

-- `allocated` says whether the allocation succeeds, and `junk` is what its memory holds. `none` is
-- a write outside of the memory, `some none` the result NULL.
unfoldable pub dbus_path : Bool → ℕ → Bytes → List Bytes → Option (Option Bytes)
dbus_path false junk root args = some none
dbus_path true junk root args =
    let len = length root + args_len args in
    copy_in 0 (root ++ 0 ∷ []) (replicate (len + 1) junk) >>= λ path.
    args_loop args path (length root) >>= λ s. copy_in s.1 (0 ∷ []) s.0 >>= λ path. some (some path)
