-- ===== src/Symbol.antt =====
-- nih-dbus-tool/symbol.c: the C symbols that D-Bus names turn into.
pub mod Valid
pub mod Lower
pub mod Gives
pub mod Extern
pub mod Title
mod Tests
use libnih.Prelude.{
  ℕ, suc, ◌+◌, ◌-◌, Bool, true, false, not, Option, none, some, [], ◌∷◌, ◌++◌, ◌==◌, ltb, leb,
  if◌then◌else◌, ◌&&◌, ◌||◌, ◌>>=◌, length, replicate,
}
use libnih.CString.{Bytes, copy_in}
use libnih.Strings.{text_of, vsprintf, sprintf, strcat, strcat_sprintf}

abbrev pub underscore : ℕ
underscore = 95

abbrev pub is_digit : ℕ → Bool
is_digit c = leb 48 c && leb c 57

abbrev pub is_upper : ℕ → Bool
is_upper c = leb 65 c && leb c 90

abbrev pub is_lower : ℕ → Bool
is_lower c = leb 97 c && leb c 122

-- `tolower` and `toupper` of the C locale
abbrev pub tolower : ℕ → ℕ
tolower c = if is_upper c then c + 32 else c

abbrev pub toupper : ℕ → ℕ
toupper c = if is_lower c then c - 32 else c

-- whether the loop passes all the bytes from the index `i` on
unfoldable pub valid_loop : ℕ → Bytes → Bool
valid_loop i [] = true
valid_loop i (c ∷ symbol) =
    let rest = valid_loop (suc i) symbol in
    if is_digit c
    then if i == 0 then false else rest
    else if (ltb c 65 || ltb 90 c) && (ltb c 97 || ltb 122 c) && not (c == underscore)
    then false
    else rest

unfoldable pub symbol_valid : Bytes → Bool
symbol_valid symbol =
    if not (valid_loop 0 symbol) then false else if ltb (length symbol) 1 then false else true

-- Whether a capital starts a word: `before` is the byte before it, if any.
abbrev pub starts_word : Option ℕ → ℕ → Bool
starts_word none c = false
starts_word (some before) c =
    is_upper c && not (before == underscore) && (ltb before 65 || ltb 90 before)

-- by how much the first loop raises `len`
unfoldable pub extra : Option ℕ → Bytes → ℕ
extra before [] = 0
extra before (c ∷ name) = (if starts_word before c then 1 else 0) + extra (some c) name

-- `*(ptr++) = '_'` in front of a word
unfoldable pub start_word : Option ℕ → ℕ → Bytes → ℕ → Option (Bytes × ℕ)
start_word before c symbol ptr =
    if starts_word before c
    then (copy_in ptr (underscore ∷ []) symbol >>= λ symbol. some (symbol, ptr + 1))
    else some (symbol, ptr)

-- The second loop: `symbol` is the memory, `ptr` the place to write to.
unfoldable pub lower_loop : Option ℕ → Bytes → Bytes → ℕ → Option (Bytes × ℕ)
lower_loop before [] symbol ptr = some (symbol, ptr)
lower_loop before (c ∷ name) symbol ptr = start_word before c symbol ptr >>= λ s.
    copy_in s.1 (tolower c ∷ []) s.0 >>= λ symbol. lower_loop (some c) name symbol (s.1 + 1)

-- what the loop over an interface name writes
unfoldable pub dots_loop : Bytes → Bytes
dots_loop [] = []
dots_loop (c ∷ name) = (if c == 46 then underscore else c) ∷ dots_loop name

-- the first loop of `symbol_strcat_title`: by how much it raises `len`
unfoldable pub title_len : Bytes → ℕ
title_len [] = 0
title_len (c ∷ symbol) = (if c == underscore then 0 else 1) + title_len symbol

-- the second
unfoldable pub title_loop : Bool → Bytes → Bytes
title_loop first [] = []
title_loop first (c ∷ symbol) =
    if c == underscore
    then title_loop true symbol
    else (if first then toupper c else c) ∷ title_loop false symbol

module _ (allocates : ℕ → Bool) where
  -- `junk` is what the new memory holds. `none` is a write outside of it, `some none` the result
  -- NULL.
  unfoldable pub symbol_from_name : ℕ → Bytes → Option (Option Bytes)
  symbol_from_name junk name =
      let len = length name + extra none name in
      if allocates (len + 1)
      then (lower_loop none name (replicate (len + 1) junk) 0 >>= λ s.
          copy_in s.1 (0 ∷ []) s.0 >>= λ symbol. some (some symbol))
      else some none

  -- `text` is what the format and its arguments make.
  unfoldable pub symbol_strcat_interface : Bytes → Bytes → Option Bytes
  symbol_strcat_interface str text = vsprintf allocates text >>= λ name.
      if allocates (length str + length name + 1) then some (str ++ dots_loop name) else none

  unfoldable pub symbol_strcat_title : Option Bytes → Bytes → Option Bytes
  symbol_strcat_title str text = vsprintf allocates text >>= λ symbol.
      let old = text_of str in
      if allocates (length old + title_len symbol + 1)
      then some (old ++ title_loop true symbol)
      else none

  unfoldable pub symbol_impl : Bytes → Bytes → Option Bytes → Option Bytes → Option Bytes
  symbol_impl prefix interface_name name postfix =
      sprintf allocates (prefix ++ underscore ∷ []) >>= λ str.
      symbol_strcat_interface str
        (elim name [ some n ↦ interface_name ++ underscore ∷ [] | none ↦ interface_name ])
      >>= λ str.
          elim name [ some n ↦ (strcat allocates (some str) n).0 | none ↦ some str ] >>= λ str.
          elim postfix [
            | some p ↦ (strcat_sprintf allocates (some str) (underscore ∷ p)).0
            | none ↦ some str
          ]

  -- `if (part) strcat_sprintf ("%s_", part)`
  abbrev pub add_part : Option Bytes → Bytes → Option Bytes
  add_part none str = some str
  add_part (some part) str = (strcat_sprintf allocates (some str) (part ++ underscore ∷ [])).0

  unfoldable pub symbol_extern :
      Bytes → Option Bytes → Option Bytes → Bytes → Option Bytes → Option Bytes
  symbol_extern prefix interface_symbol midfix symbol postfix =
      sprintf allocates (prefix ++ underscore ∷ [])
      >>= add_part interface_symbol
      >>= add_part midfix
      >>= λ str. (strcat allocates (some str) symbol).0 >>= λ str. elim postfix [
        | some p ↦ (strcat_sprintf allocates (some str) (underscore ∷ p)).0
        | none ↦ some str
      ]

  -- `if (part) symbol_strcat_title ("%s_", part)`
  abbrev pub add_title : Option Bytes → Bytes → Option Bytes
  add_title none str = some str
  add_title (some part) str = symbol_strcat_title (some str) (part ++ underscore ∷ [])

  unfoldable pub symbol_typedef :
      Bytes → Option Bytes → Option Bytes → Bytes → Option Bytes → Option Bytes
  symbol_typedef prefix interface_symbol midfix symbol postfix =
      symbol_strcat_title none (prefix ++ underscore ∷ [])
      >>= add_title interface_symbol
      >>= add_title midfix
      >>= λ str. symbol_strcat_title (some str) symbol >>= λ str. elim postfix [
        | some p ↦ symbol_strcat_title (some str) (underscore ∷ p)
        | none ↦ some str
      ]
