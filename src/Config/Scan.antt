-- ===== src/Config/Scan.antt =====
-- nih/config.c: the functions that look ahead and skip, `nih_config_has_token`,
-- `nih_config_next_line`, `nih_config_skip_whitespace`, `nih_config_skip_comment` and
-- `nih_config_block_end`. A loop that advances a position recurs on what is left of the file.
pub mod Lines
pub mod Marker
use libnih.Prelude.{
  ℕ, zero, suc, ◌+◌, ◌-◌, Bool, true, false, not, ◌&&◌, ◌||◌, List, [], ◌∷◌, Option, none, some,
  ◌>>=◌, ◌==◌, ltb, if◌then◌else◌, length, drop,
}
use libnih.CString.{Bytes, strchr, starts_with, byte_at}
use libnih.Config.Result.{Cursor, Error, unexpected_token, Result, ok, err, Parsed}
use libnih.Config.Token.{config_ws, config_cnl}

unfoldable pub has_token : Bytes → Cursor → Bool
unfolding strchr
has_token file c = ltb c.pos (length file) && not (strchr config_cnl (byte_at file c.pos))

-- `while ((p < len) && test (file[p])) p++`: how far the position moves
unfoldable pub span : (ℕ → Bool) → Bytes → ℕ
span test [] = 0
span test (b ∷ bs) = let more = span test bs in if test b then suc more else 0

abbrev pub skip : (ℕ → Bool) → Bytes → ℕ → ℕ
skip test file p = p + span test (drop p file)

abbrev pub is_ws : ℕ → Bool
is_ws b = strchr config_ws b

abbrev pub in_line : ℕ → Bool
in_line b = not (b == b'\n')

-- `if (p < len) { lineno++; p++; }`
abbrev pub past_newline : Bytes → Cursor → Cursor
past_newline file c =
    if ltb c.pos (length file) then record { pos = c.pos + 1; lineno = c.lineno + 1 } else c

unfoldable pub next_line : Bytes → Cursor → Cursor
next_line file c = past_newline file (record c { pos = skip in_line file c.pos })

unfoldable pub skip_whitespace_loop : Bytes → Cursor → Cursor
unfolding strchr
skip_whitespace_loop [] c = c
skip_whitespace_loop (b ∷ []) c =
    if b == b'\\'
    then c
    else if not (is_ws b)
    then c
    else record { pos = c.pos + 1; lineno = if b == b'\n' then c.lineno + 1 else c.lineno }
skip_whitespace_loop (b ∷ d ∷ ds) c =
    let escaped = skip_whitespace_loop ds (record { pos = c.pos + 2; lineno = c.lineno + 1 }) in
    let blank =
      skip_whitespace_loop (d ∷ ds)
        (record { pos = c.pos + 1; lineno = if b == b'\n' then c.lineno + 1 else c.lineno }) in
    if b == b'\\' then (if d == b'\n' then escaped else c) else if not (is_ws b) then c else blank

unfoldable pub skip_whitespace : Bytes → Cursor → Cursor
skip_whitespace file c = skip_whitespace_loop (drop c.pos file) c

unfoldable pub skip_comment : Bytes → Cursor → Parsed (Unit {0})
skip_comment file c =
    if has_token file c then (c, err unexpected_token) else (next_line file c, ok tt)

-- The three stages of `nih_config_block_end`, which return the position behind them. The first
-- finds "end" and a blank, the second the type, the third a comment and the end of the line.
-- `len - p` is a `size_t`: the callers keep `*pos` within the file.
unfoldable pub end_word : Bytes → ℕ → Option ℕ
end_word file p =
    let q = skip is_ws file p in
    if ltb (length file - q) 4 || not (starts_with (drop q file) (b'e' ∷ b'n' ∷ b'd' ∷ []))
    then none
    else if not (byte_at file (q + 3) == 0) && not (is_ws (byte_at file (q + 3)))
    then none
    else some (skip is_ws file (q + 3))

unfoldable pub type_word : Bytes → Bytes → ℕ → Option ℕ
type_word file type p =
    if ltb (length file - p) (length type) || not (starts_with (drop p file) type)
    then none
    else some (skip is_ws file (p + length type))

unfoldable pub line_tail : Bytes → Cursor → Option Cursor
line_tail file c =
    let comment = ltb c.pos (length file) && byte_at file c.pos == b'#' in
    let q = if comment then skip in_line file c.pos else c.pos in
    if ltb q (length file) && not (byte_at file q == b'\n')
    then none
    else some (past_newline file (record c { pos = q }))

-- `none` for FALSE, which leaves the cursor; else `*endpos` and the cursor past the marker.
unfoldable pub block_end : Bytes → Cursor → Bytes → Option (ℕ × Cursor)
block_end file c type = do
  p ← end_word file c.pos
  q ← type_word file type p
  d ← line_tail file (record c { pos = q })
  some (c.pos, d)
