-- ===== src/Config/Block.antt =====
-- nih/config.c: `nih_config_skip_block` and `nih_config_parse_block`.
pub mod Lines
pub mod Dedent
pub mod Measure
use libnih.Prelude.{
  ℕ, zero, suc, ◌+◌, ◌-◌, ◌*◌, Bool, true, false, not, ◌&&◌, ◌||◌, List, [], ◌∷◌, ◌++◌, Option,
  none, some, ◌==◌, ltb, leb, min, if◌then◌else◌, length, drop,
}
use libnih.CString.{Bytes, c_string, byte_at}
use libnih.Config.Result.{Cursor, Error, unterminated_block, Result, ok, err, Parsed}
use libnih.Config.Token.{slice}
use libnih.Config.Scan.{skip, is_ws, in_line, next_line, block_end}
use libnih.Config.Args.{Alloc, out_of_memory}

-- The loops take a line in every round, so one round for each byte is enough; `none` is a loop
-- that runs out of rounds.
abbrev pub rounds : Bytes → Cursor → ℕ
rounds file c = suc (length file - c.pos)

-- A line that is not the marker: step over it, and go on with `rest` unless the file ends there.
abbrev pub over_line :
    {A : Type 0} → Bytes → Cursor → (Cursor → Option (Parsed A)) → Option (Parsed A)
over_line file c rest =
    let d = next_line file c in
    if leb (length file) d.pos then some (d, err unterminated_block) else rest d

unfoldable pub skip_block_loop : ℕ → Bytes → Bytes → Cursor → Option (Parsed ℕ)
skip_block_loop zero file type c = none
skip_block_loop (suc fuel) file type c = elim (block_end file c type) [
  | some (endpos, d) ↦ some (d, ok endpos)
  | none ↦ over_line file c (skip_block_loop fuel file type)
]

-- The result is `*endpos`.
unfoldable pub skip_block : Bytes → Cursor → Bytes → Option (Parsed ℕ)
skip_block file c type = skip_block_loop (rounds file c) file type c

-- How far a line agrees with the block's first line, `file[sh_start + i] == file[p]`, up to `ws`.
unfoldable pub shared : ℕ → Bytes → Bytes → ℕ
shared zero xs ys = 0
shared (suc ws) [] ys = 0
shared (suc ws) (x ∷ xs) [] = 0
shared (suc ws) (x ∷ xs) (y ∷ ys) = if x == y then suc (shared ws xs ys) else 0

-- What the first loop has found: `ws`, `lines`, and at the end `sh_end`.
pub record Extent : Type 0 where
  pub ws : ℕ
  pub lines : ℕ
  pub sh_end : ℕ

-- the whitespace shared by the lines so far, this one included
unfoldable pub shared_ws : Bytes → (sh_start : ℕ) → Extent → (p : ℕ) → ℕ
shared_ws file sh_start x p =
    if x.lines == 0 then skip is_ws file p - p else shared x.ws (drop sh_start file) (drop p file)

unfoldable pub measure_loop : ℕ → Bytes → Bytes → ℕ → Cursor → Extent → Option (Parsed Extent)
measure_loop zero file type sh_start c x = none
measure_loop (suc fuel) file type sh_start c x = elim (block_end file c type) [
  | some (endpos, d) ↦ some (d, ok (record x { sh_end = endpos }))
  | none ↦
      let ws = shared_ws file sh_start x c.pos in
      over_line file (record c { pos = c.pos + ws })
        λ d. measure_loop fuel file type sh_start d (record x { ws = ws; lines = x.lines + 1 })
]

-- The second loop: drop `ws` bytes of each line, and append the rest of it, up to a NUL, to the
-- block, whose memory has room for `sh_len` bytes and the terminator. `none` is also a read behind
-- the file's end, in the search of a newline, or a write outside of that memory.
unfoldable pub dedent_loop : ℕ → Bytes → (pp sh_end ws sh_len : ℕ) → Bytes → Option Bytes
dedent_loop zero file pp sh_end ws sh_len block = none
dedent_loop (suc fuel) file pp sh_end ws sh_len block =
    let line_start = pp + ws in
    let newline = skip in_line file line_start in
    let line = c_string (slice file line_start (newline + 1 - line_start)) in
    let rest = dedent_loop fuel file (newline + 1) sh_end ws sh_len (block ++ line) in
    if not (ltb pp sh_end)
    then some block
    else if not (ltb newline (length file)) || ltb sh_len (length (block ++ line))
    then none
    else rest

-- What follows the first loop.
abbrev pub copy_block : Alloc → Bytes → (c d : Cursor) → Result Extent → Option (Parsed Bytes)
copy_block alloc file c d (err e) = some (d, err e)
copy_block alloc file c d (ok x) =
    let sh_len = x.sh_end - c.pos - x.ws * x.lines in
    if not (alloc d (sh_len + 1))
    then some (out_of_memory c d)
    else elim (dedent_loop (suc (x.sh_end - c.pos)) file c.pos x.sh_end x.ws sh_len []) [
      | none ↦ none
      | some block ↦ some (d, ok block)
    ]

abbrev pub no_extent : Extent
no_extent = record { ws = 0; lines = 0; sh_end = 0 }

unfoldable pub parse_block : Alloc → Bytes → Cursor → Bytes → Option (Parsed Bytes)
parse_block alloc file c type = elim (measure_loop (rounds file c) file type c.pos c no_extent) [
  | none ↦ none
  | some (d, found) ↦ copy_block alloc file c d found
]
