-- ===== src/Config/Stanza.antt =====
-- nih/config.c: `nih_config_get_stanza`, `nih_config_parse_stanza`, `nih_config_parse_file` and
-- `nih_config_parse`.
pub mod Lines
use libnih.Prelude.{
  ℕ, zero, suc, ◌+◌, ◌-◌, Bool, true, false, not, List, [], ◌∷◌, Option, none, some, ◌==◌, ltb,
  if◌then◌else◌, length,
}
use libnih.CString.{Bytes, streq}
use libnih.Config.Result.{Cursor, Error, unknown_stanza, read_error, Result, ok, err, Parsed}
use libnih.Config.Token.{config_cnlws}
use libnih.Config.Scan.{has_token, skip, is_ws, skip_comment}
use libnih.Config.Args.{Alloc, next_token}

-- A handler reads the rest of the stanza, from the cursor, and changes the `data` that it is given.
-- The table ends before its `NIH_CONFIG_LAST`.
pub record Stanza (D : Type 0) : Type 0 where
  pub name : Bytes
  pub handler : D → Bytes → Cursor → D × Parsed (Unit {0})

module _ {D : Type 0} where
  -- `catch` is the last entry passed that has an empty name.
  unfoldable pub get_stanza_loop : Bytes → List (Stanza D) → Option (Stanza D) → Option (Stanza D)
  get_stanza_loop name [] catch = catch
  get_stanza_loop name (s ∷ ss) catch =
      let rest = get_stanza_loop name ss (if length s.name == 0 then some s else catch) in
      if streq s.name name then some s else rest

  unfoldable pub get_stanza : Bytes → List (Stanza D) → Option (Stanza D)
  get_stanza name stanzas = get_stanza_loop name stanzas none

module _ {D : Type 0} (alloc : Alloc) (stanzas : List (Stanza D)) where
  -- behind the name; `nih_return_error` leaves `*pos` where it was
  abbrev pub dispatch :
      Bytes → (start here : Cursor) → D → Option (Stanza D) → D × Parsed (Unit {0})
  dispatch file start here d none =
      (d, (record { pos = start.pos; lineno = here.lineno }, err unknown_stanza))
  dispatch file start here d (some s) = s.handler d file here

  abbrev pub named : Bytes → (start here : Cursor) → D → Result Bytes → D × Parsed (Unit {0})
  named file start here d (err e) = (d, (here, err e))
  named file start here d (ok name) = dispatch file start here d (get_stanza name stanzas)

  unfoldable pub parse_stanza : Bytes → Cursor → D → D × Parsed (Unit {0})
  parse_stanza file c d =
      let (here, name) = next_token alloc file c config_cnlws false in named file c here d name

  -- What follows a stanza: stop at an error, or go on with `rest`.
  abbrev pub after_stanza :
      D × Parsed (Unit {0})
      → (Cursor → D → Option (D × Parsed (Unit {0})))
      → Option (D × Parsed (Unit {0}))
  after_stanza (d, (c, err e)) rest = some (d, (c, err e))
  after_stanza (d, (c, ok _)) rest = rest c d

  -- What follows an empty line or a comment; its error would reach `nih_assert_not_reached`.
  abbrev pub after_comment :
      Parsed (Unit {0}) → (Cursor → Option (D × Parsed (Unit {0}))) → Option (D × Parsed (Unit {0}))
  after_comment (c, err e) rest = none
  after_comment (c, ok _) rest = rest c

  -- `none` is a failed assertion, or a loop that runs out of rounds.
  unfoldable pub parse_file_loop : ℕ → Bytes → Cursor → D → Option (D × Parsed (Unit {0}))
  parse_file_loop zero file c d = none
  parse_file_loop (suc fuel) file c d =
      let here : Cursor = record c { pos = skip is_ws file c.pos } in
      let empty = after_comment (skip_comment file here) λ e. parse_file_loop fuel file e d in
      let stanza = after_stanza (parse_stanza file here d) (parse_file_loop fuel file) in
      if not (ltb c.pos (length file))
      then some (d, (c, ok tt))
      else if not (has_token file here)
      then empty
      else stanza

  unfoldable pub parse_file : Bytes → Cursor → D → Option (D × Parsed (Unit {0}))
  parse_file file c d = parse_file_loop (suc (length file - c.pos)) file c d

  -- `read` is what `nih_file_read` returns, `none` for an error that it has raised; `c` is the
  -- caller's `*pos` and `*lineno`, of which that error leaves both.
  unfoldable pub parse : Option Bytes → Cursor → D → Option (D × Parsed (Unit {0}))
  parse none c d = some (d, (c, err read_error))
  parse (some file) c d = parse_file file (record c { lineno = 1 }) d
