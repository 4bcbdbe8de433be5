-- ===== src/Config/Args.antt =====
-- nih/config.c: `nih_config_next_token`, `nih_config_next_arg`, `nih_config_parse_args` and
-- `nih_config_parse_command`.
pub mod Lines
pub mod Total
pub mod Quoted
use libnih.Prelude.{
  ℕ, zero, suc, ◌+◌, ◌-◌, ◌*◌, Bool, true, false, not, List, [], ◌∷◌, ◌++◌, Option, none, some,
  ◌==◌, if◌then◌else◌, length,
}
use libnih.CString.{Bytes, c_string}
use libnih.Config.Result.{Cursor, Error, expected_token, system_error, Result, ok, err, Parsed}
use libnih.Config.Token.{token, slice, config_cnl, config_cnlws}
use libnih.Config.Token.Copy.{origin}
use libnih.Config.Scan.{has_token, skip_whitespace, skip_comment}

-- `alloc c n`: whether an allocation of `n` bytes made at the place `c` succeeds.
abbrev pub Alloc : Type 0
Alloc = Cursor → ℕ → Bool

-- `nih_return_system_error`: `*lineno` has been moved, and `*pos` has not.
abbrev pub out_of_memory : {A : Type 0} → (start here : Cursor) → Parsed A
out_of_memory start here = (record { pos = start.pos; lineno = here.lineno }, err system_error)

-- The second pass, over the token alone, into the new buffer. (After an error in it the code
-- returns the buffer all the same; `Token.Copy` shows that there is none.)
abbrev pub fill : Bytes → (start stop here : Cursor) → Bytes → Bool → Parsed Bytes
fill file start stop here delim dequote =
    elim ((token (slice file start.pos (stop.pos - start.pos)) origin true delim dequote).1) [
      | ok (n, copy) ↦ (here, ok (c_string copy))
      | err e ↦ (here, err e)
    ]

module _ (alloc : Alloc) where
  -- what follows the first pass, which stopped at `d`
  abbrev pub copy_token :
      Bytes → (c d : Cursor) → Bytes → (dequote : Bool) → Result (ℕ × Bytes) → Parsed Bytes
  copy_token file c d delim dequote (err e) = (d, err e)
  copy_token file c d delim dequote (ok (n, _)) =
      let here = skip_whitespace file d in
      if n == 0
      then (d, err expected_token)
      else if not (alloc here (n + 1))
      then out_of_memory c here
      else fill file c d here delim dequote

  unfoldable pub next_token : Bytes → Cursor → Bytes → (dequote : Bool) → Parsed Bytes
  next_token file c delim dequote =
      let (d, found) = token file c false delim dequote in copy_token file c d delim dequote found

  unfoldable pub next_arg : Bytes → Cursor → Parsed Bytes
  next_arg file c = next_token file c config_cnlws true

  -- `skip_comment` behind a token: an error here would reach `nih_assert_not_reached`, and is
  -- `none`, as is running out of fuel.
  abbrev pub end_of_line : {A : Type 0} → Bytes → Cursor → A → Option (Parsed A)
  end_of_line file c a =
      let (d, skipped) = skip_comment file c in
      elim skipped [ ok _ ↦ some (d, ok a) | err e ↦ none ]

  -- The end of a round, with `rest` for the rounds that follow; the array takes pointers of eight
  -- bytes.
  abbrev pub add_arg :
      (start here : Cursor)
      → List Bytes
      → (List Bytes → Option (Parsed (List Bytes)))
      → Result Bytes
      → Option (Parsed (List Bytes))
  add_arg start here args rest (err e) = some (here, err e)
  add_arg start here args rest (ok a) =
      if not (alloc here (8 * (length args + 2)))
      then some (out_of_memory start here)
      else rest (args ++ a ∷ [])

  -- The loop over the arguments. `start` is where `*pos` stands meanwhile.
  unfoldable pub parse_args_loop :
      ℕ → Bytes → (start c : Cursor) → List Bytes → Option (Parsed (List Bytes))
  parse_args_loop zero file start c args = none
  parse_args_loop (suc fuel) file start c args =
      let (d, arg) = next_arg file c in
      let next = add_arg start d args (parse_args_loop fuel file start d) arg in
      if not (has_token file c) then end_of_line file c args else next

  -- Every argument takes a byte of the file at least, so one round for each is enough.
  unfoldable pub parse_args : Bytes → Cursor → Option (Parsed (List Bytes))
  parse_args file c =
      if not (alloc c 8)
      then some (c, err system_error)
      else parse_args_loop (suc (length file - c.pos)) file c c []

  unfoldable pub parse_command : Bytes → Cursor → Option (Parsed Bytes)
  parse_command file c =
      let (d, found) = token file c false config_cnl false in
      elim found [
        | err e ↦ some (d, err e)
        | ok (n, _) ↦
            let (here, skipped) = skip_comment file d in
            elim skipped [
              | err e ↦ none
              | ok _ ↦
                  if not (alloc here (n + 1))
                  then some (out_of_memory c here)
                  else some (fill file c d here config_cnl false)
            ]
      ]
