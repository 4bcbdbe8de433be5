-- ===== src/Config/Result.antt =====
-- The place that the parser has reached, the errors that it raises (nih/errors.h), and results.
use native.Mathlib.Decide.{ℕ_discrete}
use libnih.Prelude.{ℕ}

-- `*pos` and `*lineno`
pub record Cursor : Type 0 where
  pub pos : ℕ
  pub lineno : ℕ

pub data Error : Type 0 where
  expected_token unexpected_token trailing_slash unterminated_quote : Error
  unterminated_block unknown_stanza : Error
  -- `nih_return_system_error`, when an allocation fails
  system_error : Error
  -- what `nih_file_read` has raised
  read_error : Error
  -- an error that a stanza's handler raises
  handler_error : ℕ → Error

pub Error-discrete : Discrete Error
Error-discrete = hlevel ℕ_discrete

pub data Result {ℓ} (A : Type ℓ) : Type ℓ where
  ok : A → Result A
  err : Error → Result A

-- A function moves the cursor and returns or raises.
abbrev pub Parsed : Type 0 → Type 0
Parsed A = Cursor × Result A
