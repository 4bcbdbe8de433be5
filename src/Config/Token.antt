-- ===== src/Config/Token.antt =====
-- nih/config.c: `nih_config_token`, the loop that finds the end of a token and copies it.
pub mod Bound
pub mod Passes
pub mod Copy
pub mod Lines
pub mod Stops
pub mod Escaped
pub mod Quoted
use libnih.Prelude.{
  ℕ, ◌+◌, ◌-◌, Bool, true, false, not, ◌&&◌, ◌||◌, List, [], ◌∷◌, ◌++◌, ◌==◌, if◌then◌else◌, take,
  drop,
}
use libnih.CString.{Bytes, strchr}
use libnih.Config.Result.{
  Cursor, Error, trailing_slash, unterminated_quote, Result, ok, err, Parsed,
}

-- `NIH_CONFIG_WS`, `NIH_CONFIG_CNL` and `NIH_CONFIG_CNLWS` of nih/config.h
abbrev pub config_ws : Bytes
config_ws = b' ' ∷ b'\t' ∷ b'\r' ∷ []

abbrev pub config_cnl : Bytes
config_cnl = b'#' ∷ b'\n' ∷ []

abbrev pub config_cnlws : Bytes
config_cnlws = b' ' ∷ b'\t' ∷ b'\r' ∷ b'#' ∷ b'\n' ∷ []

-- The variables of the loop. `quote` is 0 outside quotes; `out` is what `dest` holds up to `i`.
pub record Lexer : Type 0 where
  pub p : ℕ
  pub ws : ℕ
  pub nlws : ℕ
  pub qc : ℕ
  pub slash : Bool
  pub quote : ℕ
  pub nl : Bool
  pub lineno : ℕ
  pub out : Bytes

abbrev pub initial : Cursor → Lexer
initial c = record {
  p = c.pos;
  ws = 0;
  nlws = 0;
  qc = 0;
  slash = false;
  quote = 0;
  nl = false;
  lineno = c.lineno;
  out = [];
}

-- What the ladder of tests does with a byte: leave the loop, `continue`, or fall through to the
-- copying below it with `extra` and `isq`.
pub data Action : Type 0 where
  stop : Action
  again : Lexer → Action
  copy : ℕ → Bool → Lexer → Action

abbrev pub write : Bool → Bytes → Bytes → Bytes
write dest out bytes = if dest then out ++ bytes else out

-- the branch `if (slash)`; the flag itself is reset
unfoldable pub scan_slash : (dest dequote : Bool) → ℕ → Lexer → Action
unfolding strchr
scan_slash dest dequote c s =
    if c == b'\n'
    then again (record s { slash = false; nlws = s.nlws + 1; nl = true; lineno = s.lineno + 1 })
    else if c == b'\\' || strchr config_ws c
    then copy 1 false (record s { slash = false; qc = if dequote then s.qc + 1 else s.qc })
    else copy 0 false (record s { slash = false; out = write dest s.out (b'\\' ∷ []) })

-- the branch `else if (quote)`
unfoldable pub scan_quote : ℕ → Lexer → Action
unfolding strchr
scan_quote c s =
    if c == s.quote
    then copy 0 true (record s { quote = 0 })
    else if c == b'\n'
    then again (record s { nl = true; lineno = s.lineno + 1 })
    else if strchr config_ws c
    then again (record s { ws = s.ws + 1 })
    else copy 0 false s

-- the branches behind it
unfoldable pub scan_bare : Bytes → ℕ → Lexer → Action
unfolding strchr
scan_bare delim c s =
    if c == b'"' || c == b'\''
    then copy 0 true (record s { quote = c })
    else if strchr delim c
    then stop
    else if strchr config_ws c
    then again (record s { ws = s.ws + 1 })
    else copy 0 false s

unfoldable pub scan : (dest dequote : Bool) → Bytes → ℕ → Lexer → Action
scan dest dequote delim c s =
    if s.slash
    then scan_slash dest dequote c s
    else if c == b'\\'
    then again (record s { slash = true })
    else if not (s.quote == 0)
    then scan_quote c s
    else scan_bare delim c s

-- `memcpy (…, file + at, n)`
abbrev pub slice : Bytes → ℕ → ℕ → Bytes
slice file at n = take n (drop at file)

-- `if (nl) … else if (ws && dest) …`: the pending whitespace
unfoldable pub flush_space : Bytes → Bool → ℕ → Lexer → Lexer
flush_space file dest extra s =
    if s.nl
    then record s { nlws = s.nlws + s.ws; out = write dest s.out (b' ' ∷ []) }
    else record s { out = write dest s.out (slice file (s.p - s.ws - extra) s.ws) }

-- the escaped byte's slash, and the byte
unfoldable pub flush_byte : Bytes → (dest dequote : Bool) → ℕ → Bool → ℕ → Lexer → Lexer
flush_byte file dest dequote extra isq c s = record s {
  out =
      write (dest && not (isq && dequote))
        (write (dest && not dequote) s.out (slice file (s.p - extra) extra)) (c ∷ []);
  qc = if isq && dequote then s.qc + 1 else s.qc;
  ws = 0;
  nl = false;
}

abbrev pub step_over : Lexer → Lexer
step_over s = record s { p = s.p + 1 }

unfoldable pub copied : Bytes → (dest dequote : Bool) → ℕ → ℕ → Bool → Lexer → Lexer
copied file dest dequote c extra isq s =
    flush_byte file dest dequote extra isq c (flush_space file dest extra s)

module _ (file : Bytes) (dest dequote : Bool) where
  -- The end of the loop's body, with `next` for the rounds that follow.
  abbrev pub resume : (Lexer → Lexer) → ℕ → Lexer → Action → Lexer
  resume next c s stop = s
  resume next c s (again t) = next (step_over t)
  resume next c s (copy extra isq t) = next (step_over (copied file dest dequote c extra isq t))

  -- The `for` loop, over what is left of the file.
  unfoldable pub token_loop : Bytes → Bytes → Lexer → Lexer
  token_loop delim [] s = s
  token_loop delim (c ∷ cs) s = resume (token_loop delim cs) c s (scan dest dequote delim c s)

-- What stands behind the loop: the two errors, and the length of the token.
unfoldable pub finish : Bool → ℕ → Lexer → Parsed (ℕ × Bytes)
finish dest start s =
    let cursor : Cursor = record { pos = s.p; lineno = s.lineno } in
    if s.slash
    then (cursor, err trailing_slash)
    else if not (s.quote == 0)
    then (cursor, err unterminated_quote)
    else (cursor, ok (s.p - start - s.ws - s.nlws - s.qc, write dest s.out (0 ∷ [])))

-- The length of the token, and what has been written to `dest`, which may be NULL.
unfoldable pub token :
    Bytes → Cursor → (dest : Bool) → Bytes → (dequote : Bool) → Parsed (ℕ × Bytes)
token file c dest delim dequote =
    finish dest c.pos (token_loop file dest dequote delim (drop c.pos file) (initial c))
