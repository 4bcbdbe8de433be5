-- ===== src/Config/Token/Lines.antt =====
-- `nih_config_token` counts the line ends that it passes, when the line end is a delimiter.
use libnih.Prelude.{ℕ, suc, ◌+◌, ◌-◌, ◌≤◌, ◌≡◌, ◌≢◌, Bool, true, [], ◌∷◌, arith, take, drop}
use libnih.CString.{Bytes, strchr, count}
use libnih.Config.Result.{Cursor}
use libnih.Config.Tracks.{Tracks, Tracks-span}
use libnih.Config.Token.{
  Lexer, Action, stop, again, copy, initial, scan, scan_slash, scan_quote, scan_bare, flush_space,
  flush_byte, copied, step_over, resume, token_loop, finish, token,
}
use libnih.Config.Token.Passes.{token_loop-le, scan-At, At}

-- A line end opens no quote, and the line number grows at a line end.
abbrev LinesAction : ℕ → Lexer → Action → Type 0
LinesAction c s stop = Unit
LinesAction c s (again t) = (t.lineno ≡ s.lineno + count b'\n' (c ∷ [])) × (t.quote ≢ b'\n')
LinesAction c s (copy extra isq t) =
    (t.lineno ≡ s.lineno + count b'\n' (c ∷ [])) × (t.quote ≢ b'\n')

module _ (delim : Bytes) (ends : strchr delim b'\n' ≡ true) (dest dequote : Bool) (c : ℕ)
    (s : Lexer) (q : s.quote ≢ b'\n') where
  scan-Lines : LinesAction c s (scan dest dequote delim c s)
  unfolding scan scan_slash scan_quote scan_bare
  scan-Lines = ground arith

module _ (file : Bytes) (delim : Bytes) (ends : strchr delim b'\n' ≡ true)
    (dest dequote : Bool) where
  abbrev loop : Bytes → Lexer → Lexer
  loop = token_loop file dest dequote delim

  abbrev Counts : Bytes → Lexer → Lexer → Type 0
  Counts rest s t = t.lineno ≡ s.lineno + count b'\n' (take (t.p - s.p) rest)

  copied-same :
      (c extra : ℕ) (isq : Bool) (s : Lexer)
      → let t = copied file dest dequote c extra isq s in
        (t.lineno ≡ s.lineno) × (t.quote ≡ s.quote) × (t.p ≡ s.p)
  unfolding copied flush_space flush_byte
  copied-same c extra isq s = ground arith

  Counts-self : (rest : Bytes) (s : Lexer) → Counts rest s s
  Counts-self rest s = let none_passed : s.p - s.p ≡ 0 = omega arith in rw none_passed (omega arith)

  -- the count of a round, put before that of the rounds behind it
  Counts-cons :
      (c : ℕ) (cs : Bytes) (s t u : Lexer)
      → t.p ≡ s.p + 1
      → t.p ≤ u.p
      → t.lineno ≡ s.lineno + count b'\n' (c ∷ [])
      → Counts cs t u
      → Counts (c ∷ cs) s u
  Counts-cons c cs s t u p le e h =
      let k : u.p - s.p ≡ suc (u.p - t.p) = omega arith in rw k (omega arith)

  module _ (cs : Bytes) (ih : (t : Lexer) → t.quote ≢ b'\n' → Counts cs t (loop cs t)) where
    resume-Lines :
        (c : ℕ) (s : Lexer) (a : Action)
        → LinesAction c s a
        → At file file dequote 0 s.p a
        → Counts (c ∷ cs) s (resume file dest dequote (loop cs) c s a)
    resume-Lines c s stop h at = Counts-self (c ∷ cs) s
    resume-Lines c s (again t) h at =
        Counts-cons c cs s (step_over t) (loop cs (step_over t)) (omega arith)
          (token_loop-le file file dequote 0 dest delim cs (step_over t)) h.0 (ih (step_over t) h.1)
    resume-Lines c s (copy extra isq t) h at =
        let u = step_over (copied file dest dequote c extra isq t) in
        let same = copied-same c extra isq t in
        Counts-cons c cs s u (loop cs u) (omega arith)
          (token_loop-le file file dequote 0 dest delim cs u) (omega arith) (ih u (omega arith))

  token_loop-Lines : (rest : Bytes) (s : Lexer) → s.quote ≢ b'\n' → Counts rest s (loop rest s)
  unfolding token_loop
  token_loop-Lines [] s q = Counts-self [] s
  token_loop-Lines (c ∷ cs) s q =
      resume-Lines cs (token_loop-Lines cs) c s (scan dest dequote delim c s)
        (scan-Lines delim ends dest dequote c s q) (scan-At file file dequote 0 dest delim c s)

-- the cursor that `nih_config_token` leaves, errors included
pub finish-cursor :
    (dest : Bool) (start : ℕ) (s : Lexer)
    → (finish dest start s).0 ≡ record { pos = s.p; lineno = s.lineno }
unfolding finish
finish-cursor dest start s = ground arith

-- Whatever the token and its outcome, `nih_config_token` moves forwards and counts every line end
-- that it passes, in quotes and escaped ones too, when the line end is among the delimiters.
pub token-Tracks :
    (file : Bytes) (c : Cursor) (dest : Bool) (delim : Bytes) (dequote : Bool)
    → strchr delim b'\n' ≡ true
    → Tracks file c (token file c dest delim dequote).0
unfolding token
token-Tracks file c dest delim dequote ends = rw finish-cursor (
    Tracks-span file c _
      (token_loop-le file file dequote 0 dest delim (drop c.pos file) (initial c))
      (token_loop-Lines file delim ends dest dequote (drop c.pos file) (initial c) (omega arith)))
