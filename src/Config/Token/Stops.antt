-- ===== src/Config/Token/Stops.antt =====
-- Where `nih_config_token` stops, and that it has moved over the bytes it counts.
use libnih.Prelude.{
  ℕ, suc, ◌+◌, ◌-◌, ◌≤◌, ◌<◌, ◌≡◌, ap, ◌∙◌, Bool, true, [], ◌∷◌, arith, length, drop, length-drop,
}
use libnih.CString.{Bytes, strchr, byte_at, byte_at-drop}
use libnih.Config.Result.{Cursor, ok}
use libnih.Config.Token.{
  Lexer, Action, stop, again, copy, initial, scan, scan_slash, scan_quote, scan_bare, copied,
  step_over, resume, token_loop, finish, token,
}
use libnih.Config.Token.Lines.{finish-cursor}
use libnih.Config.Token.Passes.{token_loop-le, scan-At, At, copied-p}

abbrev StopsAction : Bytes → ℕ → Action → Type 0
StopsAction delim c stop = strchr delim c ≡ true
StopsAction delim c _ = Unit

scan-Stops :
    (dest dequote : Bool) (delim : Bytes) (c : ℕ) (s : Lexer)
    → StopsAction delim c (scan dest dequote delim c s)
unfolding scan scan_slash scan_quote scan_bare
scan-Stops dest dequote delim c s = ground arith

module _ (file : Bytes) (delim : Bytes) (dest dequote : Bool) where
  abbrev loop : Bytes → Lexer → Lexer
  loop = token_loop file dest dequote delim

  abbrev Stops : Bytes → Lexer → Lexer → Type 0
  Stops rest s t = t.p - s.p < length rest → strchr delim (byte_at rest (t.p - s.p)) ≡ true

  Stops-cons :
      (c : ℕ) (cs : Bytes) (s t u : Lexer)
      → t.p ≡ s.p + 1
      → t.p ≤ u.p
      → Stops cs t u
      → Stops (c ∷ cs) s u
  Stops-cons c cs s t u p le h =
      let k : u.p - s.p ≡ suc (u.p - t.p) = omega arith in rw k (λ inside. h (omega arith))

  module _ (cs : Bytes) (ih : (t : Lexer) → Stops cs t (loop cs t)) where
    resume-Stops :
        (c : ℕ) (s : Lexer) (a : Action)
        → StopsAction delim c a
        → At file file dequote 0 s.p a
        → Stops (c ∷ cs) s (resume file dest dequote (loop cs) c s a)
    resume-Stops c s stop h at =
        let none_passed : s.p - s.p ≡ 0 = omega arith in rw none_passed (λ _. h)
    resume-Stops c s (again t) h at =
        Stops-cons c cs s (step_over t) (loop cs (step_over t)) (omega arith)
          (token_loop-le file file dequote 0 dest delim cs (step_over t)) (ih (step_over t))
    resume-Stops c s (copy extra isq t) h at =
        let u = step_over (copied file dest dequote c extra isq t) in
        Stops-cons c cs s u (loop cs u)
          (omega (arith, copied-p file file dequote 0 dest c extra isq t))
          (token_loop-le file file dequote 0 dest delim cs u) (ih u)

  token_loop-Stops : (rest : Bytes) (s : Lexer) → Stops rest s (loop rest s)
  unfolding token_loop
  token_loop-Stops [] s = λ inside. absurd (omega arith)
  token_loop-Stops (c ∷ cs) s =
      resume-Stops cs (token_loop-Stops cs) c s (scan dest dequote delim c s)
        (scan-Stops dest dequote delim c s) (scan-At file file dequote 0 dest delim c s)

-- the loop does not leave the file
module _ (file : Bytes) (delim : Bytes) (dest dequote : Bool) where
  resume-inside :
      (cs : Bytes)
      → ((t : Lexer) → (token_loop file dest dequote delim cs t).p ≤ t.p + length cs)
      → (c : ℕ) (s : Lexer) (a : Action) → At file file dequote 0 s.p a
      → (resume file dest dequote (token_loop file dest dequote delim cs) c s a).p
        ≤ s.p + suc (length cs)
  resume-inside cs ih c s stop at = omega arith
  resume-inside cs ih c s (again t) at = omega (arith, ih (step_over t))
  resume-inside cs ih c s (copy extra isq t) at = omega (
    arith,
    ih (step_over (copied file dest dequote c extra isq t)),
    copied-p file file dequote 0 dest c extra isq t,
  )

  token_loop-inside :
      (rest : Bytes) (s : Lexer) → (token_loop file dest dequote delim rest s).p ≤ s.p + length rest
  unfolding token_loop
  token_loop-inside [] s = omega arith
  token_loop-inside (c ∷ cs) s =
      resume-inside cs (token_loop-inside cs) c s (scan dest dequote delim c s)
        (scan-At file file dequote 0 dest delim c s)

finish-length :
    (dest : Bool) (start : ℕ) (s : Lexer) {n : ℕ} {out : Bytes}
    → start ≤ s.p
    → (finish dest start s).1 ≡ ok (n, out)
    → n + start ≤ s.p
unfolding finish
finish-length dest start s le e = ground arith

module _ (file : Bytes) (c : Cursor) (dest : Bool) (delim : Bytes) (dequote : Bool) where
  abbrev last : Lexer
  last = token_loop file dest dequote delim (drop c.pos file) (initial c)

  last-le : c.pos ≤ last.p
  last-le = token_loop-le file file dequote 0 dest delim (drop c.pos file) (initial c)

  token-pos : (token file c dest delim dequote).0.pos ≡ last.p
  unfolding token
  token-pos = ap (λ (d : Cursor). d.pos) (finish-cursor dest c.pos last)

  -- Behind a token, or an error in one, stands a delimiter or the end of the file.
  pub token-Stops :
      let d = (token file c dest delim dequote).0 in
      d.pos < length file → strchr delim (byte_at file d.pos) ≡ true
  token-Stops inside =
      let k : ℕ = last.p - c.pos in
      let there : (token file c dest delim dequote).0.pos ≡ c.pos + k =
        token-pos ∙ omega (arith, last-le) in
      rw (there, byte_at-drop)
        (token_loop-Stops file delim dest dequote (drop c.pos file) (initial c)
          (omega (arith, there, length-drop c.pos file)))

  -- A token is no longer than the piece of the file that it was read from.
  pub token-length :
      {n : ℕ} {out : Bytes}
      → (token file c dest delim dequote).1 ≡ ok (n, out)
      → n + c.pos ≤ (token file c dest delim dequote).0.pos
  unfolding token
  token-length e = rw finish-cursor (finish-length dest c.pos last last-le e)

  pub token-inside : c.pos ≤ length file → (token file c dest delim dequote).0.pos ≤ length file
  token-inside h = omega (
    arith,
    token-pos,
    token_loop-inside file delim dest dequote (drop c.pos file) (initial c),
    length-drop c.pos file,
  )
