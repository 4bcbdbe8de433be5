-- ===== src/Config/Token/Bound.antt =====
-- `nih_config_token`: what the second pass writes, over the token alone, against what the first
-- pass counts, over the whole file.
use libnih.Prelude.{
  ℕ, ◌+◌, ◌-◌, ◌≤◌, ◌≡◌, Bool, true, false, [], ◌∷◌, ◌++◌, arith, ◌==◌, if◌then◌else◌, if_rule, not,
  length, drop, length-append, length-take,
}
use libnih.CString.{Bytes}
use libnih.Config.Token.{
  Lexer, Action, stop, again, copy, slice, scan, scan_slash, scan_quote, scan_bare, flush_space,
  flush_byte, copied, step_over, resume, token_loop,
}

abbrev pub bit : Bool → ℕ
bit b = if b then 1 else 0

-- A pending newline will cost one byte, and a pending slash is one byte that is counted already.
abbrev pub Fits : ℕ → Lexer → Type 0
Fits start s = length s.out + bit s.nl + bit s.slash + start + s.ws + s.nlws + s.qc ≤ s.p

abbrev FitsAction : Bool → ℕ → Action → Type 0
FitsAction dequote start stop = Unit
FitsAction dequote start (again t) = Fits start (record t { p = t.p + 1 })
FitsAction dequote start (copy extra isq t) =
    (length t.out + bit t.nl + start + t.ws + t.nlws + t.qc + (if dequote then 0 else extra) ≤ t.p)
    × (t.slash ≡ false)

module _ (dequote : Bool) (start c : ℕ) (s : Lexer) (fits : Fits start s) where
  scan_slash-Fits : s.slash ≡ true → FitsAction dequote start (scan_slash true dequote c s)
  unfolding scan_slash
  scan_slash-Fits e = ground (arith, length-append s.out (b'\\' ∷ []))

  scan_quote-Fits : s.slash ≡ false → FitsAction dequote start (scan_quote c s)
  unfolding scan_quote
  scan_quote-Fits e = ground arith

  scan_bare-Fits :
      (delim : Bytes) → s.slash ≡ false → FitsAction dequote start (scan_bare delim c s)
  unfolding scan_bare
  scan_bare-Fits delim e = ground arith

  scan-Fits : (delim : Bytes) → FitsAction dequote start (scan true dequote delim c s)
  unfolding scan
  scan-Fits delim = if_rule (FitsAction dequote start) s.slash scan_slash-Fits λ e.
      if_rule (FitsAction dequote start) (c == b'\\') (λ _. ground arith)
        λ _.
          if_rule (FitsAction dequote start) (not (s.quote == 0)) (λ _. scan_quote-Fits e)
            (λ _. scan_bare-Fits delim e)

module _ (file : Bytes) (dequote : Bool) (start : ℕ) where
  flush_space-Fits :
      (extra : ℕ) (isq : Bool) (s : Lexer)
      → FitsAction dequote start (copy extra isq s)
      → let t = flush_space file true extra s in
        (length t.out + start + t.nlws + t.qc + (if dequote then 0 else extra) ≤ t.p)
        × (t.slash ≡ false)
        × (t.p ≡ s.p)
  unfolding flush_space
  flush_space-Fits extra isq s h = ground (
    arith,
    length-append s.out (b' ' ∷ []),
    length-append s.out (slice file (s.p - s.ws - extra) s.ws),
    length-take s.ws (drop (s.p - s.ws - extra) file),
  )

  flush_byte-Fits :
      (c extra : ℕ) (isq : Bool) (t : Lexer)
      → length t.out + start + t.nlws + t.qc + (if dequote then 0 else extra) ≤ t.p
      → t.slash ≡ false
      → Fits start (step_over (flush_byte file true dequote extra isq c t))
  unfolding flush_byte
  flush_byte-Fits c extra isq t h e =
      let copied = slice file (t.p - extra) extra in
      ground (
        arith,
        length-append t.out copied,
        length-append t.out (c ∷ []),
        length-append (t.out ++ copied) (c ∷ []),
        length-take extra (drop (t.p - extra) file),
      )

  copied-Fits :
      (c extra : ℕ) (isq : Bool) (s : Lexer)
      → FitsAction dequote start (copy extra isq s)
      → Fits start (step_over (copied file true dequote c extra isq s))
  unfolding copied
  copied-Fits c extra isq s h =
      let f = flush_space-Fits extra isq s h in
      flush_byte-Fits c extra isq (flush_space file true extra s) f.0 f.1

  resume-Fits :
      (next : Lexer → Lexer)
      → ((t : Lexer) → Fits start t → Fits start (next t))
      → (c : ℕ) (s : Lexer) → Fits start s
      → (a : Action) → FitsAction dequote start a
      → Fits start (resume file true dequote next c s a)
  resume-Fits next ih c s h stop k = h
  resume-Fits next ih c s h (again t) k = ih (step_over t) k
  resume-Fits next ih c s h (copy extra isq t) k = ih _ (copied-Fits c extra isq t k)

  pub token_loop-Fits :
      (delim rest : Bytes) (s : Lexer)
      → Fits start s
      → Fits start (token_loop file true dequote delim rest s)
  unfolding token_loop
  token_loop-Fits delim [] s h = h
  token_loop-Fits delim (c ∷ cs) s h =
      resume-Fits (token_loop file true dequote delim cs) (token_loop-Fits delim cs) c s h
        (scan true dequote delim c s) (scan-Fits dequote start c s h delim)
