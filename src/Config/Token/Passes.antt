-- ===== src/Config/Token/Passes.antt =====
-- `nih_config_token`: the second pass, over the token alone, goes through the states of the first.
use libnih.Prelude.{ℕ, zero, suc, ◌+◌, ◌≤◌, ◌≡◌, refl, Bool, true, false, [], ◌∷◌, arith, take}
use libnih.CString.{Bytes}
use libnih.Config.Token.{
  Lexer, Action, stop, again, copy, scan, scan_slash, scan_quote, scan_bare, flush_space,
  flush_byte, copied, step_over, resume, token_loop,
}

-- Two states that differ at most in the line number and the output, the first `start` bytes ahead.
pub record Sim (start : ℕ) (s t : Lexer) : Type 0 where
  pub p : s.p ≡ start + t.p
  pub ws : s.ws ≡ t.ws
  pub nlws : s.nlws ≡ t.nlws
  pub qc : s.qc ≡ t.qc
  pub slash : s.slash ≡ t.slash
  pub quote : s.quote ≡ t.quote
  pub nl : s.nl ≡ t.nl

abbrev SimAction : ℕ → Action → Action → Type 0
SimAction start stop stop = Unit
SimAction start (again s) (again t) = Sim start s t
SimAction start (copy extra isq s) (copy extra' isq' t) =
    (extra ≡ extra') × (isq ≡ isq') × Sim start s t
SimAction start _ _ = ⊥

-- The same, to be matched on.
data View (start : ℕ) : Action → Action → Type 0 where
  both_stop : View start stop stop
  both_again : {s t : Lexer} → Sim start s t → View start (again s) (again t)
  both_copy :
      {s t : Lexer} {extra extra' : ℕ} {isq isq' : Bool}
      → extra ≡ extra'
      → isq ≡ isq'
      → Sim start s t
      → View start (copy extra isq s) (copy extra' isq' t)

view : (start : ℕ) (a b : Action) → SimAction start a b → View start a b
view start stop stop h = both_stop
view start (again s) (again t) h = both_again h
view start (copy x q s) (copy y r t) h = both_copy h.0 h.1 h.2
view start stop (again t) h = elim h [ ]
view start stop (copy y r t) h = elim h [ ]
view start (again s) stop h = elim h [ ]
view start (again s) (copy y r t) h = elim h [ ]
view start (copy x q s) stop h = elim h [ ]
view start (copy x q s) (again t) h = elim h [ ]

module _ (dequote : Bool) (start c : ℕ) (s t : Lexer) (sim : Sim start s t) where
  scan_slash-Sim : SimAction start (scan_slash false dequote c s) (scan_slash true dequote c t)
  unfolding scan_slash
  scan_slash-Sim = ground arith

  scan_quote-Sim : SimAction start (scan_quote c s) (scan_quote c t)
  unfolding scan_quote
  scan_quote-Sim = ground arith

  scan_bare-Sim : (delim : Bytes) → SimAction start (scan_bare delim c s) (scan_bare delim c t)
  unfolding scan_bare
  scan_bare-Sim delim = ground arith

  scan-Sim :
      (delim : Bytes) → SimAction start (scan false dequote delim c s) (scan true dequote delim c t)
  unfolding scan
  scan-Sim delim = ground (arith, scan_slash-Sim, scan_quote-Sim, scan_bare-Sim delim)

module _ (file part : Bytes) (dequote : Bool) (start : ℕ) where
  copied-Sim :
      (c extra : ℕ) (isq : Bool) (s t : Lexer)
      → Sim start s t
      → Sim start
          (step_over (copied file false dequote c extra isq s))
          (step_over (copied part true dequote c extra isq t))
  unfolding copied flush_space flush_byte
  copied-Sim c extra isq s t sim = ground arith

  pub copied-p :
      (dest : Bool) (c extra : ℕ) (isq : Bool) (s : Lexer)
      → (copied file dest dequote c extra isq s).p ≡ s.p
  unfolding copied flush_space flush_byte
  copied-p dest c extra isq s = ground arith

  -- each byte moves the loop on by one
  abbrev pub At : ℕ → Action → Type 0
  At p stop = Unit
  At p (again t) = t.p ≡ p
  At p (copy extra isq t) = t.p ≡ p

  pub scan-At :
      (dest : Bool) (delim : Bytes) (c : ℕ) (s : Lexer) → At s.p (scan dest dequote delim c s)
  unfolding scan scan_slash scan_quote scan_bare
  scan-At dest delim c s = ground arith

  resume-le :
      (next : Lexer → Lexer)
      → ((t : Lexer) → t.p ≤ (next t).p)
      → (dest : Bool) (c : ℕ) (s : Lexer) → (a : Action) → At s.p a
      → s.p ≤ (resume file dest dequote next c s a).p
  resume-le next ih dest c s stop k = omega arith
  resume-le next ih dest c s (again t) k = omega (arith, ih (step_over t))
  resume-le next ih dest c s (copy extra isq t) k =
      omega (
        arith,
        ih (step_over (copied file dest dequote c extra isq t)),
        copied-p dest c extra isq t,
      )

  pub token_loop-le :
      (dest : Bool) (delim rest : Bytes) (s : Lexer)
      → s.p ≤ (token_loop file dest dequote delim rest s).p
  unfolding token_loop
  token_loop-le dest delim [] s = omega arith
  token_loop-le dest delim (c ∷ cs) s =
      resume-le (token_loop file dest dequote delim cs) (token_loop-le dest delim cs) dest c s
        (scan dest dequote delim c s) (scan-At dest delim c s)

module _ (file part : Bytes) (dequote : Bool) (start : ℕ) (delim : Bytes) where
  abbrev pub first : Bytes → Lexer → Lexer
  first = token_loop file false dequote delim

  abbrev pub second : Bytes → Lexer → Lexer
  second = token_loop part true dequote delim

  abbrev pub Follows : Bytes → Type 0
  Follows rest =
      (k : ℕ) (s t : Lexer)
      → Sim start s t
      → (first rest s).p ≡ s.p + k
      → Sim start (first rest s) (second (take k rest) t)

  module _ (cs : Bytes) (ih : Follows cs) (c : ℕ) (s t : Lexer) (sim : Sim start s t) where
    resume-Sim :
        (k : ℕ) {a b : Action}
        → View start a b
        → At file part dequote start s.p a
        → scan true dequote delim c t ≡ b
        → (resume file false dequote (first cs) c s a).p ≡ s.p + k
        → Sim start (resume file false dequote (first cs) c s a) (second (take k (c ∷ cs)) t)
    unfolding token_loop
    resume-Sim zero both_stop at e len = sim
    resume-Sim (suc k) both_stop at e len = absurd (omega arith)
    resume-Sim zero (both_again {s = u} h) at e len =
        absurd (omega (arith, token_loop-le file part dequote start false delim cs (step_over u)))
    resume-Sim (suc k) (both_again {s = u} {t = v} h) at e len =
        rw e (ih k (step_over u) (step_over v) (ground arith) (omega arith))
    resume-Sim zero (both_copy {s = u} {extra = x} {isq = q} ex eq h) at e len =
        let moved = copied file false dequote c x q u in
        absurd (
          omega (
            arith,
            token_loop-le file part dequote start false delim cs (step_over moved),
            copied-p file part dequote start false c x q u,
          ))
    resume-Sim (suc k)
          (both_copy {s = u} {t = v} {extra = x} {extra' = y} {isq = q} {isq' = r} ex eq h) at e
          len =
        rw (e, ← ex, ← eq)
          (ih k (step_over (copied file false dequote c x q u))
            (step_over (copied part true dequote c x q v))
            (copied-Sim file part dequote start c x q u v h)
            (omega (arith, copied-p file part dequote start false c x q u)))

  pub token_loop-Sim : (rest : Bytes) → Follows rest
  unfolding token_loop
  token_loop-Sim [] zero s t sim len = sim
  token_loop-Sim [] (suc k) s t sim len = sim
  token_loop-Sim (c ∷ cs) k s t sim len =
      resume-Sim cs (token_loop-Sim cs) c s t sim k
        (view start _ _ (scan-Sim dequote start c s t sim delim))
        (scan-At file part dequote start false delim c s) refl len
