-- ===== src/Config/Token/Copy.antt =====
-- `nih_config_token` called twice, as its documentation asks: to size the destination, then to
-- fill it.
use libnih.Prelude.{
  ℕ, ◌+◌, ◌-◌, ◌≤◌, ◌≡◌, sym, ap, ◌∙◌, Bool, true, false, [], ◌∷◌, ◌++◌, arith, length, take, drop,
  length-append,
}
use libnih.CString.{Bytes}
use libnih.Config.Result.{Cursor, ok}
use libnih.Config.Token.{Lexer, initial, slice, token_loop, finish, token}
use libnih.Config.Token.Bound.{Fits, token_loop-Fits}
use libnih.Config.Token.Passes.{Sim, token_loop-Sim, token_loop-le}

-- the start of a second pass, whose line number is nobody's
abbrev pub origin : Cursor
origin = record { pos = 0; lineno = 0 }

finish-pos : (dest : Bool) (start : ℕ) (s : Lexer) → (finish dest start s).0.pos ≡ s.p
unfolding finish
finish-pos dest start s = ground arith

finish-Sim :
    (start : ℕ) (s t : Lexer) {c' : Cursor} {n : ℕ} {out : Bytes}
    → Sim start s t
    → Fits 0 t
    → finish false start s ≡ (c', ok (n, out))
    → ((finish true 0 t).1 ≡ ok (n, t.out ++ 0 ∷ [])) × (length (t.out ++ 0 ∷ []) ≤ n + 1)
unfolding finish
finish-Sim start s t sim fits e = ground (arith, length-append t.out (0 ∷ []))

module _ (file : Bytes) (c : Cursor) (delim : Bytes) (dequote : Bool) where
  -- When the first pass, over the file, finds a token of `n` bytes, the second pass over the bytes
  -- that the first went through succeeds too, counts `n` again, and writes at most `n + 1` bytes
  -- with the terminating NUL, so the buffer that the callers allocate is never overrun.
  pub token_copy :
      {c' : Cursor} {n : ℕ} {out : Bytes}
      → token file c false delim dequote ≡ (c', ok (n, out))
      → (copy : Bytes) × ((token (slice file c.pos (c'.pos - c.pos)) origin true delim dequote).1
          ≡ ok (n, copy))
        × (length copy ≤ n + 1)
  unfolding token
  token_copy {c'} {n} {out} e =
      let s = token_loop file false dequote delim (drop c.pos file) (initial c) in
      let rest = drop c.pos file in
      let k : ℕ = s.p - c.pos in
      let part = take k rest in
      let t = token_loop part true dequote delim (take k rest) (initial origin) in
      let fits = token_loop-Fits part dequote 0 delim part (initial origin) (omega arith) in
      let sim : Sim c.pos s t =
        token_loop-Sim file part dequote c.pos delim rest k (initial c) (initial origin)
          (ground arith)
          (omega (arith, token_loop-le file part dequote 0 false delim rest (initial c))) in
      let done = finish-Sim c.pos s t sim fits e in
      let here : c'.pos ≡ s.p = sym (ap (λ r. r.0.pos) e) ∙ finish-pos false c.pos s in
      (t.out ++ 0 ∷ [], rw here done.0, done.1)
