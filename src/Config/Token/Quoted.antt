-- ===== src/Config/Token/Quoted.antt =====
-- `nih_config_token` on a string in double quotes, as one may write it by hand: a backslash is
-- doubled, all else stands for itself.
use libnih.Prelude.{
  ℕ, ◌+◌, ◌≡◌, ◌≢◌, refl, sym, ap, ◌∙◌, inl, inr, Bool, true, false, [], ◌∷◌, ◌++◌, arith, ◌==◌,
  length, drop, Bool-cases, All, append_assoc, append-nil, length-append, drop-append,
}
use mathlib.Core.Path.{subst}
use libnih.CString.{Bytes, strchr}
use libnih.Config.Result.{Cursor, ok}
use libnih.Config.Scan.{is_ws}
use libnih.Config.Token.{
  Lexer, initial, scan, scan_bare, write, copied, token_loop, finish, token, flush_space,
  flush_byte,
}
use libnih.Config.Token.Escaped.{
  escaped, Quotable, slashes, length-escaped, write-write, inside, moved, plain-lem, blank-lem,
  slash-lem, close-lem, moved_cong, next-lem,
}

module _ (dest : Bool) (delim : Bytes) where
  -- The whole string, from behind the opening quote.
  abbrev Body : Bytes → Bytes → Bytes → Type 0
  Body file xs tail =
      (done pend : Bytes) (s : Lexer)
      → file ≡ done ++ (pend ++ (escaped xs ++ (b'"' ∷ tail)))
      → token_loop file dest true delim (escaped xs ++ (b'"' ∷ tail)) (inside done pend s)
        ≡ token_loop file dest true delim tail (
            moved dest (length done + length pend + length (escaped xs) + 1) (slashes xs + 1)
              (pend ++ xs) 0 s)

  module _ (file xs tail : Bytes) (ih : Body file xs tail) where
    slash-Body : Body file (b'\\' ∷ xs) tail
    unfolding escaped slashes
    slash-Body done pend s e =
        let rest = escaped xs ++ (b'"' ∷ tail) in
        let done' = done ++ (pend ++ (b'\\' ∷ b'\\' ∷ [])) in
        let p : ℕ = length done + length pend + 2 in
        let t = moved dest p 1 (pend ++ b'\\' ∷ []) b'"' s in
        let e' : file ≡ done' ++ rest = e ∙ simp append_assoc in
        slash-lem dest delim file done pend s rest e
        ∙ next-lem dest delim file xs tail pend done' b'\\' p 1 s
            (omega (
              arith,
              length-append done (pend ++ (b'\\' ∷ b'\\' ∷ [])),
              length-append pend (b'\\' ∷ b'\\' ∷ []),
            ))
            (ih done' [] t e')
        ∙ ap (token_loop file dest true delim tail)
            (moved_cong dest delim 0 s (omega arith) (omega arith) refl)

    module _ (x : ℕ) (q : Quotable x) (other : x ≢ b'\\') where
      plain-escaped : escaped (x ∷ xs) ≡ x ∷ escaped xs
      unfolding escaped
      plain-escaped = ground arith

      plain-slashes : slashes (x ∷ xs) ≡ slashes xs
      unfolding slashes
      plain-slashes = ground arith

      plain-Body : is_ws x ≡ false → Body file (x ∷ xs) tail
      plain-Body black done pend s e =
          let rest = escaped xs ++ (b'"' ∷ tail) in
          let done' = done ++ (pend ++ (x ∷ [])) in
          let p : ℕ = length done + length pend + 1 in
          let e₀ : file ≡ done ++ (pend ++ (x ∷ rest)) = rw plain-escaped at e in
          let e' : file ≡ done' ++ rest = e₀ ∙ simp append_assoc in
          rw (plain-escaped, plain-slashes)
            (plain-lem dest delim file done pend s rest x e₀ other q.1 q.2 black
              ∙ next-lem dest delim file xs tail pend done' x p 0 s
                  (omega
                    (arith, length-append done (pend ++ (x ∷ [])), length-append pend (x ∷ [])))
                  (ih done' [] (moved dest p 0 (pend ++ x ∷ []) b'"' s) e')
              ∙ ap (token_loop file dest true delim tail)
                  (moved_cong dest delim 0 s (omega arith) (omega arith) refl))

      blank-Body : is_ws x ≡ true → Body file (x ∷ xs) tail
      blank-Body white done pend s e =
          let rest = escaped xs ++ (b'"' ∷ tail) in
          let e₀ : file ≡ done ++ (pend ++ (x ∷ rest)) = rw plain-escaped at e in
          rw (plain-escaped, plain-slashes)
            (blank-lem dest delim file done pend s rest x other q.1 q.2 white
              ∙ ih done (pend ++ x ∷ []) s (e₀ ∙ simp append_assoc)
              ∙ ap (token_loop file dest true delim tail) (
                  moved_cong dest delim 0 s (omega (arith, length-append pend (x ∷ []))) refl
                    (append_assoc pend (x ∷ []) xs)))

  pub escaped-Body : (file xs tail : Bytes) → All Quotable xs → Body file xs tail
  unfolding escaped slashes
  escaped-Body file [] tail h done pend s e =
      close-lem dest delim file done pend s tail e
      ∙ ap (token_loop file dest true delim tail)
          (moved_cong dest delim 0 s (omega arith) (omega arith) (sym (append-nil pend)))
  escaped-Body file (x ∷ xs) tail h done pend s e = elim (Bool-cases (x == b'\\')) [
    | inl slash ↦
        let same : x ≡ b'\\' = ground arith in
        subst (λ y. Body file (y ∷ xs) tail) (sym same)
          (slash-Body file xs tail (escaped-Body file xs tail h.1)) done pend s e
    | inr plain ↦ elim (Bool-cases (is_ws x)) [
      | inl white ↦
          blank-Body file xs tail (escaped-Body file xs tail h.1) x h.0 (ground arith) white done
            pend s e
      | inr black ↦
          plain-Body file xs tail (escaped-Body file xs tail h.1) x h.0 (ground arith) black done
            pend s e
    ]
  ]

unfoldable pub quoted : Bytes → Bytes
quoted xs = b'"' ∷ (escaped xs ++ (b'"' ∷ []))

pub length-quoted : (xs : Bytes) → length (quoted xs) ≡ length (escaped xs) + 2
unfolding quoted
length-quoted xs = omega (arith, length-append (escaped xs) (b'"' ∷ []))

-- The token ends in front of these bytes.
abbrev pub Ends : Bytes → Bytes → Type 0
Ends delim [] = Unit
Ends delim (t ∷ ts) = (strchr delim t ≡ true) × (t ≢ b'"') × (t ≢ b'\'') × (t ≢ b'\\')

module _ (dest : Bool) (delim : Bytes) where
  -- nothing is read behind the end of the token
  end-lem :
      (file tail : Bytes) (p q : ℕ) (add : Bytes) (s : Lexer)
      → Ends delim tail
      → token_loop file dest true delim tail (moved dest p q add 0 s) ≡ moved dest p q add 0 s
  unfolding token_loop scan scan_bare
  end-lem file [] p q add s h = refl
  end-lem file (t ∷ ts) p q add s h = ground arith

  open-lem :
      (file pre rest : Bytes) (s : Lexer)
      → s.p ≡ length pre
      → s.ws ≡ 0
      → s.slash ≡ false
      → s.quote ≡ 0
      → s.nl ≡ false
      → token_loop file dest true delim (b'"' ∷ rest) s
        ≡ token_loop file dest true delim rest
            (inside (pre ++ b'"' ∷ []) [] (record s { qc = s.qc + 1; out = write dest s.out [] }))
  unfolding token_loop scan scan_bare copied flush_space flush_byte
  open-lem file pre rest s a b c d e = ground (arith, length-append pre (b'"' ∷ []))

  loop-quoted :
      (file pre xs tail : Bytes) (s : Lexer)
      → All Quotable xs
      → Ends delim tail
      → file ≡ pre ++ (b'"' ∷ (escaped xs ++ (b'"' ∷ tail)))
      → s.p ≡ length pre
      → s.ws ≡ 0
      → s.slash ≡ false
      → s.quote ≡ 0
      → s.nl ≡ false
      → token_loop file dest true delim (b'"' ∷ (escaped xs ++ (b'"' ∷ tail))) s
        ≡ moved dest
            (length pre + length (escaped xs) + 2)
            (slashes xs + 1)
            xs
            0
            (record s { qc = s.qc + 1; out = write dest s.out [] })
  loop-quoted file pre xs tail s h k e a b c d f =
      let u : Lexer = record s { qc = s.qc + 1; out = write dest s.out [] } in
      let done = pre ++ b'"' ∷ [] in
      open-lem file pre (escaped xs ++ (b'"' ∷ tail)) s a b c d f
      ∙ escaped-Body dest delim file xs tail h done [] u (e ∙ simp append_assoc)
      ∙ end-lem file tail _ _ xs u k
      ∙ moved_cong dest delim 0 u (omega (arith, length-append pre (b'"' ∷ []))) refl refl

  finish-quoted :
      (c : Cursor) (xs : Bytes)
      → finish dest c.pos (
          moved dest
            (c.pos + length (escaped xs) + 2)
            (slashes xs + 1)
            xs
            0
            (record (initial c) { qc = 0 + 1; out = write dest [] [] }))
        ≡ (
          record c { pos = c.pos + length (quoted xs) },
          ok (length xs, write dest [] (xs ++ 0 ∷ [])),
        )
  unfolding finish
  finish-quoted c xs = ground (
    arith,
    length-escaped xs,
    length-quoted xs,
    write-write dest (write dest [] []) xs (0 ∷ []),
    write-write dest [] [] (xs ++ 0 ∷ []),
  )

  -- A quoted string is read back as the string, with its length, from any place in any file.
  pub token-quoted :
      (file pre xs tail : Bytes) (c : Cursor)
      → All Quotable xs
      → Ends delim tail
      → file ≡ pre ++ (quoted xs ++ tail)
      → c.pos ≡ length pre
      → token file c dest delim true ≡ (
        record c { pos = c.pos + length (quoted xs) },
        ok (length xs, write dest [] (xs ++ 0 ∷ [])),
      )
  unfolding token
  token-quoted file pre xs tail c h k e p =
      let text : quoted xs ++ tail ≡ b'"' ∷ (escaped xs ++ (b'"' ∷ tail)) =
        unfold quoted in simp append_assoc in
      let left : drop c.pos file ≡ b'"' ∷ (escaped xs ++ (b'"' ∷ tail)) =
        rw (p, e, drop-append) text in
      let read =
        loop-quoted file pre xs tail (initial c) h k (e ∙ ap (◌++◌ pre) text) p refl refl refl
          refl in
      rw (left, read, ← p) (finish-quoted c xs)
