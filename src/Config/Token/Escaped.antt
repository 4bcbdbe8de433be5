-- ===== src/Config/Token/Escaped.antt =====
-- A string in double quotes as one may write it by hand, a backslash doubled, and the rounds of
-- `nih_config_token` over its bytes.
use libnih.Prelude.{
  ℕ, ◌+◌, ◌-◌, ◌≡◌, ◌≢◌, refl, ap, ◌∙◌, Bool, true, false, [], ◌∷◌, ◌++◌, arith, ◌==◌, length,
  if◌then◌else◌, append_assoc, length-append, drop-append, take-append,
}
use libnih.CString.{Bytes}
use libnih.Config.Scan.{is_ws}
use libnih.Config.Token.{
  Lexer, scan, scan_slash, scan_quote, slice, write, copied, token_loop, flush_space, flush_byte,
}

unfoldable pub escaped : Bytes → Bytes
escaped [] = []
escaped (x ∷ xs) = if x == b'\\' then b'\\' ∷ b'\\' ∷ escaped xs else x ∷ escaped xs

-- A byte that can be quoted: no NUL, line end or double quote.
abbrev pub Quotable : ℕ → Type 0
Quotable x = (x ≢ 0) × (x ≢ b'\n') × (x ≢ b'"')

unfoldable pub slashes : Bytes → ℕ
slashes [] = 0
slashes (x ∷ xs) = (if x == b'\\' then 1 else 0) + slashes xs

pub length-escaped : (xs : Bytes) → length (escaped xs) ≡ length xs + slashes xs
unfolding escaped slashes
length-escaped [] = omega arith
length-escaped (x ∷ xs) = ground (arith, length-escaped xs)

pub write-write :
    (dest : Bool) (o a b : Bytes) → write dest (write dest o a) b ≡ write dest o (a ++ b)
write-write true o a b = append_assoc o a b
write-write false o a b = refl

pub slice-append :
    (done pend rest : Bytes) → slice (done ++ (pend ++ rest)) (length done) (length pend) ≡ pend
slice-append done pend rest = rw drop-append (take-append pend rest)

-- in the quotes, with the whitespace `pend` waiting
abbrev pub inside : Bytes → Bytes → Lexer → Lexer
inside done pend s = record s {
  p = length done + length pend;
  ws = length pend;
  slash = false;
  quote = b'"';
  nl = false;
}

-- behind `n` more bytes, `q` of them not copied, and with the bytes `add` copied
abbrev pub moved : Bool → ℕ → ℕ → Bytes → ℕ → Lexer → Lexer
moved dest p q add quote s = record s {
  p = p;
  ws = 0;
  qc = s.qc + q;
  slash = false;
  quote = quote;
  nl = false;
  out = write dest s.out add;
}

module _ (dest : Bool) (delim : Bytes) where
  module _ (file done pend : Bytes) (s : Lexer) where
    -- a byte that is copied as it stands
    pub plain-lem :
        (rest : Bytes) (x : ℕ)
        → file ≡ done ++ (pend ++ (x ∷ rest))
        → x ≢ b'\\'
        → x ≢ b'\n'
        → x ≢ b'"'
        → is_ws x ≡ false
        → token_loop file dest true delim (x ∷ rest) (inside done pend s)
          ≡ token_loop file dest true delim rest
              (moved dest (length done + length pend + 1) 0 (pend ++ x ∷ []) b'"' s)
    unfolding token_loop scan scan_quote copied flush_space flush_byte
    plain-lem rest x e a b c d =
        let at : length done + length pend - length pend - 0 ≡ length done = omega arith in
        let text : slice file (length done + length pend - length pend - 0) (length pend) ≡ pend =
          rw (at, e) (slice-append done pend (x ∷ rest)) in
        ground (arith, text, write-write dest s.out pend (x ∷ []))

    pub blank-lem :
        (rest : Bytes) (x : ℕ)
        → x ≢ b'\\'
        → x ≢ b'\n'
        → x ≢ b'"'
        → is_ws x ≡ true
        → token_loop file dest true delim (x ∷ rest) (inside done pend s)
          ≡ token_loop file dest true delim rest (inside done (pend ++ x ∷ []) s)
    unfolding token_loop scan scan_quote
    blank-lem rest x a b c d = ground (arith, length-append pend (x ∷ []))

    pub slash-lem :
        (rest : Bytes)
        → file ≡ done ++ (pend ++ (b'\\' ∷ b'\\' ∷ rest))
        → token_loop file dest true delim (b'\\' ∷ b'\\' ∷ rest) (inside done pend s)
          ≡ token_loop file dest true delim rest
              (moved dest (length done + length pend + 2) 1 (pend ++ b'\\' ∷ []) b'"' s)
    unfolding token_loop scan scan_slash copied flush_space flush_byte
    slash-lem rest e =
        let at : length done + length pend + 1 - length pend - 1 ≡ length done = omega arith in
        let text : slice file (length done + length pend + 1 - length pend - 1) (length pend)
            ≡ pend =
          rw (at, e) (slice-append done pend (b'\\' ∷ b'\\' ∷ rest)) in
        ground (arith, text, write-write dest s.out pend (b'\\' ∷ []))

    pub close-lem :
        (rest : Bytes)
        → file ≡ done ++ (pend ++ (b'"' ∷ rest))
        → token_loop file dest true delim (b'"' ∷ rest) (inside done pend s)
          ≡ token_loop file dest true delim rest
              (moved dest (length done + length pend + 1) 1 pend 0 s)
    unfolding token_loop scan scan_quote copied flush_space flush_byte
    close-lem rest e =
        let at : length done + length pend - length pend - 0 ≡ length done = omega arith in
        let text : slice file (length done + length pend - length pend - 0) (length pend) ≡ pend =
          rw (at, e) (slice-append done pend (b'"' ∷ rest)) in
        ground (arith, text)

  -- equal states, and states behind states
  pub moved_cong :
      {p p' q q' : ℕ} {add add' : Bytes} (quote : ℕ) (s : Lexer)
      → p ≡ p'
      → q ≡ q'
      → add ≡ add'
      → moved dest p q add quote s ≡ moved dest p' q' add' quote s
  moved_cong quote s a b c = rw (a, b, c)

  pub moved-moved :
      (p p' q q' : ℕ) (add add' : Bytes) (quote quote' : ℕ) (s : Lexer)
      → moved dest p q add quote (moved dest p' q' add' quote' s)
        ≡ moved dest p (q' + q) (add' ++ add) quote s
  moved-moved p p' q q' add add' quote quote' s = ground (arith, write-write dest s.out add' add)

  pub inside-moved :
      (done : Bytes) (p q : ℕ) (add : Bytes) (s : Lexer)
      → p ≡ length done
      → moved dest p q add b'"' s ≡ inside done [] (moved dest p q add b'"' s)
  inside-moved done p q add s e = ground arith

  -- The rest of a string, put behind a byte of it, which takes `k` bytes of the file.
  module _ (file xs tail pend done' : Bytes) (x p q : ℕ) (s : Lexer) where
    pub next-lem :
        p ≡ length done'
        → (let t = moved dest p q (pend ++ x ∷ []) b'"' s in
            token_loop file dest true delim (escaped xs ++ (b'"' ∷ tail)) (inside done' [] t)
            ≡ token_loop file dest true delim tail
                (moved dest (length done' + 0 + length (escaped xs) + 1) (slashes xs + 1) xs 0 t))
        → token_loop file dest true delim
            (escaped xs ++ (b'"' ∷ tail))
            (moved dest p q (pend ++ x ∷ []) b'"' s)
          ≡ token_loop file dest true delim tail
              (moved dest (p + length (escaped xs) + 1) (q + slashes xs + 1) (pend ++ (x ∷ xs)) 0 s)
    next-lem e ih =
        ap (token_loop file dest true delim (escaped xs ++ (b'"' ∷ tail)))
          (inside-moved done' p q (pend ++ x ∷ []) s e)
        ∙ ih
        ∙ ap (token_loop file dest true delim tail) (
            moved-moved _ p _ q xs (pend ++ x ∷ []) 0 b'"' s
            ∙ moved_cong 0 s (omega arith) (omega arith) (append_assoc pend (x ∷ []) xs))
