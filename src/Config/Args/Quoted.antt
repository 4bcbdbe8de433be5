-- ===== src/Config/Args/Quoted.antt =====
-- `nih_config_parse_args` on a line of quoted arguments.
use libnih.Prelude.{
  ℕ, zero, suc, ◌+◌, ◌-◌, ◌≡◌, ◌≢◌, ◌⊎◌, inl, inr, ◌<◌, refl, ap, ◌∙◌, sym, true, false, not, List,
  [], ◌∷◌, ◌++◌, some, ◌==◌, length, All, drop, arith, append_assoc, append-nil, length-append,
  drop-append, take-append,
}
use libnih.CString.{Bytes, c_string, strchr, byte_at, byte_at-drop}
use libnih.Config.Result.{Cursor, ok}
use libnih.Config.Token.{token, slice, config_cnl, config_cnlws}
use libnih.Config.Token.Copy.{origin}
use libnih.Config.Token.Escaped.{Quotable, escaped}
use libnih.Config.Token.Quoted.{quoted, token-quoted}
use libnih.Config.Scan.{
  has_token, skip_whitespace, skip_whitespace_loop, skip_comment, next_line, span,
}
use libnih.Config.Args.{Alloc, next_token, next_arg, parse_args_loop, parse_args, fill}

-- Arguments in quotes, a space behind each, and the end of the line.
unfoldable pub print_args : List Bytes → Bytes
print_args [] = b'\n' ∷ []
print_args (w ∷ ws) = quoted w ++ (b' ' ∷ print_args ws)

-- an argument that can be printed
abbrev pub Printable : Bytes → Type 0
Printable w = All Quotable w × (w ≢ [])

-- There is memory for everything.
abbrev pub plenty : Alloc
plenty c n = true

c_string-append : (w : Bytes) → All Quotable w → c_string (w ++ 0 ∷ []) ≡ w
c_string-append [] h = refl
c_string-append (x ∷ xs) h = ground (arith, c_string-append xs h.1)

-- what does not start with whitespace or an escaped line end
abbrev Black : Bytes → Type 0
Black [] = ⊥
Black (b ∷ bs) = (b ≡ b'"') ⊎ (b ≡ b'\n')

skip_one :
    (more : Bytes) (c : Cursor)
    → Black more
    → skip_whitespace_loop (b' ' ∷ more) c ≡ record c { pos = c.pos + 1 }
unfolding skip_whitespace_loop
skip_one [] c h = elim h [ ]
skip_one (b ∷ []) c h = ground arith
skip_one (b ∷ d ∷ ds) c h = ground arith

length_pos : (w : Bytes) → w ≢ [] → (length w == 0) ≡ false
length_pos [] h = absurd (h refl)
length_pos (x ∷ xs) h = ground arith

module _ (file pre w more : Bytes) (c : Cursor) (h : Printable w) (black : Black more)
    (e : file ≡ pre ++ (quoted w ++ (b' ' ∷ more))) (p : c.pos ≡ length pre) where
  abbrev behind : Cursor
  behind = record c { pos = c.pos + length (quoted w) }

  skip_behind : skip_whitespace file behind ≡ record c { pos = c.pos + length (quoted w) + 1 }
  unfolding skip_whitespace
  skip_behind =
      let there : behind.pos ≡ length (pre ++ quoted w) =
        omega (arith, length-append pre (quoted w)) in
      rw (there, e, ← append_assoc, drop-append, ← there) (skip_one more behind black)

  fill_quoted : (here : Cursor) → fill file c behind here config_cnlws true ≡ (here, ok w)
  fill_quoted here =
      let size : c.pos + length (quoted w) - c.pos ≡ length (quoted w) = omega arith in
      let part : slice file c.pos (c.pos + length (quoted w) - c.pos) ≡ quoted w =
        rw (size, p, e, drop-append) (take-append (quoted w) (b' ' ∷ more)) in
      let whole : quoted w ≡ [] ++ (quoted w ++ []) = sym (append-nil (quoted w)) in
      let read = token-quoted true config_cnlws (quoted w) [] w [] origin h.0 tt whole refl in
      let copied : (token (slice file c.pos (c.pos + length (quoted w) - c.pos)) origin true
            config_cnlws true).1
          ≡ ok (length w, w ++ 0 ∷ []) =
        rw part (ap (λ r. r.1) read) in
      ground (arith, copied, c_string-append w h.0)

  next_arg-quoted :
      next_arg plenty file c ≡ (record c { pos = c.pos + length (quoted w) + 1 }, ok w)
  unfolding next_arg next_token strchr
  next_arg-quoted =
      let found =
        token-quoted false config_cnlws file pre w (b' ' ∷ more) c h.0
          (refl, omega arith, omega arith, omega arith) e p in
      let some_bytes : (length w == 0) ≡ false = length_pos w h.1 in
      rw (found, some_bytes, skip_behind) (fill_quoted _)

print_args-Black : (ws : List Bytes) (rest : Bytes) → Black (print_args ws ++ rest)
unfolding print_args quoted
print_args-Black [] rest = inr refl
print_args-Black (w ∷ ws) rest = inl refl

-- the cursor at the byte `b`
module _ (file pre : Bytes) (b : ℕ) (bs : Bytes) (c : Cursor) (e : file ≡ pre ++ (b ∷ bs))
    (p : c.pos ≡ length pre) where
  at_byte : byte_at file c.pos ≡ b
  at_byte =
      let there : c.pos ≡ length pre + 0 = omega arith in
      rw (there, byte_at-drop, e, drop-append) refl

  in_file : c.pos < length file
  in_file = omega (arith, ap length e, length-append pre (b ∷ bs))

  has_token_at : has_token file c ≡ not (strchr config_cnl b)
  unfolding has_token
  has_token_at = let inside = in_file in rw at_byte (ground arith)

newline_at :
    (file pre bs : Bytes) (c : Cursor)
    → file ≡ pre ++ (b'\n' ∷ bs)
    → c.pos ≡ length pre
    → skip_comment file c ≡ (record { pos = c.pos + 1; lineno = c.lineno + 1 }, ok tt)
unfolding skip_comment next_line span strchr
newline_at file pre bs c e p =
    let inside = in_file file pre b'\n' bs c e p in
    let left : drop c.pos file ≡ b'\n' ∷ bs = rw (e, p) (drop-append pre (b'\n' ∷ bs)) in
    rw (has_token_at file pre b'\n' bs c e p, left) (ground arith)

abbrev pub AllPrintable : List Bytes → Type 0
AllPrintable [] = Unit
AllPrintable (w ∷ ws) = Printable w × AllPrintable ws

length-print_args : (ws : List Bytes) → length ws < length (print_args ws)
unfolding print_args
length-print_args [] = omega arith
length-print_args (w ∷ ws) =
    omega (arith, length-append (quoted w) (b' ' ∷ print_args ws), length-print_args ws)

module _ (file rest : Bytes) (start : Cursor) where
  parse_args_loop-print :
      (fuel : ℕ) (pre : Bytes) (ws : List Bytes) (c : Cursor) (args : List Bytes)
      → AllPrintable ws
      → file ≡ pre ++ (print_args ws ++ rest)
      → c.pos ≡ length pre
      → length ws < fuel
      → parse_args_loop plenty fuel file start c args
        ≡ some (
          record { pos = c.pos + length (print_args ws); lineno = c.lineno + 1 },
          ok (args ++ ws),
        )
  unfolding parse_args_loop print_args strchr quoted
  parse_args_loop-print zero pre ws c args h e p room = elim room [ ]
  parse_args_loop-print (suc fuel) pre [] c args h e p room =
      let none_left = has_token_at file pre b'\n' rest c e p in
      let ended = newline_at file pre rest c e p in
      rw (none_left, append-nil) (ground (arith, ended))
  parse_args_loop-print (suc fuel) pre (w ∷ ws) c args h e p room =
      let more = print_args ws ++ rest in
      let pre' = pre ++ (quoted w ++ (b' ' ∷ [])) in
      let d : Cursor = record c { pos = c.pos + length (quoted w) + 1 } in
      let e₀ : file ≡ pre ++ (quoted w ++ (b' ' ∷ more)) = e ∙ simp append_assoc in
      let arg = next_arg-quoted file pre w more c h.0 (print_args-Black ws rest) e₀ p in
      let next =
        parse_args_loop-print fuel pre' ws d (args ++ w ∷ []) h.1 (e₀ ∙ simp append_assoc)
          (omega (
            arith,
            length-append pre (quoted w ++ (b' ' ∷ [])),
            length-append (quoted w) (b' ' ∷ []),
          ))
          (omega arith) in
      let found : has_token file c ≡ true =
        has_token_at file pre b'"' (escaped w ++ (b'"' ∷ b' ' ∷ more)) c (e₀ ∙ simp append_assoc)
          p in
      rw (found, arg)
        (next
          ∙ ap some (
              ground (
                arith,
                append_assoc args (w ∷ []) ws,
                length-append (quoted w) (b' ' ∷ print_args ws),
              )))

module _ (pre rest : Bytes) (ws : List Bytes) (h : AllPrintable ws) (lineno : ℕ) where
  -- When there is memory for it, `nih_config_parse_args` reads a line of quoted arguments back as
  -- the arguments, from any place in any file, and leaves the cursor at the line behind it.
  pub parse_args-print :
      parse_args plenty
        (pre ++ (print_args ws ++ rest))
        (record { pos = length pre; lineno = lineno })
      ≡ some (record { pos = length pre + length (print_args ws); lineno = lineno + 1 }, ok ws)
  unfolding parse_args
  parse_args-print =
      let file = pre ++ (print_args ws ++ rest) in
      let c : Cursor = record { pos = length pre; lineno = lineno } in
      parse_args_loop-print file rest c (suc (length file - length pre)) pre ws c [] h refl refl (
        omega (
          arith,
          length-append pre (print_args ws ++ rest),
          length-append (print_args ws) rest,
          length-print_args ws,
        ))
