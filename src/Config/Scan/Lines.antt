-- ===== src/Config/Scan/Lines.antt =====
-- The functions of `Scan` count the line ends that they pass.
use libnih.Prelude.{
  ℕ, zero, suc, ◌+◌, ◌-◌, ◌≤◌, ◌<◌, ◌≡◌, ◌≢◌, ◌∙◌, refl, Bool, true, false, not, [], ◌∷◌, ◌==◌, ltb,
  if◌then◌else◌, length, drop, take, arith, length-drop, Bool-cases, if_rule, inl, inr,
}
use native.Mathlib.Nat.{suc-add}
use libnih.CString.{Bytes, strchr, byte_at, count, byte_at-drop}
use libnih.Config.Result.{Cursor, Parsed}
use libnih.Config.Tracks.{
  Tracks, Passed, Passed-self, Passed-cons, Passed-Tracks, Tracks-span, Tracks-trans, Tracks-refl,
  lines,
}
use libnih.Config.Scan.{
  span, skip, is_ws, in_line, past_newline, next_line, skip_whitespace_loop, skip_whitespace,
  has_token, skip_comment,
}

module _ (test : ℕ → Bool) where
  pub span-le : (xs : Bytes) → span test xs ≤ length xs
  unfolding span
  span-le [] = omega arith
  span-le (x ∷ xs) = ground (arith, span-le xs)

  pub span-lines :
      ((b : ℕ) → test b ≡ true → b ≢ b'\n')
      → (xs : Bytes) → count b'\n' (take (span test xs) xs) ≡ 0
  unfolding span
  span-lines h [] = refl
  span-lines h (x ∷ xs) = ground (arith, h x, span-lines h xs)

  -- the byte behind the span fails the test
  span-stops : (xs : Bytes) → span test xs < length xs → test (byte_at xs (span test xs)) ≡ false
  unfolding span
  span-stops [] h = elim h [ ]
  span-stops (x ∷ xs) h = elim (Bool-cases (test x)) [
    | inl e ↦ rw e (span-stops xs (ground arith))
    | inr e ↦ rw e e
  ]

  pub skip-stops :
      (file : Bytes) (p : ℕ)
      → skip test file p < length file
      → test (byte_at file (skip test file p)) ≡ false
  skip-stops file p h =
      rw byte_at-drop (span-stops (drop p file) (omega (arith, length-drop p file)))

  pub skip-Tracks :
      ((b : ℕ) → test b ≡ true → b ≢ b'\n')
      → (file : Bytes) (c : Cursor) → Tracks file c (record c { pos = skip test file c.pos })
  skip-Tracks h file c =
      let k = span test (drop c.pos file) in
      let moved : c.pos + k - c.pos ≡ k = omega arith in
      Tracks-span file c _ (omega arith) (rw moved (omega (arith, span-lines h (drop c.pos file))))

  pub skip-le : (file : Bytes) (p : ℕ) → p ≤ length file → skip test file p ≤ length file
  skip-le file p h = omega (arith, span-le (drop p file), length-drop p file)

lines-suc :
    (file : Bytes) (p : ℕ)
    → p < length file
    → lines file (p + 1) ≡ lines file p + (if byte_at file p == b'\n' then 1 else 0)
lines-suc [] p h = elim h [ ]
lines-suc (x ∷ xs) zero h = ground arith
lines-suc (x ∷ xs) (suc p) h = rw (suc-add p 1) (omega (arith, lines-suc xs p (omega arith)))

pub ws-ne-newline : (b : ℕ) → is_ws b ≡ true → b ≢ b'\n'
unfolding strchr
ws-ne-newline b h = ground arith

lines-newline :
    (file : Bytes) (p : ℕ)
    → p < length file
    → byte_at file p ≡ b'\n'
    → lines file (p + 1) ≡ lines file p + 1
lines-newline file p h e = lines-suc file p h ∙ ground arith

module _ (file : Bytes) (c : Cursor) where
  pub past_newline-Tracks :
      (c.pos < length file → byte_at file c.pos ≡ b'\n') → Tracks file c (past_newline file c)
  past_newline-Tracks h =
      if_rule (Tracks file c) (ltb c.pos (length file))
        (λ e.
          let inside : c.pos < length file = ground arith in
          omega (arith, lines-newline file c.pos inside (h inside)))
        (λ _. Tracks-refl file c)

pub in_line-false : (b : ℕ) → in_line b ≡ false → b ≡ b'\n'
in_line-false b h = ground arith

pub next_line-Tracks : (file : Bytes) (c : Cursor) → Tracks file c (next_line file c)
unfolding next_line
next_line-Tracks file c =
    let d : Cursor = record c { pos = skip in_line file c.pos } in
    Tracks-trans file c d _ (skip-Tracks in_line (λ b h. ground arith) file c)
      (past_newline-Tracks file d λ h. in_line-false _ (skip-stops in_line file c.pos h))

pub skip_comment-Tracks : (file : Bytes) (c : Cursor) → Tracks file c (skip_comment file c).0
unfolding skip_comment
skip_comment-Tracks file c =
    if_rule (λ (r : Parsed (Unit {0})). Tracks file c r.0) (has_token file c)
      (λ _. Tracks-refl file c) (λ _. next_line-Tracks file c)

abbrev blank_step : ℕ → Cursor → Cursor
blank_step b c = record { pos = c.pos + 1; lineno = if b == b'\n' then c.lineno + 1 else c.lineno }

skip_whitespace_loop-Passed :
    (rest : Bytes) (c : Cursor) → Passed rest c (skip_whitespace_loop rest c)
unfolding skip_whitespace_loop
skip_whitespace_loop-Passed [] c = Passed-self [] c
skip_whitespace_loop-Passed (b ∷ []) c =
    let P = Passed (b ∷ []) c in
    if_rule P (b == b'\\') (λ _. Passed-self _ c)
      λ _.
        if_rule P (not (is_ws b)) (λ _. Passed-self _ c)
          λ _. Passed-cons b [] c (blank_step b c) _ (omega arith) (ground arith) (Passed-self [] _)
skip_whitespace_loop-Passed (b ∷ d ∷ ds) c =
    let P = Passed (b ∷ d ∷ ds) c in
    let escaped : Cursor = record { pos = c.pos + 2; lineno = c.lineno + 1 } in
    if_rule P (b == b'\\')
      (λ slash.
        if_rule P (d == b'\n')
          (λ newline.
            Passed-cons b (d ∷ ds) c (record c { pos = c.pos + 1 }) _ (omega arith) (ground arith)
              (Passed-cons d ds (record c { pos = c.pos + 1 }) escaped _ (omega arith)
                (ground arith) (skip_whitespace_loop-Passed ds escaped)))
          (λ _. Passed-self _ c))
      λ _.
        if_rule P (not (is_ws b)) (λ _. Passed-self _ c)
          λ _.
            Passed-cons b (d ∷ ds) c (blank_step b c) _ (omega arith) (ground arith)
              (skip_whitespace_loop-Passed (d ∷ ds) (blank_step b c))

pub skip_whitespace-Tracks : (file : Bytes) (c : Cursor) → Tracks file c (skip_whitespace file c)
unfolding skip_whitespace
skip_whitespace-Tracks file c =
    Passed-Tracks file c _ (skip_whitespace_loop-Passed (drop c.pos file) c)

skip_whitespace_loop-inside :
    (rest : Bytes) (c : Cursor) → (skip_whitespace_loop rest c).pos ≤ c.pos + length rest
unfolding skip_whitespace_loop
skip_whitespace_loop-inside [] c = omega arith
skip_whitespace_loop-inside (b ∷ []) c = ground arith
skip_whitespace_loop-inside (b ∷ d ∷ ds) c = ground (
  arith,
  skip_whitespace_loop-inside ds (record { pos = c.pos + 2; lineno = c.lineno + 1 }),
  skip_whitespace_loop-inside (d ∷ ds) (blank_step b c),
)

pub skip_whitespace-inside :
    (file : Bytes) (c : Cursor) → c.pos ≤ length file → (skip_whitespace file c).pos ≤ length file
unfolding skip_whitespace
skip_whitespace-inside file c h =
    omega (arith, skip_whitespace_loop-inside (drop c.pos file) c, length-drop c.pos file)
