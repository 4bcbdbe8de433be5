-- ===== src/Config/Block/Dedent.antt =====
-- The second loop of `nih_config_parse_block`, over the lines that the first has measured.
use libnih.Prelude.{
  ℕ, zero, suc, ◌+◌, ◌-◌, ◌*◌, ◌≡◌, ◌≢◌, ◌≤◌, ◌<◌, refl, sym, ap, ◌∙◌, arith, false, not, ◌||◌,
  none, [], ◌∷◌, ◌++◌, ◌==◌, ltb, length, drop, take, if_rule, length-take, length-append,
}
use native.Mathlib.Nat.{mul-suc}
use libnih.CString.{Bytes, count, c_string}
use libnih.Config.Token.{slice}
use libnih.Config.Scan.{span, skip, in_line}
use libnih.Config.Block.{dedent_loop}

span-ge : (k : ℕ) (xs : Bytes) → count b'\n' (take k xs) ≡ 0 → k ≤ length xs → k ≤ span in_line xs
unfolding span
span-ge zero xs e l = omega arith
span-ge (suc k) [] e l = absurd (omega (arith, l))
span-ge (suc k) (x ∷ xs) e l = ground (arith, e, l, span-ge k xs)

span-drop :
    (k : ℕ) (xs : Bytes) → k ≤ span in_line xs → k + span in_line (drop k xs) ≡ span in_line xs
unfolding span
span-drop zero xs l = omega arith
span-drop (suc k) [] l = absurd (omega (arith, l))
span-drop (suc k) (x ∷ xs) l = ground (arith, l, span-drop k xs)

drop-nil : (n : ℕ) → drop {A = ℕ} n [] ≡ []
drop-nil zero = refl
drop-nil (suc n) = refl

drop-sum : (p k : ℕ) (xs : Bytes) → drop k (drop p xs) ≡ drop (p + k) xs
drop-sum zero k xs = ap (λ n. drop n xs) {y = 0 + k} (omega arith)
drop-sum (suc p) k [] = drop-nil k ∙ sym (drop-nil (suc p + k))
drop-sum (suc p) k (x ∷ xs) =
    drop-sum p k xs ∙ ap (λ n. drop n (x ∷ xs)) {x = suc (p + k)} (omega arith)

length-c_string : (xs : Bytes) → length (c_string xs) ≤ length xs
length-c_string [] = omega arith
length-c_string (x ∷ xs) = ground (arith, length-c_string xs)

module _ (file : Bytes) where
  -- From a place in a line its end is the same.
  pub skip-within :
      (p k : ℕ) → p + k ≤ skip in_line file p → skip in_line file (p + k) ≡ skip in_line file p
  skip-within p k l =
      let more = span-drop k (drop p file) (omega (arith, l)) in
      ap (λ xs. p + k + span in_line xs) (sym (drop-sum p k file)) ∙ omega (arith, more)

  pub skip-past :
      (p k : ℕ)
      → count b'\n' (take k (drop p file)) ≡ 0
      → k ≤ length (drop p file)
      → p + k ≤ skip in_line file p
  skip-past p k e l = omega (arith, span-ge k (drop p file) e l)

  -- From `p` to `q` there are `n` lines, with their newlines, of at least `ws` bytes each.
  abbrev pub Fits : ℕ → ℕ → ℕ → ℕ → Type 0
  Fits ws zero p q = p ≡ q
  Fits ws (suc n) p q =
      (p + ws ≤ skip in_line file p)
      × (skip in_line file p < length file)
      × Fits ws n (skip in_line file p + 1) q

  pub Fits-less :
      (ws ws' n p q : ℕ) → ((n == 0) ≡ false → ws' ≤ ws) → Fits ws n p q → Fits ws' n p q
  Fits-less ws ws' zero p q l f = f
  Fits-less ws ws' (suc n) p q l f =
      let less = l (ground arith) in
      (omega (arith, f.0, less), f.1, Fits-less ws ws' n _ q (λ _. less) f.2)

  pub Fits-last :
      (ws n p q : ℕ)
      → Fits ws n p q
      → q + ws ≤ skip in_line file q
      → skip in_line file q < length file
      → Fits ws (suc n) p (skip in_line file q + 1)
  Fits-last ws zero p q e l m = rw e (l, m, refl)
  Fits-last ws (suc n) p q f l m = (f.0, f.1, Fits-last ws n _ q f.2 l m)

  -- what is left of the lines without `ws` bytes of each
  kept : (ws n p q : ℕ) → Fits ws n p q → (r : ℕ) × (q ≡ p + ws * n + r) × (n ≤ r)
  kept ws zero p q e = (0, omega (arith, e), omega arith)
  kept ws (suc n) p q f =
      let k = kept ws n _ q f.2 in
      (
        skip in_line file p + 1 - p - ws + k.0,
        omega (arith, k.1, f.0, mul-suc ws n),
        omega (arith, f.0, k.2),
      )

  dedent_loop-Total :
      (fuel n p q ws sh_len : ℕ) (block : Bytes)
      → Fits ws n p q
      → length block + (q - p - ws * n) ≤ sh_len
      → n < fuel
      → dedent_loop fuel file p q ws sh_len block ≢ none
  unfolding dedent_loop
  dedent_loop-Total zero n p q ws sh_len block f l h = elim h [ ]
  dedent_loop-Total (suc fuel) zero p q ws sh_len block e l h =
      if_rule (λ o. o ≢ none) (not (ltb p q)) (λ _ i. cc) (λ g. absurd (ground (arith, g, e)))
  dedent_loop-Total (suc fuel) (suc n) p q ws sh_len block f l h =
      let newline = skip in_line file (p + ws) in
      let same : newline ≡ skip in_line file p = skip-within p ws f.0 in
      let line = c_string (slice file (p + ws) (newline + 1 - (p + ws))) in
      let k = kept ws n (skip in_line file p + 1) q f.2 in
      let whole = kept ws (suc n) p q f in
      let short : length line ≤ newline + 1 - (p + ws) = omega (
        arith,
        length-c_string (slice file (p + ws) (newline + 1 - (p + ws))),
        length-take (newline + 1 - (p + ws)) (drop (p + ws) file),
      ) in
      let count : skip in_line file p + 1 + ws * n + k.0 ≡ p + ws * suc n + whole.0 =
        omega (arith, k.1, whole.1) in
      let inside : newline < length file = omega (arith, same, f.1) in
      let left : q - (newline + 1) - ws * n ≡ k.0 = omega (arith, same, k.1) in
      let sum : length (block ++ line) + k.0 ≤ sh_len =
        omega
          (arith, length-append block line, short, same, l, whole.1, count, mul-suc ws n, f.0) in
      if_rule (λ o. o ≢ none) (not (ltb p q)) (λ _ i. cc)
        λ _.
          if_rule (λ o. o ≢ none)
            (not (ltb newline (length file)) || ltb sh_len (length (block ++ line)))
            (λ e. absurd (ground (arith, e, inside, sum)))
            (λ _.
              dedent_loop-Total fuel n (newline + 1) q ws sh_len (block ++ line) (rw same f.2)
                (omega (arith, sum, left)) (omega (arith, h)))

  -- The second loop ends, reads nothing behind the end of the file and writes nothing outside of
  -- the memory that has been sized for what is left of the lines.
  pub dedent_loop-Returns :
      (n p q ws : ℕ)
      → Fits ws n p q
      → dedent_loop (suc (q - p)) file p q ws (q - p - ws * n) [] ≢ none
  dedent_loop-Returns n p q ws f =
      let k = kept ws n p q f in
      dedent_loop-Total (suc (q - p)) n p q ws (q - p - ws * n) [] f (omega arith)
        (omega (arith, k.1, k.2))
