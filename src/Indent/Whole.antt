-- ===== src/Indent/Whole.antt =====
-- The marks fill exactly the memory that was asked for.
use libnih.Prelude.{
  ℕ, zero, suc, ◌+◌, ◌-◌, ◌≤◌, ◌<◌, ◌≡◌, inl, inr, refl, sym, ap, ◌∙◌, arith, true, false,
  Bool-cases, Option, some, [], ◌∷◌, ◌++◌, append_assoc, ◌==◌, if◌then◌else◌, length, take,
  length-append, length-take, All,
}
use libnih.CString.{Bytes, byte_at}
use libnih.Indent.{Marks, added, size, put, put_loop, mark_lines}
use libnih.Indent.Memory.{
  put-Marks, take-last, byte_at-append, byte_at-place, next_byte, next_place, regroup, nothing,
}

abbrev pub IsPlain : ℕ → Type 0
IsPlain b = ((b == 0) ≡ false) × ((b == 10) ≡ false)

abbrev pub IsByte : ℕ → Type 0
IsByte b = (b == 0) ≡ false

module _ (marks : Marks) where
  -- The string with the marks of its lines, but for the first.
  abbrev pub marked : Bytes → Bytes
  marked [] = []
  marked (c ∷ str) = c ∷ (if c == 10 then marks.line (byte_at str 0) ++ marked str else marked str)

  length-marked : (str : Bytes) → length (marked str) ≡ length str + added marks str
  unfolding added
  length-marked [] = omega arith
  length-marked (c ∷ str) =
      ground (arith, length-marked str, length-append (marks.line (byte_at str 0)) (marked str))

  abbrev Loops : ℕ → ℕ → Bytes → Bytes → Bytes → Bytes → Type 0
  Loops n len front pre str junk =
      (rest : Bytes) × (length rest + added marks str ≡ length junk)
      × (put_loop marks n (length front) len (front ++ (pre ++ (str ++ 0 ∷ junk)))
          ≡ some (front ++ (pre ++ (marked str ++ 0 ∷ rest))))

  -- over a byte that is no newline
  plain_step :
      (n len : ℕ) (front : Bytes) (b : ℕ) (behind : Bytes)
      → IsPlain b
      → put_loop marks (suc n) (length front) len (front ++ (b ∷ behind))
        ≡ put_loop marks n (length (front ++ b ∷ [])) len ((front ++ b ∷ []) ++ behind)
  unfolding put_loop
  plain_step n len front b behind p =
      let here : byte_at (front ++ b ∷ behind) (length front) ≡ b =
        byte_at-place front (b ∷ behind) in
      let not_end : (byte_at (front ++ b ∷ behind) (length front) == 0) ≡ false =
        ap (λ x. x == 0) here ∙ p.0 in
      let no_line : (byte_at (front ++ b ∷ behind) (length front) == 10) ≡ false =
        ap (λ x. x == 10) here ∙ p.1 in
      rw (not_end, no_line, next_place front b, append_assoc front (b ∷ []) behind) refl

  -- over a newline
  newline_step :
      (n len : ℕ) (front str junk : Bytes)
      → len + 1 ≡ length front + length str + length junk + 2
      → length (marks.line (byte_at str 0)) ≤ length junk
      → put_loop marks (suc n) (length front) len (front ++ (10 ∷ (str ++ 0 ∷ junk)))
        ≡ put_loop marks n (length (front ++ 10 ∷ [])) len (
            (front ++ 10 ∷ [])
            ++ (marks.line (byte_at str 0)
                ++ (str ++ 0 ∷ take (length junk - length (marks.line (byte_at str 0))) junk)))
  unfolding put_loop
  newline_step n len front str junk e m =
      let mem = front ++ 10 ∷ (str ++ 0 ∷ junk) in
      let mark = marks.line (byte_at str 0) in
      let front' = front ++ 10 ∷ [] in
      let here : byte_at mem (length front) ≡ 10 = byte_at-place front (10 ∷ (str ++ 0 ∷ junk)) in
      let not_end : (byte_at mem (length front) == 0) ≡ false = ap (λ x. x == 0) here in
      let is_line : (byte_at mem (length front) == 10) ≡ true = ap (λ x. x == 10) here in
      let next : byte_at mem (length front + 1) ≡ byte_at str 0 =
        byte_at-append front (10 ∷ (str ++ 0 ∷ junk)) 1 ∙ next_byte str junk in
      let same : mem ≡ front' ++ (str ++ 0 ∷ junk) =
        sym (append_assoc front (10 ∷ []) (str ++ 0 ∷ junk)) in
      let moved : put mark (length front') len (front' ++ (str ++ 0 ∷ junk))
          ≡ some (front' ++ (mark ++ (str ++ 0 ∷ take (length junk - length mark) junk))) =
        put-Marks front' (str ++ 0 ∷ junk) mark len
          (omega (arith, e, length-append front (10 ∷ []), length-append str (0 ∷ junk)))
          (omega (arith, m, length-append str (0 ∷ junk)))
        ∙ ap some (
            append_assoc front' mark _
            ∙ ap (λ xs. front' ++ (mark ++ xs)) (take-last str 0 (length mark) junk m)) in
      let put_eq : put (marks.line (byte_at mem (length front + 1))) (length front + 1) len mem
          ≡ some (front' ++ (mark ++ (str ++ 0 ∷ take (length junk - length mark) junk))) =
        ap (λ b. put (marks.line b) (length front + 1) len mem) next
        ∙ ap (λ p. put mark p len mem) (sym (next_place front 10))
        ∙ ap (put mark (length front') len) same
        ∙ moved in
      rw (not_end, is_line, put_eq, next_place front 10) refl

  end_step :
      (n len : ℕ) (front junk : Bytes)
      → put_loop marks (suc n) (length front) len (front ++ 0 ∷ junk) ≡ some (front ++ 0 ∷ junk)
  unfolding put_loop
  end_step n len front junk =
      let ended : (byte_at (front ++ 0 ∷ junk) (length front) == 0) ≡ true =
        ap (λ x. x == 0) (byte_at-place front (0 ∷ junk)) in
      rw ended refl

  put_loop-Loops :
      (n len : ℕ) (front pre str junk : Bytes)
      → ((c : ℕ) → All IsPlain (marks.line c))
      → All IsPlain pre
      → All IsByte str
      → len + 1 ≡ length front + length pre + length str + length junk + 1
      → added marks str ≤ length junk
      → length pre + length str + added marks str < n
      → Loops n len front pre str junk
  unfolding added
  put_loop-Loops zero len front pre str junk lines plain bytes e m l = absurd (omega (arith, l))
  put_loop-Loops (suc n) len front (b ∷ pre) str junk lines plain bytes e m l =
      let ih =
        put_loop-Loops n len (front ++ b ∷ []) pre str junk lines plain.1 bytes
          (omega (arith, e, next_place front b)) m (omega (arith, l)) in
      (
        ih.0,
        ih.1,
        plain_step n len front b (pre ++ (str ++ 0 ∷ junk)) plain.0
            ∙ ih.2
            ∙ ap some (append_assoc front (b ∷ []) (pre ++ (marked str ++ 0 ∷ ih.0))),
      )
  put_loop-Loops (suc n) len front [] [] junk lines plain bytes e m l =
      (junk, omega arith, end_step n len front junk)
  put_loop-Loops (suc n) len front [] (c ∷ str) junk lines plain bytes e m l =
      elim (Bool-cases (c == 10)) [
        | inl line ↦
            let ten : c ≡ 10 = ground (arith, line) in
            let mark = marks.line (byte_at str 0) in
            let fits : length mark + added marks str ≤ length junk = ground (arith, m, line) in
            let rounds : length mark + length str + added marks str < n = ground (arith, l, line) in
            let junk' = take (length junk - length mark) junk in
            let left : length junk' ≡ length junk - length mark =
              omega (arith, length-take (length junk - length mark) junk) in
            let ih =
              put_loop-Loops n len (front ++ 10 ∷ []) mark str junk' lines (lines (byte_at str 0))
                bytes.1 (omega (arith, e, next_place front 10, left, fits))
                (omega (arith, left, fits)) rounds in
            let size : length ih.0 + (length mark + added marks str) ≡ length junk =
              omega (arith, ih.1, left, fits) in
            rw ten (
              ih.0,
              size,
              newline_step n len front str junk (omega (arith, e)) (omega (arith, fits))
                  ∙ ih.2
                  ∙ regroup front mark (marked str) (0 ∷ ih.0),
            )
        | inr other ↦
            let ih =
              put_loop-Loops n len (front ++ c ∷ []) [] str junk lines tt bytes.1
                (omega (arith, e, next_place front c)) (ground (arith, m, other))
                (ground (arith, l, other)) in
            (
              ih.0,
              ground (arith, ih.1, other),
              plain_step n len front c (str ++ 0 ∷ junk) (bytes.0, other)
                  ∙ ih.2
                  ∙ ap some (append_assoc front (c ∷ []) (marked str ++ 0 ∷ ih.0))
                  ∙ rw other refl,
            )
      ]

  -- The string with all its marks.
  abbrev pub whole : Bytes → Bytes
  whole str = marks.first (byte_at str 0) ++ marked str

  length-whole : (str : Bytes) → length (whole str) ≡ size marks str
  unfolding size
  length-whole str =
      omega (arith, length-marked str, length-append (marks.first (byte_at str 0)) (marked str))

  size_lem :
      (str : Bytes)
      → size marks str ≡ length str + length (marks.first (byte_at str 0)) + added marks str
  unfolding size
  size_lem str = refl

  pub mark_lines-Fills :
      (grown : ℕ → Option Bytes) (str junk : Bytes)
      → ((c : ℕ) → All IsPlain (marks.line c))
      → ((c : ℕ) → All IsPlain (marks.first c))
      → All IsByte str
      → grown (length (whole str) + 1) ≡ some (str ++ 0 ∷ junk)
      → length (str ++ 0 ∷ junk) ≡ length (whole str) + 1
      → mark_lines marks grown str ≡ some (some (whole str ++ 0 ∷ []))
  unfolding mark_lines
  mark_lines-Fills grown str junk lines first bytes g' fits' =
      let asked = length-whole str in
      let g : grown (size marks str + 1) ≡ some (str ++ 0 ∷ junk) =
        ap (λ n. grown (n + 1)) (sym asked) ∙ g' in
      let fits : length (str ++ 0 ∷ junk) ≡ size marks str + 1 = omega (arith, fits', asked) in
      let mark = marks.first (byte_at str 0) in
      let len = size marks str in
      let sum : len ≡ length str + length mark + added marks str = size_lem str in
      let room : length junk ≡ length mark + added marks str =
        omega (arith, sum, fits, length-append str (0 ∷ junk)) in
      let junk' = take (length junk - length mark) junk in
      let left : length junk' ≡ added marks str =
        omega (arith, room, length-take (length junk - length mark) junk) in
      let opened : put mark 0 len (str ++ 0 ∷ junk) ≡ some (mark ++ (str ++ 0 ∷ junk')) =
        put-Marks [] (str ++ 0 ∷ junk) mark len (omega (arith, fits))
          (omega (arith, room, length-append str (0 ∷ junk)))
        ∙ ap (λ xs. some (mark ++ xs)) (take-last str 0 (length mark) junk (omega (arith, room))) in
      let rest =
        put_loop-Loops (len + 1) len [] mark str junk' lines (first (byte_at str 0)) bytes
          (omega (arith, sum, left)) (omega (arith, left)) (omega (arith, sum)) in
      let empty : rest.0 ≡ [] = nothing rest.0 (omega (arith, rest.1, left)) in
      rw (mark_lines, g, opened, rest.2, empty)
        (ap (λ xs. some (some xs)) (sym (append_assoc mark (marked str) (0 ∷ []))))
