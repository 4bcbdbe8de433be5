-- ===== src/Indent/Tests.antt =====
-- nih-dbus-tool/indent.c run on a few lines.
use libnih.Prelude.{
  arith, ℕ, ◌+◌, ◌-◌, ◌≡◌, refl, Option, some, [], ◌∷◌, ◌++◌, length, replicate, All,
}
use libnih.CString.{Bytes, codes}
use libnih.Indent.Whole.{IsByte}
use libnih.Indent.Lines.{indent-Fills, comment-Fills}
use libnih.Indent.{memmove, put, put_loop, size, added, mark_lines, indent, comment}

-- The rest of the memory is not zero.
abbrev grown : Bytes → ℕ → Option Bytes
grown str n = some (str ++ 0 ∷ replicate (n - (length str + 1)) 255)

abbrev three_lines : Bytes
three_lines = codes "a" ++ 10 ∷ 10 ∷ (codes "b" ++ 10 ∷ [])

indented :
    indent (grown three_lines) three_lines 2
    ≡ some (some (9 ∷ 9 ∷ 97 ∷ 10 ∷ 10 ∷ 9 ∷ 9 ∷ 98 ∷ 10 ∷ 0 ∷ []))
unfolding indent mark_lines put memmove put_loop size added
indented = refl

commented : comment (grown (codes "a")) (codes "a") ≡ some (some (codes " * a" ++ 0 ∷ []))
unfolding comment mark_lines put memmove put_loop size added
commented = refl

three_lines-bytes : All IsByte three_lines
three_lines-bytes = (refl, (refl, (refl, (refl, (refl, tt)))))

indent-Fills_example :
    indent (grown three_lines) three_lines 2
    ≡ some (some (9 ∷ 9 ∷ 97 ∷ 10 ∷ 10 ∷ 9 ∷ 9 ∷ 98 ∷ 10 ∷ 0 ∷ []))
indent-Fills_example =
    indent-Fills (grown three_lines) three_lines (replicate 4 255) 2 (omega arith) three_lines-bytes
      refl refl

comment-Fills_example :
    comment (grown three_lines) three_lines
    ≡ some (some (codes " * a" ++ 10 ∷ codes " *" ++ 10 ∷ codes " * b" ++ 10 ∷ 0 ∷ []))
comment-Fills_example =
    comment-Fills (grown three_lines) three_lines (replicate 8 255) three_lines-bytes refl refl
