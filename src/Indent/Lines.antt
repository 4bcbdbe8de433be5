-- ===== src/Indent/Lines.antt =====
-- The lines that `indent` and `comment` make of those of a string.
use libnih.Prelude.{
  ℕ, zero, suc, ◌+◌, ◌≡◌, ◌<◌, inl, inr, refl, sym, ap, ◌∙◌, arith, false, not, ◌||◌, Bool-cases,
  Option, some, List, [], ◌∷◌, ◌++◌, ◌==◌, ltb, append-nil, append_assoc, if_rule, length,
  replicate, All,
}
use libnih.CString.{Bytes, byte_at, codes, split_by}
use libnih.Indent.{tabs, stars, indent, comment}
use libnih.Indent.Whole.{IsPlain, IsByte, marked, whole, mark_lines-Fills}

-- A line with `level` tabs, where it is not empty.
abbrev pub tabbed : ℕ → Bytes → Bytes
tabbed level [] = []
tabbed level (c ∷ line) = replicate level 9 ++ c ∷ line

abbrev pub tabbed_behind : ℕ → List Bytes → Bytes
tabbed_behind level [] = []
tabbed_behind level (line ∷ lines) = 10 ∷ (tabbed level line ++ tabbed_behind level lines)

-- The text whose lines are those of the string, each tabbed; the empty string gets its tabs.
abbrev pub indented : ℕ → Bytes → Bytes
indented level [] = replicate level 9
indented level (c ∷ str) =
    let lines = split_by 10 (c ∷ str) in tabbed level lines.0 ++ tabbed_behind level lines.1

-- A line behind a star.
abbrev pub starred : Bytes → Bytes
starred [] = codes " *"
starred (c ∷ line) = codes " * " ++ c ∷ line

-- The last line has no star if it is empty: the string ends in a newline.
abbrev pub starred_behind : List Bytes → Bytes
starred_behind [] = []
starred_behind ([] ∷ []) = 10 ∷ []
starred_behind ([] ∷ next ∷ lines) = 10 ∷ (starred [] ++ starred_behind (next ∷ lines))
starred_behind ((c ∷ line) ∷ lines) = 10 ∷ (starred (c ∷ line) ++ starred_behind lines)

abbrev pub commented : Bytes → Bytes
commented [] = codes " * "
commented (c ∷ str) = let lines = split_by 10 (c ∷ str) in starred lines.0 ++ starred_behind lines.1

behind_tabs :
    (level : ℕ) (str : Bytes)
    → All IsByte str
    → (tabs level).line (byte_at str 0)
        ++ ((split_by 10 str).0 ++ tabbed_behind level (split_by 10 str).1)
      ≡ tabbed level (split_by 10 str).0 ++ tabbed_behind level (split_by 10 str).1
behind_tabs level [] bytes = refl
behind_tabs level (c ∷ str) bytes = elim (Bool-cases (c == 10)) [
  | inl e ↦ rw (e, bytes.0) refl
  | inr e ↦ rw (e, bytes.0) (sym (append_assoc (replicate level 9) _ _))
]

marked-tabs :
    (level : ℕ) (str : Bytes)
    → All IsByte str
    → marked (tabs level) str ≡ (split_by 10 str).0 ++ tabbed_behind level (split_by 10 str).1
marked-tabs level [] bytes = refl
marked-tabs level (c ∷ str) bytes = elim (Bool-cases (c == 10)) [
  | inl e ↦
      let ten : c ≡ 10 = ground (arith, e) in
      rw (e, marked-tabs level str bytes.1, behind_tabs level str bytes.1) (rw ten refl)
  | inr e ↦ rw (e, marked-tabs level str bytes.1) refl
]

whole-tabs :
    (level : ℕ) (str : Bytes) → All IsByte str → whole (tabs level) str ≡ indented level str
whole-tabs level [] bytes = append-nil (replicate level 9)
whole-tabs level (c ∷ str) bytes =
    ap (λ xs. (tabs level).first c ++ xs) (marked-tabs level (c ∷ str) bytes)
    ∙ elim (Bool-cases (c == 10)) [
      | inl e ↦ rw e refl
      | inr e ↦ rw e (sym (append_assoc (replicate level 9) _ _))
    ]

behind_stars :
    (str : Bytes)
    → All IsByte str
    → 10
        ∷ (stars.line (byte_at str 0)
            ++ ((split_by 10 str).0 ++ starred_behind (split_by 10 str).1))
      ≡ starred_behind ((split_by 10 str).0 ∷ (split_by 10 str).1)
behind_stars [] bytes = refl
behind_stars (c ∷ str) bytes = elim (Bool-cases (c == 10)) [
  | inl e ↦ rw (e, bytes.0) refl
  | inr e ↦ rw (e, bytes.0) refl
]

marked-stars :
    (str : Bytes)
    → All IsByte str
    → marked stars str ≡ (split_by 10 str).0 ++ starred_behind (split_by 10 str).1
marked-stars [] bytes = refl
marked-stars (c ∷ str) bytes = elim (Bool-cases (c == 10)) [
  | inl e ↦
      let ten : c ≡ 10 = ground (arith, e) in
      rw (e, marked-stars str bytes.1) (rw ten (behind_stars str bytes.1))
  | inr e ↦ rw (e, marked-stars str bytes.1) refl
]

whole-stars : (str : Bytes) → All IsByte str → whole stars str ≡ commented str
whole-stars [] bytes = refl
whole-stars (c ∷ str) bytes =
    ap (λ xs. stars.first c ++ xs) (marked-stars (c ∷ str) bytes)
    ∙ elim (Bool-cases (c == 10)) [ inl e ↦ rw e refl | inr e ↦ rw e refl ]

replicate-IsPlain : (n : ℕ) → All IsPlain (replicate n 9)
replicate-IsPlain zero = tt
replicate-IsPlain (suc n) = ((refl, refl), replicate-IsPlain n)

stars-IsPlain : All IsPlain (codes " *") × All IsPlain (codes " * ")
stars-IsPlain =
    (((refl, refl), ((refl, refl), tt)), ((refl, refl), ((refl, refl), ((refl, refl), tt))))

-- `indent` at a level from 1 on, given memory of the size of its result that starts with the
-- string, fills it exactly and writes nowhere else: each line of the string that is not empty has
-- `level` tabs in front, the empty ones stay as they are, and an empty string becomes the tabs.
pub indent-Fills :
    (grown : ℕ → Option Bytes) (str junk : Bytes) (level : ℕ)
    → 0 < level
    → All IsByte str
    → grown (length (indented level str) + 1) ≡ some (str ++ 0 ∷ junk)
    → length (str ++ 0 ∷ junk) ≡ length (indented level str) + 1
    → indent grown str level ≡ some (some (indented level str ++ 0 ∷ []))
unfolding indent
indent-Fills grown str junk level positive bytes g fits =
    let allowed : not (ltb 0 level) ≡ false = ground (arith, positive) in
    let same = whole-tabs level str bytes in
    rw (allowed, sym same)
      (mark_lines-Fills (tabs level) grown str junk
        (λ c. if_rule (All IsPlain) (c == 0 || c == 10) (λ e. tt) (λ e. replicate-IsPlain level))
        (λ c. if_rule (All IsPlain) (c == 10) (λ e. tt) (λ e. replicate-IsPlain level)) bytes
        (rw same g) (rw same fits))

-- `comment`, given memory of the size of its result that starts with the string, fills it exactly
-- and writes nowhere else: each line of the string that is not empty has a star between blanks in
-- front, the empty ones become a blank and a star, but for an empty one behind the last newline,
-- which stays empty, and an empty string becomes a star between blanks.
pub comment-Fills :
    (grown : ℕ → Option Bytes) (str junk : Bytes)
    → All IsByte str
    → grown (length (commented str) + 1) ≡ some (str ++ 0 ∷ junk)
    → length (str ++ 0 ∷ junk) ≡ length (commented str) + 1
    → comment grown str ≡ some (some (commented str ++ 0 ∷ []))
unfolding comment
comment-Fills grown str junk bytes g fits =
    let same = whole-stars str bytes in
    rw (sym same) (
      mark_lines-Fills stars grown str junk
        (λ c.
          if_rule (All IsPlain) (c == 0) (λ e. tt)
            (λ e. if_rule (All IsPlain) (c == 10) (λ e. stars-IsPlain.0) (λ e. stars-IsPlain.1)))
        (λ c. if_rule (All IsPlain) (c == 10) (λ e. stars-IsPlain.0) (λ e. stars-IsPlain.1)) bytes
        (rw same g) (rw same fits))
