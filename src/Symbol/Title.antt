-- ===== src/Symbol/Title.antt =====
-- The type names of `symbol_typedef` are the function names of `symbol_extern` in title case.
use libnih.Prelude.{
  ℕ, ◌+◌, ◌≡◌, inl, refl, sym, ap, ◌∙◌, arith, Bool, true, false, Option, none, some, List,
  if◌then◌else◌, [], ◌∷◌, ◌++◌, length, append_assoc, append-nil, ◌>>=◌,
}
use libnih.CString.{Bytes, split_by}
use libnih.Strings.{text_of, vsprintf}
use libnih.Symbol.{
  underscore, toupper, title_len, title_loop, symbol_strcat_title, symbol_typedef, add_title,
}
use libnih.Symbol.Extern.{joined, ending, extern_name}
use libnih.Symbol.Gives.{Gives, Gives-if, Gives-bind}

pub title_loop-append :
    (first : Bool) (xs ys : Bytes)
    → title_loop first (xs ++ underscore ∷ ys) ≡ title_loop first xs ++ title_loop true ys
unfolding title_loop
title_loop-append first [] ys = ground arith
title_loop-append first (x ∷ xs) ys =
    ground (arith, title_loop-append true xs ys, title_loop-append false xs ys)

-- A word with its first letter as a capital.
abbrev pub capital : Bytes → Bytes
capital [] = []
capital (c ∷ word) = toupper c ∷ word

abbrev pub capitals : List Bytes → Bytes
capitals [] = []
capitals (word ∷ words) = capital word ++ capitals words

-- A name in title case: the words between its underscores, each with a capital.
abbrev pub title_case : Bytes → Bytes
title_case name = let words = split_by underscore name in capital words.0 ++ capitals words.1

title_loop-words :
    (first : Bool) (name : Bytes)
    → title_loop first name
      ≡ (if first then capital (split_by underscore name).0 else (split_by underscore name).0)
        ++ capitals (split_by underscore name).1
unfolding title_loop
title_loop-words true [] = refl
title_loop-words false [] = refl
title_loop-words first (c ∷ name) =
    ground (arith, title_loop-words true name, title_loop-words false name)

-- The first loop of `symbol_strcat_title` computes the length of what the second loop writes.
pub length-title_loop : (first : Bool) (xs : Bytes) → length (title_loop first xs) ≡ title_len xs
unfolding title_loop title_len
length-title_loop first [] = refl
length-title_loop first (x ∷ xs) =
    ground (arith, length-title_loop true xs, length-title_loop false xs)

module _ (allocates : ℕ → Bool) where
  -- The first part of a name, up to an underscore, does not change how the rest is capitalised.
  Apart : Bytes → Type 0
  Apart str = (ys : Bytes) → title_loop true (str ++ ys) ≡ title_loop true str ++ title_loop true ys

  strcat_title-Gives :
      (str : Option Bytes) (text : Bytes)
      → Gives allocates
          (symbol_strcat_title allocates str text)
          (text_of str ++ title_loop true text)
  unfolding symbol_strcat_title vsprintf
  strcat_title-Gives str text =
      Gives-bind allocates (vsprintf allocates text) _ text (text_of str ++ title_loop true text)
        (Gives-if allocates (length text + 1) text)
        (Gives-if allocates (length (text_of str) + title_len text + 1)
          (text_of str ++ title_loop true text))

  Apart-underscore : (xs : Bytes) → Apart (xs ++ underscore ∷ [])
  unfolding Apart title_loop
  Apart-underscore xs ys =
      ap (title_loop true) (append_assoc xs (underscore ∷ []) ys)
      ∙ title_loop-append true xs ys
      ∙ ap (λ zs. zs ++ title_loop true ys)
          (sym (title_loop-append true xs [] ∙ append-nil (title_loop true xs)))

  Apart-joined : (part : Option Bytes) (str : Bytes) → Apart str → Apart (joined part str)
  unfolding Apart
  Apart-joined none str a = a
  Apart-joined (some part) str a = λ ys.
      ap (λ xs. title_loop true (xs ++ ys)) (sym (append_assoc str part (underscore ∷ [])))
      ∙ Apart-underscore (str ++ part) ys
      ∙ ap (λ xs. title_loop true xs ++ title_loop true ys)
          (append_assoc str part (underscore ∷ []))

  add_title-Gives :
      (part : Option Bytes) (str : Bytes)
      → Apart str
      → Gives allocates
          (add_title allocates part (title_loop true str))
          (title_loop true (joined part str))
  unfolding Apart
  add_title-Gives none str a = inl refl
  add_title-Gives (some part) str a =
      rw (a (part ++ underscore ∷ []))
        (strcat_title-Gives (some (title_loop true str)) (part ++ underscore ∷ []))

  title_ending-Gives :
      (postfix : Option Bytes) (str : Bytes)
      → Gives allocates
          (elim postfix [
            | some p ↦ symbol_strcat_title allocates (some (title_loop true str)) (underscore ∷ p)
            | none ↦ some (title_loop true str)
          ])
          (title_loop true (ending postfix str))
  unfolding title_loop
  title_ending-Gives none str = inl refl
  title_ending-Gives (some p) str =
      rw (title_loop-append true str p)
        (strcat_title-Gives (some (title_loop true str)) (underscore ∷ p))

  -- `symbol_typedef` returns, of the same parts, the name of `symbol_extern` in title case: the
  -- words between its underscores one behind the other, each with its first letter as a capital and
  -- its other bytes, digits among them, as they are; it returns `NULL` only when an allocation
  -- fails.
  pub symbol_typedef-Gives :
      (prefix : Bytes) (interface_symbol midfix : Option Bytes) (symbol : Bytes)
      (postfix : Option Bytes)
      → Gives allocates
          (symbol_typedef allocates prefix interface_symbol midfix symbol postfix)
          (title_case (extern_name prefix interface_symbol midfix symbol postfix))
  unfolding symbol_typedef Apart
  symbol_typedef-Gives prefix interface_symbol midfix symbol postfix =
      let start = prefix ++ underscore ∷ [] in
      let front = joined interface_symbol start in
      let middle = joined midfix front in
      let whole = middle ++ symbol in
      let apart = Apart-joined interface_symbol start (Apart-underscore prefix) in
      rw (sym (title_loop-words true (ending postfix whole))) (
        Gives-bind allocates
          (symbol_strcat_title allocates none start
            >>= add_title allocates interface_symbol
            >>= add_title allocates midfix)
          _ (title_loop true middle) (title_loop true (ending postfix whole))
          (Gives-bind allocates
            (symbol_strcat_title allocates none start >>= add_title allocates interface_symbol) _
            (title_loop true front) (title_loop true middle)
            (Gives-bind allocates (symbol_strcat_title allocates none start) _
              (title_loop true start) (title_loop true front) (strcat_title-Gives none start)
              (add_title-Gives interface_symbol start (Apart-underscore prefix)))
            (add_title-Gives midfix front apart))
          (Gives-bind allocates
            (symbol_strcat_title allocates (some (title_loop true middle)) symbol) _
            (title_loop true whole) (title_loop true (ending postfix whole))
            (rw (Apart-joined midfix front apart symbol)
              (strcat_title-Gives (some (title_loop true middle)) symbol))
            (title_ending-Gives postfix whole)))
