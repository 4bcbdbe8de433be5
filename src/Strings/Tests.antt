-- ===== src/Strings/Tests.antt =====
-- nih_str_split and the arrays run on short strings.
use libnih.Prelude.{ℕ, ◌≡◌, refl, arith, Bool, true, false, All, none, some, [], ◌∷◌, ltb}
use libnih.CString.{codes, strchr}
use libnih.Strings.{strndup}
use libnih.Strings.Array.{
  Strings, AllOrNone, str_array_new, str_array_addp, str_array_addn, str_array_append,
  str_array_append-AllOrNone,
}
use libnih.Strings.Split.{
  Splits, IsPlain, ended, str_split, split_loop, after_token, skip_delims, token_len,
  str_split-Splits,
}

abbrev always : ℕ → Bool
always n = true

abbrev small : ℕ → Bool
small n = ltb n 20

abbrev words : Strings
words = codes "a" ∷ [] ∷ codes "bc" ∷ []

split : str_split always 8 9 (codes "a,,bc") (codes ",") false ≡ some (some words)
unfolding str_split str_array_new split_loop after_token str_array_addn str_array_addp strndup
    skip_delims token_len strchr
split = refl

failed : str_split small 8 9 (codes "a,,bc") (codes ",") false ≡ some none
unfolding str_split str_array_new split_loop after_token str_array_addn str_array_addp strndup
    skip_delims token_len strchr
failed = refl

comma : strchr (codes ",") 44 ≡ true
unfolding strchr
comma = refl

plain : All (IsPlain (codes ",")) words
unfolding strchr
plain = ((refl, tt), (tt, ((refl, (refl, tt)), tt)))

str_split-Splits_example :
    Splits always 8
      (codes ",")
      44
      comma
      (codes "a" ∷ codes "bc" ∷ [])
      (str_split always 8 9 (ended 44 words) (codes ",") true)
str_split-Splits_example =
    str_split-Splits always 8 (codes ",") 44 comma 9 true words plain (omega arith)

str_array_append-AllOrNone_example :
    AllOrNone small 8
      (some (codes "a" ∷ []))
      words
      (str_array_append small 8 (some (codes "a" ∷ [])) words)
str_array_append-AllOrNone_example =
    str_array_append-AllOrNone small 8 (some (codes "a" ∷ [])) words
