-- ===== src/Strings/Split.antt =====
-- nih/string.c, `nih_str_split`.
use libnih.Prelude.{
  ℕ, zero, suc, ◌+◌, ◌≤◌, ◌≡◌, ◌⊎◌, inl, inr, refl, sym, ap, ◌∙◌, arith, Bool, true, false, ◌&&◌,
  Bool-cases, Option, none, some, [], ◌∷◌, ◌++◌, append-nil, append_assoc, ◌==◌, if◌then◌else◌,
  length, take, drop, take-append, length-append, All,
}
use mathlib.Core.Path.{subst}
use native.Mathlib.Nat.{suc-add}
use libnih.CString.{Bytes, strchr}
use libnih.Strings.Array.{Strings, str_array_new, str_array_addn, str_array_addn-Adds}

-- `while (repeat && *str && strchr (delim, *str)) str++`, where `repeat` is set
unfoldable pub skip_delims : Bytes → Bytes → Bytes
skip_delims delim [] = []
skip_delims delim (c ∷ str) = if strchr delim c then skip_delims delim str else c ∷ str

-- how far `while (*str && (! strchr (delim, *str))) str++` goes
unfoldable pub token_len : Bytes → Bytes → ℕ
token_len delim [] = 0
token_len delim (c ∷ str) = if strchr delim c then 0 else suc (token_len delim str)

module _ (allocates : ℕ → Bool) (word : ℕ) where
  -- What is done with a token; `next` is the next round.
  unfoldable pub after_token :
      (Strings → Bytes → Option (Option Strings))
      → Bool
      → Strings
      → Bytes
      → ℕ
      → Option (Option Strings)
  after_token next repeat array str len =
      if repeat && len == 0
      then next array str
      else elim (str_array_addn allocates word (some array) str len).0 [
        | none ↦ some none
        | some added ↦ next added (drop (len + 1) str)
      ]

  -- `none` means that the rounds have run out; otherwise the result is what is returned.
  unfoldable pub split_loop : ℕ → Bytes → Bool → Strings → Bytes → Option (Option Strings)
  split_loop n delim repeat array [] = some (some array)
  split_loop zero delim repeat array (c ∷ rest) = none
  split_loop (suc n) delim repeat array (c ∷ rest) =
      let str = if repeat then skip_delims delim (c ∷ rest) else c ∷ rest in
      after_token (split_loop n delim repeat) repeat array str (token_len delim str)

  unfoldable pub str_split : ℕ → Bytes → Bytes → Bool → Option (Option Strings)
  str_split rounds str delim repeat = elim (str_array_new allocates word) [
    | none ↦ some none
    | some array ↦ split_loop rounds delim repeat array str
  ]

-- The strings with a delimiter behind each.
abbrev pub ended : ℕ → Strings → Bytes
ended d [] = []
ended d (t ∷ ts) = t ++ d ∷ ended d ts

-- No byte is a delimiter.
abbrev pub IsPlain : Bytes → Bytes → Type 0
IsPlain delim str = All (λ c. strchr delim c ≡ false) str

abbrev pub nonempty : Strings → Strings
nonempty [] = []
nonempty ([] ∷ ts) = nonempty ts
nonempty ((c ∷ t) ∷ ts) = (c ∷ t) ∷ nonempty ts

abbrev pub pieces : Bool → Strings → Strings
pieces true ts = nonempty ts
pieces false ts = ts

token_len-plain :
    (delim t : Bytes) (d : ℕ) (rest : Bytes)
    → IsPlain delim t
    → strchr delim d ≡ true
    → token_len delim (t ++ d ∷ rest) ≡ length t
unfolding token_len
token_len-plain delim [] d rest p m = rw m refl
token_len-plain delim (c ∷ t) d rest p m = rw p.0 (ap suc (token_len-plain delim t d rest p.1 m))

skip_delims-plain :
    (delim : Bytes) (c : ℕ) (rest : Bytes)
    → strchr delim c ≡ false
    → skip_delims delim (c ∷ rest) ≡ c ∷ rest
unfolding skip_delims
skip_delims-plain delim c rest p = rw p refl

drop-token : (t : Bytes) (d : ℕ) (rest : Bytes) → drop (length t + 1) (t ++ d ∷ rest) ≡ rest
drop-token [] d rest = refl
drop-token (c ∷ t) d rest = rw (suc-add (length t) 1) (drop-token t d rest)

module _ (allocates : ℕ → Bool) (word : ℕ) (delim : Bytes) (d : ℕ) (m : strchr delim d ≡ true) where
  abbrev pub Splits : Strings → Option (Option Strings) → Type 0
  Splits all r = (r ≡ some (some all)) ⊎ ((r ≡ some none) × (n : ℕ) × (allocates n ≡ false))

  abbrev loop : ℕ → Bool → Strings → Bytes → Option (Option Strings)
  loop n repeat array str = split_loop allocates word n delim repeat array str

  step :
      (n : ℕ) (repeat : Bool) (array : Strings) (c : ℕ) (tail : Bytes) (len : ℕ)
      → (if repeat then skip_delims delim (c ∷ tail) else c ∷ tail) ≡ c ∷ tail
      → token_len delim (c ∷ tail) ≡ len
      → (repeat && len == 0) ≡ false
      → loop (suc n) repeat array (c ∷ tail)
        ≡ elim (str_array_addn allocates word (some array) (c ∷ tail) len).0 [
          | none ↦ some none
          | some added ↦ loop n repeat added (drop (len + 1) (c ∷ tail))
        ]
  unfolding split_loop after_token
  step n repeat array c tail len s l g =
      ap
        (λ (str : Bytes).
          after_token allocates word (split_loop allocates word n delim repeat) repeat array str
            (token_len delim str))
        s
      ∙ ap
          (after_token allocates word (split_loop allocates word n delim repeat) repeat array
            (c ∷ tail))
          l
      ∙ rw g refl

  -- one token
  loop-token :
      (n : ℕ) (repeat : Bool) (array : Strings) (c : ℕ) (tail t rest : Bytes) (all : Strings)
      → c ∷ tail ≡ t ++ d ∷ rest
      → (if repeat then skip_delims delim (c ∷ tail) else c ∷ tail) ≡ c ∷ tail
      → (repeat && length t == 0) ≡ false
      → IsPlain delim t
      → Splits all (loop n repeat (array ++ t ∷ []) rest)
      → Splits all (loop (suc n) repeat array (c ∷ tail))
  loop-token n repeat array c tail t rest all e s g p ih =
      let len : token_len delim (c ∷ tail) ≡ length t =
        ap (token_len delim) e ∙ token_len-plain delim t d rest p m in
      let token : take (length t) (c ∷ tail) ≡ t =
        ap (take (length t)) e ∙ take-append t (d ∷ rest) in
      let left : drop (length t + 1) (c ∷ tail) ≡ rest =
        ap (drop (length t + 1)) e ∙ drop-token t d rest in
      let first = step n repeat array c tail (length t) s len g in
      elim (str_array_addn-Adds allocates word (some array) (c ∷ tail) (length t)) [
        | inl done ↦
            let result : (str_array_addn allocates word (some array) (c ∷ tail) (length t)).0
                ≡ some (array ++ t ∷ []) =
              done.0 ∙ ap (λ (u : Bytes). some (array ++ u ∷ [])) token in
            rw (first, result, left) ih
        | inr failed ↦ rw (first, failed.0) (inr (refl, failed.2, failed.3))
      ]

  loop-nil : (n : ℕ) (repeat : Bool) (array : Strings) → loop n repeat array [] ≡ some (some array)
  unfolding split_loop
  loop-nil zero repeat array = refl
  loop-nil (suc n) repeat array = refl

  -- a delimiter in front is skipped
  loop-delimiter :
      (n : ℕ) (array : Strings) (rest : Bytes)
      → loop (suc n) true array (d ∷ rest) ≡ loop (suc n) true array rest
  unfolding split_loop skip_delims after_token token_len
  loop-delimiter n array [] = rw (m, after_token) (loop-nil n true array)
  loop-delimiter n array (c ∷ rest) =
      ap
        (λ (str : Bytes).
          after_token allocates word (split_loop allocates word n delim true) true array str
            (token_len delim str))
        (rw m refl)

  Splits-append :
      (array : Strings) (t : Bytes) (more : Strings) (r : Option (Option Strings))
      → Splits ((array ++ t ∷ []) ++ more) r
      → Splits (array ++ t ∷ more) r
  Splits-append array t more r s =
      subst (λ (all : Strings). Splits all r) (append_assoc array (t ∷ []) more) s

  split_loop-Splits :
      (n : ℕ) (repeat : Bool) (array ts : Strings)
      → All (IsPlain delim) ts
      → length (ended d ts) ≤ n
      → Splits (array ++ pieces repeat ts) (loop n repeat array (ended d ts))
  split_loop-Splits n false array [] p l =
      inl
        (loop-nil n false array ∙ ap (λ (all : Strings). some (some all)) (sym (append-nil array)))
  split_loop-Splits n true array [] p l =
      inl (loop-nil n true array ∙ ap (λ (all : Strings). some (some all)) (sym (append-nil array)))
  split_loop-Splits zero repeat array (t ∷ ts) p l =
      absurd (omega (arith, length-append t (d ∷ ended d ts)))
  split_loop-Splits (suc n) false array ([] ∷ ts) p l =
      loop-token n false array d (ended d ts) [] (ended d ts) (array ++ [] ∷ ts) refl refl refl tt (
        Splits-append array [] ts _
          (split_loop-Splits n false (array ++ [] ∷ []) ts p.1 (omega (arith, l))))
  split_loop-Splits (suc n) false array ((c ∷ t) ∷ ts) p l =
      loop-token n false array c (t ++ d ∷ ended d ts) (c ∷ t) (ended d ts) (array ++ (c ∷ t) ∷ ts)
        refl refl refl p.0
        (Splits-append array (c ∷ t) ts _ (
          split_loop-Splits n false (array ++ (c ∷ t) ∷ []) ts p.1
            (omega (arith, l, length-append t (d ∷ ended d ts)))))
  split_loop-Splits (suc n) true array ([] ∷ ts) p l =
      rw (loop-delimiter n array (ended d ts))
        (split_loop-Splits (suc n) true array ts p.1 (omega (arith, l)))
  split_loop-Splits (suc n) true array ((c ∷ t) ∷ ts) p l =
      loop-token n true array c (t ++ d ∷ ended d ts) (c ∷ t) (ended d ts)
        (array ++ (c ∷ t) ∷ nonempty ts) refl
        (skip_delims-plain delim c (t ++ d ∷ ended d ts) p.0.0) (ground arith) p.0
        (Splits-append array (c ∷ t) (nonempty ts) _ (
          split_loop-Splits n true (array ++ (c ∷ t) ∷ []) ts p.1
            (omega (arith, l, length-append t (d ∷ ended d ts)))))

  -- `str_split` of strings that hold no delimiter, joined with a delimiter behind each, gives the
  -- strings back in as many rounds as there are bytes, or those that are not empty if `repeat` is
  -- set, unless an allocation fails, when it gives `NULL`.
  pub str_split-Splits :
      (n : ℕ) (repeat : Bool) (ts : Strings)
      → All (IsPlain delim) ts
      → length (ended d ts) ≤ n
      → Splits (pieces repeat ts) (str_split allocates word n (ended d ts) delim repeat)
  unfolding str_split str_array_new
  str_split-Splits n repeat ts p l = elim (Bool-cases (allocates word)) [
    | inl a ↦ rw (str_split, a) (split_loop-Splits n repeat [] ts p l)
    | inr a ↦ rw (str_split, a) (inr (refl, word, a))
  ]
