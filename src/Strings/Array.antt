-- ===== src/Strings/Array.antt =====
-- nih/string.c, the arrays of strings: an array stands without the `NULL` at its end, each string
-- as its bytes. `word` is the size of a pointer.
use libnih.Prelude.{
  ℕ, ◌+◌, ◌*◌, ◌≡◌, ◌⊎◌, inl, inr, refl, sym, ap, ◌∙◌, Bool, false, Bool-cases, Option, none, some,
  List, [], ◌∷◌, ◌++◌, append-nil, append_assoc, if◌then◌else◌, length, take, take-append,
}
use mathlib.Core.Path.{subst}
use libnih.CString.{Bytes}
use libnih.Strings.{strdup, strndup}

abbrev pub Strings : Type 0
Strings = List Bytes

abbrev pub strings_of : Option Strings → Strings
strings_of none = []
strings_of (some array) = array

module _ (allocates : ℕ → Bool) (word : ℕ) where
  unfoldable pub str_array_new : Option Strings
  str_array_new = if allocates word then some [] else none

  -- `array` is what `*array` is before, and the results are what is returned and what `*array` is
  -- afterwards. `len`, where it is given, is the length of the array.
  unfoldable pub str_array_addp : Option Strings → Bytes → Option Strings × Option Strings
  str_array_addp array str =
      let old = strings_of array in
      if allocates (word * (length old + 2))
      then (some (old ++ str ∷ []), some (old ++ str ∷ []))
      else (none, array)

  abbrev pub add_copy : Option Bytes → Option Strings → Option Strings × Option Strings
  add_copy none array = (none, array)
  add_copy (some str) array = str_array_addp array str

  unfoldable pub str_array_add : Option Strings → Bytes → Option Strings × Option Strings
  str_array_add array str = add_copy (strdup allocates str) array

  unfoldable pub str_array_addn : Option Strings → Bytes → ℕ → Option Strings × Option Strings
  str_array_addn array str len = add_copy (strndup allocates str len) array

  -- What a failure leaves: the strings added are freed, and an array that was not there too.
  abbrev pub undo : Option Strings → Option Strings → Option Strings
  undo old none = none
  undo none (some array) = none
  undo (some strings) (some array) = some (take (length strings) array)

  unfoldable pub append_loop :
      Option Strings → Strings → Option Strings → Option Strings × Option Strings
  append_loop old [] array = (array, array)
  append_loop old (arg ∷ args) array =
      let added = str_array_add array arg in
      elim added.0 [ none ↦ (none, undo old added.1) | some result ↦ append_loop old args added.1 ]

  unfoldable pub str_array_append : Option Strings → Strings → Option Strings × Option Strings
  str_array_append array args = append_loop array args array

  unfoldable pub str_array_copy : Strings → Option Strings
  str_array_copy array = elim str_array_new [
    | none ↦ none
    | some new ↦ (str_array_append (some new) array).0
  ]

  take-all : (str : Bytes) → take (length str) str ≡ str
  take-all str = ap (take (length str)) (sym (append-nil str)) ∙ take-append str []

  -- One string added, or nothing changed since an allocation failed.
  abbrev pub Adds : Option Strings → Strings → Option Strings × Option Strings → Type 0
  Adds array args r =
      ((r.0 ≡ some (strings_of array ++ args)) × (r.1 ≡ some (strings_of array ++ args)))
      ⊎ ((r.0 ≡ none) × (r.1 ≡ array) × (n : ℕ) × (allocates n ≡ false))

  pub str_array_addn-Adds :
      (array : Option Strings) (str : Bytes) (len : ℕ)
      → Adds array (take len str ∷ []) (str_array_addn array str len)
  unfolding str_array_addn str_array_addp strndup
  str_array_addn-Adds array str len = elim (Bool-cases (allocates (len + 1))) [
    | inl a ↦ rw a (elim (Bool-cases (allocates (word * (length (strings_of array) + 2)))) [
      | inl b ↦ rw b (inl (refl, refl))
      | inr b ↦ rw b (inr (refl, refl, word * (length (strings_of array) + 2), b))
    ])
    | inr a ↦ rw a (inr (refl, refl, len + 1, a))
  ]

  -- The array after strings were added to it: one that is not there stays so if there are none.
  abbrev pub grown : Option Strings → Strings → Option Strings
  grown array [] = array
  grown array (arg ∷ args) = some (strings_of array ++ arg ∷ args)

  grown-strings :
      (old : Option Strings) (added : Strings)
      → strings_of (grown old added) ≡ strings_of old ++ added
  grown-strings old [] = sym (append-nil (strings_of old))
  grown-strings old (s ∷ ss) = refl

  grown-last :
      (old : Option Strings) (added : Strings) (arg : Bytes)
      → some (strings_of (grown old added) ++ arg ∷ []) ≡ grown old (added ++ arg ∷ [])
  grown-last old [] arg = refl
  grown-last old (s ∷ ss) arg = ap some (append_assoc (strings_of old) (s ∷ ss) (arg ∷ []))

  undo-grown : (old : Option Strings) (added : Strings) → undo old (grown old added) ≡ old
  undo-grown none [] = refl
  undo-grown none (s ∷ ss) = refl
  undo-grown (some strings) [] =
      ap some (ap (take (length strings)) (sym (append-nil strings)) ∙ take-append strings [])
  undo-grown (some strings) (s ∷ ss) = ap some (take-append strings (s ∷ ss))

  -- All the strings added, or, since an allocation failed, none.
  abbrev pub AllOrNone : Option Strings → Strings → Option Strings × Option Strings → Type 0
  AllOrNone array args r =
      (r ≡ (grown array args, grown array args))
      ⊎ ((r.0 ≡ none) × (r.1 ≡ array) × (n : ℕ) × (allocates n ≡ false))

  add-Adds :
      (array : Option Strings) (str : Bytes) → Adds array (str ∷ []) (str_array_add array str)
  unfolding str_array_add str_array_addn strdup
  add-Adds array str =
      subst (λ s. Adds array (s ∷ []) (str_array_add array str)) (take-all str)
        (str_array_addn-Adds array str (length str))

  loop-added :
      (old array : Option Strings) (arg : Bytes) (args : Strings) {result : Strings}
      → (str_array_add array arg).0 ≡ some result
      → append_loop old (arg ∷ args) array ≡ append_loop old args (str_array_add array arg).1
  unfolding append_loop
  loop-added old array arg args e = rw (append_loop, e) refl

  loop-failed :
      (old array : Option Strings) (arg : Bytes) (args : Strings)
      → (str_array_add array arg).0 ≡ none
      → append_loop old (arg ∷ args) array ≡ (none, undo old (str_array_add array arg).1)
  unfolding append_loop
  loop-failed old array arg args e = rw (append_loop, e) refl

  append_loop-AllOrNone :
      (old : Option Strings) (added args : Strings)
      → AllOrNone old (added ++ args) (append_loop old args (grown old added))
  unfolding append_loop
  append_loop-AllOrNone old added [] = inl (rw (append-nil added) refl)
  append_loop-AllOrNone old added (arg ∷ args) = elim (add-Adds (grown old added) arg) [
    | inl done ↦
        let same : (str_array_add (grown old added) arg).1 ≡ grown old (added ++ arg ∷ []) =
          done.1 ∙ grown-last old added arg in
        let loop : append_loop old (arg ∷ args) (grown old added)
            ≡ append_loop old args (grown old (added ++ arg ∷ [])) =
          loop-added old (grown old added) arg args done.0 ∙ ap (append_loop old args) same in
        let rest = append_loop-AllOrNone old (added ++ arg ∷ []) args in
        rw loop (
          subst
            (λ (all : Strings).
              AllOrNone old all (append_loop old args (grown old (added ++ arg ∷ []))))
            (append_assoc added (arg ∷ []) args) rest)
    | inr failed ↦
        let back : undo old (str_array_add (grown old added) arg).1 ≡ old =
          ap (undo old) failed.1 ∙ undo-grown old added in
        let loop = loop-failed old (grown old added) arg args failed.0 in
        inr (
          ap (λ (r : Option Strings × Option Strings). r.0) loop,
          ap (λ (r : Option Strings × Option Strings). r.1) loop ∙ back,
          failed.2,
          failed.3,
        )
  ]

  -- `str_array_append` returns the array with all the strings added, or, if an allocation failed,
  -- `NULL` with the array as it was. With no strings and an array that is `NULL` the result is
  -- `NULL`, even if no allocation fails.
  pub str_array_append-AllOrNone :
      (array : Option Strings) (args : Strings) → AllOrNone array args (str_array_append array args)
  unfolding str_array_append
  str_array_append-AllOrNone array args = append_loop-AllOrNone array [] args
