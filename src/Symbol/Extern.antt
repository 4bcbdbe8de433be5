-- ===== src/Symbol/Extern.antt =====
-- The function names of `symbol_extern` and `symbol_impl`.
use libnih.Prelude.{
  ℕ, ◌+◌, ◌≡◌, inl, inr, refl, sym, ap, ◌∙◌, arith, Bool, Option, none, some, [], ◌∷◌, ◌++◌, ◌==◌,
  if◌then◌else◌, length, take, append_assoc, ◌>>=◌, Bool-cases,
}
use libnih.CString.{Bytes}
use libnih.Strings.{vsprintf, sprintf, strncat, strcat, strcat_vsprintf, strcat_sprintf}
use libnih.Symbol.{
  underscore, symbol_extern, symbol_impl, symbol_strcat_interface, dots_loop, add_part,
}
use mathlib.Core.Path.{subst⁻¹}
use libnih.Symbol.Gives.{Gives, Gives-if, Gives-bind}

dots_loop-append :
    (xs : Bytes) → dots_loop (xs ++ underscore ∷ []) ≡ dots_loop xs ++ underscore ∷ []
unfolding dots_loop
dots_loop-append [] = ground arith
dots_loop-append (x ∷ xs) = ap (◌∷◌ (if x == 46 then underscore else x)) (dots_loop-append xs)

take-length : (xs : Bytes) → take (length xs) xs ≡ xs
take-length [] = refl
take-length (x ∷ xs) = ap (◌∷◌ x) (take-length xs)

-- What the optional parts add to a name.
abbrev pub joined : Option Bytes → Bytes → Bytes
joined none str = str
joined (some part) str = str ++ (part ++ underscore ∷ [])

abbrev pub ending : Option Bytes → Bytes → Bytes
ending none str = str
ending (some part) str = str ++ underscore ∷ part

-- `prefix_interface_midfix_symbol_postfix`
abbrev pub extern_name : Bytes → Option Bytes → Option Bytes → Bytes → Option Bytes → Bytes
extern_name prefix interface_symbol midfix symbol postfix =
    ending postfix (joined midfix (joined interface_symbol (prefix ++ underscore ∷ [])) ++ symbol)

module _ (allocates : ℕ → Bool) where
  append-Gives :
      (str text : Bytes)
      → Gives allocates (strcat_sprintf allocates (some str) text).0 (str ++ text)
  unfolding strcat_sprintf strcat_vsprintf
  append-Gives str text =
      let n = length str + length text + 1 in
      elim (Bool-cases (allocates n)) [ inl e ↦ inl (rw e refl) | inr e ↦ inr (rw e refl, (n, e)) ]

  strcat-Gives :
      (str text : Bytes) → Gives allocates (strcat allocates (some str) text).0 (str ++ text)
  unfolding strcat strncat
  strcat-Gives str text =
      let n = length str + length text + 1 in
      elim (Bool-cases (allocates n)) [
        | inl e ↦ inl (rw e (ap (λ xs. some (str ++ xs)) (take-length text)))
        | inr e ↦ inr (rw e refl, (n, e))
      ]

  sprintf-Gives : (text : Bytes) → Gives allocates (sprintf allocates text) text
  unfolding sprintf vsprintf
  sprintf-Gives text = Gives-if allocates (length text + 1) text

  ending-Gives :
      (postfix : Option Bytes) (str : Bytes)
      → Gives allocates
          (elim postfix [
            | some p ↦ (strcat_sprintf allocates (some str) (underscore ∷ p)).0
            | none ↦ some str
          ])
          (ending postfix str)
  ending-Gives none str = inl refl
  ending-Gives (some p) str = append-Gives str (underscore ∷ p)

  add_part-Gives :
      (part : Option Bytes) (str : Bytes)
      → Gives allocates (add_part allocates part str) (joined part str)
  add_part-Gives none str = inl refl
  add_part-Gives (some part) str = append-Gives str (part ++ underscore ∷ [])

  -- `symbol_extern` returns the prefix, the interface, the middle part, the symbol and the postfix,
  -- those that are given, with underscores between them; it returns `NULL` only when an allocation
  -- fails.
  pub symbol_extern-Gives :
      (prefix : Bytes) (interface_symbol midfix : Option Bytes) (symbol : Bytes)
      (postfix : Option Bytes)
      → Gives allocates
          (symbol_extern allocates prefix interface_symbol midfix symbol postfix)
          (extern_name prefix interface_symbol midfix symbol postfix)
  unfolding symbol_extern
  symbol_extern-Gives prefix interface_symbol midfix symbol postfix =
      let start = prefix ++ underscore ∷ [] in
      let front = joined interface_symbol start in
      let middle = joined midfix front in
      Gives-bind allocates
        (sprintf allocates start
          >>= add_part allocates interface_symbol
          >>= add_part allocates midfix)
        _ middle (ending postfix (middle ++ symbol))
        (Gives-bind allocates (sprintf allocates start >>= add_part allocates interface_symbol) _
          front middle
          (Gives-bind allocates (sprintf allocates start) _ start front (sprintf-Gives start)
            (add_part-Gives interface_symbol start))
          (add_part-Gives midfix front))
        (Gives-bind allocates (strcat allocates (some middle) symbol).0 _ (middle ++ symbol)
          (ending postfix (middle ++ symbol)) (strcat-Gives middle symbol)
          (ending-Gives postfix (middle ++ symbol)))

  interface-Gives :
      (str text : Bytes)
      → Gives allocates (symbol_strcat_interface allocates str text) (str ++ dots_loop text)
  unfolding symbol_strcat_interface vsprintf
  interface-Gives str text =
      Gives-bind allocates (vsprintf allocates text) _ text (str ++ dots_loop text)
        (Gives-if allocates (length text + 1) text)
        (Gives-if allocates (length str + length text + 1) (str ++ dots_loop text))

  -- `symbol_impl` returns the prefix, the interface name with underscores for its dots, the name
  -- and the postfix, those that are given, with underscores between them; it returns `NULL` only
  -- when an allocation fails.
  pub symbol_impl-Gives :
      (prefix interface_name : Bytes) (name postfix : Option Bytes)
      → Gives allocates
          (symbol_impl allocates prefix interface_name name postfix)
          (ending postfix (ending name (prefix ++ underscore ∷ dots_loop interface_name)))
  unfolding symbol_impl
  symbol_impl-Gives prefix interface_name none postfix =
      let start = prefix ++ underscore ∷ [] in
      let front = start ++ dots_loop interface_name in
      rw (sym (append_assoc prefix (underscore ∷ []) (dots_loop interface_name))) (
        Gives-bind allocates (sprintf allocates start) _ start (ending postfix front)
          (sprintf-Gives start)
          (Gives-bind allocates (symbol_strcat_interface allocates start interface_name) _ front
            (ending postfix front) (interface-Gives start interface_name)
            (ending-Gives postfix front)))
  symbol_impl-Gives prefix interface_name (some name) postfix =
      let start = prefix ++ underscore ∷ [] in
      let long = interface_name ++ underscore ∷ [] in
      let front = start ++ dots_loop long in
      let shape : ending (some name) (prefix ++ underscore ∷ dots_loop interface_name)
          ≡ front ++ name =
        sym (
          ap (λ xs. start ++ xs ++ name) (dots_loop-append interface_name)
          ∙ ap (λ xs. xs ++ name)
              (append_assoc prefix (underscore ∷ []) (dots_loop interface_name ++ underscore ∷ [])
                ∙ sym
                    (append_assoc prefix (underscore ∷ dots_loop interface_name) (underscore ∷ [])))
          ∙ append_assoc (prefix ++ underscore ∷ dots_loop interface_name) (underscore ∷ [])
              name) in
      subst⁻¹
        (λ x.
          Gives allocates (symbol_impl allocates prefix interface_name (some name) postfix)
            (ending postfix x))
        shape
        (Gives-bind allocates (sprintf allocates start) _ start (ending postfix (front ++ name))
          (sprintf-Gives start)
          (Gives-bind allocates (symbol_strcat_interface allocates start long) _ front
            (ending postfix (front ++ name)) (interface-Gives start long)
            (Gives-bind allocates (strcat allocates (some front) name).0 _ (front ++ name)
              (ending postfix (front ++ name)) (strcat-Gives front name)
              (ending-Gives postfix (front ++ name)))))
