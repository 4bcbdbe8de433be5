-- ===== src/BusPath/Written.antt =====
-- What the second pass writes, and that it stays inside the memory that the first pass sized.
use libnih.Prelude.{
  ℕ, ◌+◌, ◌/◌, ◌%◌, ◌≡◌, ◌<◌, refl, sym, ap, ◌∙◌, arith, true, false, some, List, [], ◌∷◌, ◌++◌,
  if◌then◌else◌, ◌>>=◌, length, All, append-nil, Bool-cases, inl, inr, append_assoc,
}
use libnih.CString.{Bytes, copy_in}
use libnih.BusPath.{plain, element_len, hex_digit, printed, escape_loop}
use libnih.BusPath.Memory.{At, Writes, copy_in-At, recast, step_back, then_some}

-- The text of an element, and that of all of them.
abbrev pub escaped : Bytes → Bytes
escaped [] = []
escaped (c ∷ arg) =
    if plain c then c ∷ escaped arg else 95 ∷ hex_digit (c / 16) ∷ hex_digit (c % 16) ∷ escaped arg

abbrev pub element : Bytes → Bytes
element [] = 95 ∷ []
element (c ∷ arg) = escaped (c ∷ arg)

abbrev pub elements : List Bytes → Bytes
elements [] = []
elements (arg ∷ args) = 47 ∷ element arg ++ elements args

-- bytes that are not negative as a `char`
abbrev pub Ascii : Bytes → Type 0
Ascii = All (λ c. c < 128)

length-escaped : (arg : Bytes) → length (escaped arg) ≡ element_len arg
unfolding element_len
length-escaped [] = refl
length-escaped (c ∷ arg) = ground (arith, length-escaped arg)

abbrev pub hex_pair : ℕ → Bytes
hex_pair c = hex_digit (c / 16) ∷ hex_digit (c % 16) ∷ []

pub escape_loop-nil : (path : Bytes) (len : ℕ) → escape_loop [] path len ≡ some (path, len)
unfolding escape_loop
escape_loop-nil path len = refl

element_len-nil : element_len [] ≡ 0
unfolding element_len
element_len-nil = refl

module _ (c : ℕ) (arg : Bytes) where
  pub escaped-plain : plain c ≡ true → escaped (c ∷ arg) ≡ c ∷ escaped arg
  escaped-plain e = rw e refl

  pub escaped-hex : plain c ≡ false → escaped (c ∷ arg) ≡ 95 ∷ hex_pair c ++ escaped arg
  escaped-hex e = rw e refl

  element_len-plain : plain c ≡ true → element_len (c ∷ arg) ≡ 1 + element_len arg
  unfolding element_len
  element_len-plain e = rw e refl

  element_len-hex : plain c ≡ false → element_len (c ∷ arg) ≡ 3 + element_len arg
  unfolding element_len
  element_len-hex e = rw e refl

  pub escape_loop-plain :
      (path : Bytes) (len : ℕ)
      → plain c ≡ true
      → escape_loop (c ∷ arg) path len
        ≡ (copy_in len (c ∷ []) path >>= λ path. escape_loop arg path (len + 1))
  unfolding escape_loop
  escape_loop-plain path len e = rw e refl

  pub escape_loop-hex :
      (path : Bytes) (len : ℕ)
      → plain c ≡ false
      → escape_loop (c ∷ arg) path len ≡ (
          copy_in len (95 ∷ []) path >>= λ path.
          copy_in (len + 1) (printed c ++ 0 ∷ []) path >>= λ path.
          escape_loop arg path (len + 1 + 2))
  unfolding escape_loop
  escape_loop-hex path len e = rw e refl

printed-ascii : (c : ℕ) → c < 128 → printed c ≡ hex_pair c
printed-ascii c l = ground (arith, l)

pub escape_loop-Writes :
    (arg front path : Bytes) (room len : ℕ)
    → Ascii arg
    → At front (element_len arg + (1 + room)) path len
    → Writes front (escaped arg) (1 + room) (escape_loop arg path len)
escape_loop-Writes [] front path room len a at = (
  (path, len),
  escape_loop-nil path len,
  recast (sym (append-nil front)) (omega (arith, element_len-nil)) refl at,
)
escape_loop-Writes (c ∷ arg) front path room len a at = elim (Bool-cases (plain c)) [
  | inl e ↦
      let size = element_len-plain c arg e in
      let one =
        copy_in-At front (c ∷ []) (element_len arg + (1 + room)) path len
          (recast refl (omega (arith, size)) refl at) in
      let more = escape_loop-Writes arg (front ++ c ∷ []) one.0 room (len + 1) a.1 one.2 in
      (
        more.0,
        escape_loop-plain c arg path len e
            ∙ then_some (λ path. escape_loop arg path (len + 1)) one.1 more.1,
        recast
            (append_assoc front (c ∷ []) (escaped arg)
              ∙ ap (◌++◌ front) (sym (escaped-plain c arg e)))
            refl refl more.2,
      )
  | inr e ↦
      let size = element_len-hex c arg e in
      let one =
        copy_in-At front (95 ∷ []) (2 + element_len arg + (1 + room)) path len
          (recast refl (omega (arith, size)) refl at) in
      let two =
        copy_in-At (front ++ 95 ∷ []) (hex_pair c ++ 0 ∷ []) (element_len arg + room) one.0
          (len + 1) (recast refl (omega arith) refl one.2) in
      let back =
        step_back (front ++ 95 ∷ []) (hex_pair c) 0 (element_len arg + room) (len + 1) two.0
          two.2 in
      let more =
        escape_loop-Writes arg (front ++ 95 ∷ [] ++ hex_pair c) two.0 room (len + 1 + 2) a.1
          (recast refl (omega arith) refl back) in
      (
        more.0,
        escape_loop-hex c arg path len e
            ∙ then_some
                (λ path. copy_in (len + 1) (printed c ++ 0 ∷ []) path >>= λ path.
                  escape_loop arg path (len + 1 + 2))
                one.1
                (then_some (λ path. escape_loop arg path (len + 1 + 2))
                  (ap (λ xs. copy_in (len + 1) (xs ++ 0 ∷ []) one.0) (printed-ascii c a.0) ∙ two.1)
                  more.1),
        recast
            (append_assoc (front ++ 95 ∷ []) (hex_pair c) (escaped arg)
              ∙ append_assoc front (95 ∷ []) (hex_pair c ++ escaped arg)
              ∙ ap (◌++◌ front) (sym (escaped-hex c arg e)))
            refl refl more.2,
      )
]
