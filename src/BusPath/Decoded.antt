-- ===== src/BusPath/Decoded.antt =====
-- The elements of a path can be read back.
use libnih.Prelude.{
  ℕ, ◌+◌, ◌-◌, ◌*◌, ◌/◌, ◌%◌, ◌≡◌, ◌<◌, refl, ap, ◌∙◌, arith, true, false, some, List, [], ◌∷◌,
  ◌++◌, ◌==◌, ltb, if◌then◌else◌, if_rule, All, append-nil, Bool-cases, inl, inr,
}
use libnih.CString.{Bytes}
use libnih.BusPath.{plain, hex_digit, dbus_path}
use libnih.BusPath.Written.{escaped, element, elements, Ascii, escaped-plain, escaped-hex}
use libnih.BusPath.Whole.{dbus_path_lem}

abbrev pub unhex : ℕ → ℕ
unhex d = if ltb d 58 then d - 48 else d - 87

-- An underscore stands for the byte of the two digits behind it, or for nothing at the end.
abbrev pub unescape : Bytes → Bytes
unescape [] = []
unescape (c ∷ []) = if c == 95 then [] else c ∷ []
unescape (c ∷ h ∷ []) = let rest = unescape (h ∷ []) in if c == 95 then [] else c ∷ rest
unescape (c ∷ h ∷ l ∷ text) =
    let rest = unescape text in
    let others = unescape (h ∷ l ∷ text) in
    if c == 95 then (unhex h * 16 + unhex l) ∷ rest else c ∷ others

-- What stands before the first slash, and the pieces behind each slash.
abbrev pub pieces : Bytes → Bytes × List Bytes
pieces [] = ([], [])
pieces (c ∷ text) =
    let rest = pieces text in if c == 47 then ([], rest.0 ∷ rest.1) else (c ∷ rest.0, rest.1)

abbrev pub each : (Bytes → Bytes) → List Bytes → List Bytes
each f [] = []
each f (x ∷ xs) = f x ∷ each f xs

unescape-other :
    (c : ℕ) (text : Bytes) → (c == 95) ≡ false → unescape (c ∷ text) ≡ c ∷ unescape text
unescape-other c [] e = rw e refl
unescape-other c (h ∷ []) e = rw e refl
unescape-other c (h ∷ l ∷ text) e = rw e refl

unhex-hex_digit : (d : ℕ) → d < 16 → unhex (hex_digit d) ≡ d
unhex-hex_digit d l = ground (arith, l)

unescape-hex :
    (c : ℕ) (text : Bytes)
    → c < 128
    → unescape (95 ∷ hex_digit (c / 16) ∷ hex_digit (c % 16) ∷ text) ≡ c ∷ unescape text
unescape-hex c text l =
    ap (λ d. d ∷ unescape text)
      (omega (
        arith,
        unhex-hex_digit (c / 16) (omega (arith, l)),
        unhex-hex_digit (c % 16) (omega arith),
      ))

unescape-escaped : (arg : Bytes) → Ascii arg → unescape (escaped arg) ≡ arg
unescape-escaped [] a = refl
unescape-escaped (c ∷ arg) a =
    let rest = ap (◌∷◌ c) (unescape-escaped arg a.1) in
    elim (Bool-cases (plain c)) [
      | inl e ↦
          ap unescape (escaped-plain c arg e)
          ∙ unescape-other c (escaped arg) (ground (arith, e))
          ∙ rest
      | inr e ↦ ap unescape (escaped-hex c arg e) ∙ unescape-hex c (escaped arg) a.0 ∙ rest
    ]

unescape-element : (arg : Bytes) → Ascii arg → unescape (element arg) ≡ arg
unescape-element [] a = refl
unescape-element (c ∷ arg) a = unescape-escaped (c ∷ arg) a

abbrev NoSlash : Bytes → Type 0
NoSlash = All (λ c. (c == 47) ≡ false)

escaped-NoSlash : (arg : Bytes) → NoSlash (escaped arg)
escaped-NoSlash [] = tt
escaped-NoSlash (c ∷ arg) =
    if_rule NoSlash (plain c) (λ e. (ground (arith, e), escaped-NoSlash arg))
      (λ e. (ground arith, (ground arith, (ground arith, escaped-NoSlash arg))))

element-NoSlash : (arg : Bytes) → NoSlash (element arg)
element-NoSlash [] = (ground arith, tt)
element-NoSlash (c ∷ arg) = escaped-NoSlash (c ∷ arg)

pieces-append :
    (xs ys : Bytes) → NoSlash xs → pieces (xs ++ ys) ≡ (xs ++ (pieces ys).0, (pieces ys).1)
pieces-append [] ys a = refl
pieces-append (x ∷ xs) ys a = rw a.0 (ap (λ r. (x ∷ r.0, r.1)) (pieces-append xs ys a.1))

pieces-elements : (args : List Bytes) → pieces (elements args) ≡ ([], each element args)
pieces-elements [] = refl
pieces-elements (arg ∷ args) =
    ap (λ r. ([], r.0 ∷ r.1))
      (pieces-append (element arg) (elements args) (element-NoSlash arg)
        ∙ ap (λ r. (element arg ++ r.0, r.1)) (pieces-elements args)
        ∙ ap (λ xs. (xs, each element args)) (append-nil (element arg)))

each-element : (args : List Bytes) → All Ascii args → each unescape (each element args) ≡ args
each-element [] a = refl
each-element (arg ∷ args) a =
    ap (λ x. x ∷ each unescape (each element args)) (unescape-element arg a.0)
    ∙ ap (◌∷◌ arg) (each-element args a.1)

-- For elements whose bytes are all below 128, and memory for the path, `nih_dbus_path` returns the
-- root followed by a text whose pieces behind each slash are the elements again, once an underscore
-- in them is read as the byte of the two digits behind it: different elements make different paths.
pub dbus_path-decoded :
    (junk : ℕ) (root : Bytes) (args : List Bytes)
    → All Ascii args
    → (text : Bytes) × (dbus_path true junk root args ≡ some (some (root ++ text ++ 0 ∷ [])))
      × (each unescape (pieces text).1 ≡ args)
dbus_path-decoded junk root args a = (
  elements args,
  dbus_path_lem true junk root args a,
  ap (λ r. each unescape r.1) (pieces-elements args) ∙ each-element args a,
)
