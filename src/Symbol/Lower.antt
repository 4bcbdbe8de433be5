-- ===== src/Symbol/Lower.antt =====
-- `symbol_from_name` makes a lower-case symbol of a D-Bus name.
use libnih.Prelude.{ℕ, Bool, not, ◌&&◌, Option, some, [], ◌∷◌, ◌==◌, if◌then◌else◌}
use libnih.CString.{Bytes}
use libnih.Symbol.{underscore, is_upper, tolower, starts_word}

-- The bytes of a symbol that are not underscores, in lower case.
abbrev pub letters : Bytes → Bytes
letters [] = []
letters (c ∷ name) = if c == underscore then letters name else tolower c ∷ letters name

-- Whether a word ends between two bytes: a capital follows what is neither one nor an underscore.
abbrev pub ends_word : ℕ → ℕ → Bool
ends_word a b = is_upper b && not (is_upper a) && not (a == underscore)

-- A name in lower case, with an underscore between its words.
abbrev pub snake : Bytes → Bytes
snake [] = []
snake (a ∷ []) = tolower a ∷ []
snake (a ∷ b ∷ name) =
    let rest = snake (b ∷ name) in tolower a ∷ (if ends_word a b then underscore ∷ rest else rest)

-- The same, of a name that is behind the byte `before`.
abbrev lowered : Option ℕ → Bytes → Bytes
lowered before [] = []
lowered before (c ∷ name) =
    let rest = tolower c ∷ lowered (some c) name in
    if starts_word before c then underscore ∷ rest else rest
