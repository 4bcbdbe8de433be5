-- ===== src/Config/Scan/Marker.antt =====
-- `nih_config_block_end`: the marker "end TYPE" that closes a block.
use libnih.Prelude.{
  ℕ, ◌+◌, ◌-◌, ◌≤◌, ◌≡◌, ap, refl, true, not, ◌&&◌, ◌||◌, [], ◌∷◌, Option, none, some, ◌==◌, ltb,
  if◌then◌else◌, length, drop, arith, >>=-eq-some, if_rule,
}
use libnih.CString.{Bytes, starts_with, byte_at, count, count-take-add, starts_with-take}
use libnih.Config.Result.{Cursor}
use libnih.Config.Tracks.{Tracks, Tracks-trans, Tracks-refl, lines}
use libnih.Config.Scan.{skip, is_ws, in_line, end_word, type_word, line_tail, block_end}
use libnih.Config.Scan.Lines.{skip-le, skip-Tracks, ws-ne-newline, past_newline-Tracks}

-- From `p` to `q` there is no line end, and `q` is within the file.
record Within (file : Bytes) (p q : ℕ) : Type 0 where
  forwards : p ≤ q
  inside : q ≤ length file
  same_line : lines file p ≡ lines file q

module _ (file : Bytes) (p : ℕ) (here : p ≤ length file) where
  skip_ws-Within : Within file p (skip is_ws file p)
  skip_ws-Within =
      let t = skip-Tracks is_ws ws-ne-newline file (record { pos = p; lineno = 0 }) in
      record { forwards = t.forwards; inside = skip-le is_ws file p here; same_line = omega arith }

  word-Within :
      (word : Bytes)
      → count b'\n' word ≡ 0
      → starts_with (drop p file) word ≡ true
      → p + length word ≤ length file
      → Within file p (p + length word)
  word-Within word h e room =
      let read = ap (count b'\n') (starts_with-take (drop p file) word e) in
      record {
        forwards = omega arith;
        inside = room;
        same_line = omega (arith, count-take-add b'\n' p (length word) file);
      }

Within-trans : (file : Bytes) (p q r : ℕ) → Within file p q → Within file q r → Within file p r
Within-trans file p q r h k = omega arith

abbrev end_bytes : Bytes
end_bytes = b'e' ∷ b'n' ∷ b'd' ∷ []

-- what a stage that returns a position promises
abbrev Lands : Bytes → ℕ → Option ℕ → Type 0
Lands file p none = Unit
Lands file p (some q) = Within file p q

module _ (file : Bytes) (p : ℕ) (here : p ≤ length file) where
  end_word-Lands : Lands file p (end_word file p)
  unfolding end_word
  end_word-Lands =
      let q = skip is_ws file p in
      let blanks = skip_ws-Within file p here in
      if_rule (Lands file p) (ltb (length file - q) 4 || not (starts_with (drop q file) end_bytes))
        (λ _. tt)
        λ e.
          if_rule (Lands file p)
            (not (byte_at file (q + 3) == 0) && not (is_ws (byte_at file (q + 3)))) (λ _. tt)
            λ _.
              let word =
                word-Within file q blanks.inside end_bytes refl (ground arith) (ground arith) in
              Within-trans file p q _ blanks
                (Within-trans file q (q + 3) _ word (skip_ws-Within file (q + 3) word.inside))

  type_word-Lands : (type : Bytes) → count b'\n' type ≡ 0 → Lands file p (type_word file type p)
  unfolding type_word
  type_word-Lands type h =
      if_rule (Lands file p)
        (ltb (length file - p) (length type) || not (starts_with (drop p file) type)) (λ _. tt)
        λ e.
          let word = word-Within file p here type h (ground arith) (ground arith) in
          Within-trans file p _ _ word (skip_ws-Within file _ word.inside)

abbrev LandsAt : Bytes → Cursor → Option Cursor → Type 0
LandsAt file c none = Unit
LandsAt file c (some d) = Tracks file c d

module _ (file : Bytes) (c : Cursor) where
  line_tail-LandsAt : LandsAt file c (line_tail file c)
  unfolding line_tail
  line_tail-LandsAt =
      let comment = ltb c.pos (length file) && byte_at file c.pos == b'#' in
      let q = if comment then skip in_line file c.pos else c.pos in
      let tail : Tracks file c (record c { pos = q }) =
        if_rule (λ p. Tracks file c (record c { pos = p })) comment
          (λ _. skip-Tracks in_line (λ b h. ground arith) file c) (λ _. Tracks-refl file c) in
      if_rule (LandsAt file c) (ltb q (length file) && not (byte_at file q == b'\n')) (λ _. tt)
        λ e.
          Tracks-trans file c (record c { pos = q }) _ tail
            (past_newline-Tracks file (record c { pos = q }) λ h. ground arith)

module _ (file : Bytes) (c : Cursor) where
  -- When `nih_config_block_end` finds the marker, it reports the place where the marker's line
  -- starts as the end of the block, and its cursor counts the line ends up to the new place.
  pub block_end-Tracks :
      (type : Bytes) {endpos : ℕ} {d : Cursor}
      → c.pos ≤ length file
      → count b'\n' type ≡ 0
      → block_end file c type ≡ some (endpos, d)
      → (endpos ≡ c.pos) × Tracks file c d
  unfolding block_end
  block_end-Tracks type here h e =
      let (p, found, e₁) = >>=-eq-some (end_word file c.pos) _ e in
      let (q, typed, e₂) = >>=-eq-some (type_word file type p) _ e₁ in
      let at : Cursor = record c { pos = q } in
      let (d, tailed, e₃) = >>=-eq-some (line_tail file at) _ e₂ in
      let first : Within file c.pos p = rw found at (end_word-Lands file c.pos here) in
      let second : Within file p q = rw typed at (type_word-Lands file p first.inside type h) in
      let third : Tracks file at d = rw tailed at (line_tail-LandsAt file at) in
      let start : Tracks file c at = record { forwards = omega arith; counts = omega arith } in
      ground (arith, Tracks-trans file c at d start third)
