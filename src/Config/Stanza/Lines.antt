-- ===== src/Config/Stanza/Lines.antt =====
-- `nih_config_parse_file` returns on every file, with the handlers' behaviour as a hypothesis.
use libnih.Prelude.{
  ℕ, zero, suc, ◌-◌, ◌≡◌, ◌≢◌, ◌≤◌, ◌<◌, ◌⊎◌, inl, inr, false, not, List, [], ◌∷◌, Option, none,
  some, ◌==◌, ltb, length, All, if_rule, arith, refl,
}
use native.Mathlib.Decide.{dec_lt}
use libnih.CString.{Bytes, streq, strchr}
use libnih.Config.Result.{
  Error-discrete, Cursor, unknown_stanza, system_error, Result, ok, err, Parsed,
}
use libnih.Config.Tracks.{Tracks, Tracks-trans, Tracks-refl}
use libnih.Config.Token.{config_cnlws}
use libnih.Config.Scan.{has_token, skip, is_ws, skip_comment, next_line}
use libnih.Config.Scan.Lines.{skip-Tracks, ws-ne-newline, skip-le, next_line-Tracks}
use libnih.Config.Args.{Alloc, next_token}
use libnih.Config.Args.Lines.{next_token-Follows}
use libnih.Config.Args.Total.{next_token-lt, next_token-inside}
use libnih.Config.Block.Lines.{next_line-inside, next_line-lt}
use libnih.Config.Stanza.{
  Stanza, get_stanza_loop, get_stanza, dispatch, named, parse_stanza, after_stanza, parse_file_loop,
  parse_file,
}

no_token-skip_comment :
    (file : Bytes) (c : Cursor)
    → has_token file c ≡ false
    → skip_comment file c ≡ (next_line file c, ok tt)
unfolding skip_comment
no_token-skip_comment file c e = rw e

-- What is promised of a place reached: a success stands behind the line ends that it has counted
-- and in the file, and an error does too, but for the two that leave `*pos` behind.
abbrev pub Outcome : Bytes → Cursor → Parsed (Unit {0}) → Type 0
Outcome file c (d, ok _) = Tracks file c d × (d.pos ≤ length file)
Outcome file c (d, err e) = (e ≡ system_error) ⊎ (e ≡ unknown_stanza) ⊎ Tracks file c d

-- the outcome, and that a success has moved on
abbrev Moves : Bytes → Cursor → Parsed (Unit {0}) → Type 0
Moves file c (d, ok _) = Tracks file c d × (d.pos ≤ length file) × (c.pos < d.pos)
Moves file c (d, err e) = (e ≡ system_error) ⊎ (e ≡ unknown_stanza) ⊎ Tracks file c d

-- The outcome of the whole file: a success is the end of the file. `none` is no outcome.
abbrev pub Finishes : {D : Type 0} → Bytes → Cursor → Option (D × Parsed (Unit {0})) → Type 0
Finishes file c none = ⊥
Finishes file c (some (d, (e, ok _))) = Tracks file c e × (e.pos ≡ length file)
Finishes file c (some (d, (e, err x))) = (x ≡ system_error) ⊎ (x ≡ unknown_stanza) ⊎ Tracks file c e

-- A handler that keeps the promise, from wherever in the file it is called.
abbrev pub Honest : {D : Type 0} → Bytes → Stanza D → Type 0
Honest {D} file s =
    (d : D) (c : Cursor) → c.pos ≤ length file → Outcome file c (s.handler d file c).1

module _ {D : Type 0} (file : Bytes) where
  abbrev Found : Option (Stanza D) → Type 0
  Found none = Unit
  Found (some s) = Honest file s

  get_stanza_loop-Found :
      (name : Bytes) (stanzas : List (Stanza D)) (catch : Option (Stanza D))
      → All (Honest file) stanzas
      → Found catch
      → Found (get_stanza_loop name stanzas catch)
  unfolding get_stanza_loop
  get_stanza_loop-Found name [] catch h k = k
  get_stanza_loop-Found name (s ∷ ss) catch h k =
      if_rule Found (streq s.name name) (λ _. h.0)
        λ _.
          get_stanza_loop-Found name ss _ h.1
            (if_rule Found (length s.name == 0) (λ _. h.0) (λ _. k))

module _ {D : Type 0} (alloc : Alloc) (stanzas : List (Stanza D)) (file : Bytes)
    (honest : All (Honest file) stanzas) where
  Outcome-Moves :
      (c here : Cursor) (r : Parsed (Unit {0}))
      → Tracks file c here
      → c.pos < here.pos
      → Outcome file here r
      → Moves file c r
  Outcome-Moves c here (d, ok _) h lt o = (Tracks-trans file c here d h o.0, o.1, omega arith)
  Outcome-Moves c here (d, err e) h lt (inl x) = inl x
  Outcome-Moves c here (d, err e) h lt (inr (inl x)) = inr (inl x)
  Outcome-Moves c here (d, err e) h lt (inr (inr k)) = inr (inr (Tracks-trans file c here d h k))

  dispatch-Moves :
      (c here : Cursor) (d : D) (s : Option (Stanza D))
      → Found file s
      → Tracks file c here
      → c.pos < here.pos
      → here.pos ≤ length file
      → Moves file c (dispatch alloc stanzas file c here d s).1
  dispatch-Moves c here d none f h lt le = inr (inl refl)
  dispatch-Moves c here d (some s) f h lt le = Outcome-Moves c here _ h lt (f d here le)

  named-Moves :
      (c here : Cursor) (d : D) (name : Result Bytes)
      → (name ≢ err system_error → Tracks file c here)
      → ((n : Bytes) → name ≡ ok n → c.pos < here.pos)
      → here.pos ≤ length file
      → Moves file c (named alloc stanzas file c here d name).1
  unfolding get_stanza
  named-Moves c here d (err e) h lt le = elim (Error-discrete e system_error) [
    | yes p ↦ inl p
    | no other ↦ inr (inr (h λ p. other (ground arith)))
  ]
  named-Moves c here d (ok n) h lt le =
      dispatch-Moves c here d (get_stanza n stanzas)
        (get_stanza_loop-Found file n stanzas none honest tt) (h (λ p. cc)) (lt n refl) le

  parse_stanza-Moves :
      (c : Cursor) (d : D)
      → c.pos ≤ length file
      → Moves file c (parse_stanza alloc stanzas file c d).1
  unfolding parse_stanza strchr
  parse_stanza-Moves c d h =
      let (here, name) = next_token alloc file c config_cnlws false in
      named-Moves c here d name (next_token-Follows alloc file c config_cnlws refl false)
        (λ n e. next_token-lt alloc file c config_cnlws false e)
        (next_token-inside alloc file c config_cnlws false h)

  module _ (start : Cursor) (rest : Cursor → D → Option (D × Parsed (Unit {0}))) where
    after_stanza-Finishes :
        (c : Cursor)
        → Tracks file start c
        → (r : D × Parsed (Unit {0})) → Moves file c r.1
        → ((e : Cursor) (d : D)
            → Tracks file start e
            → e.pos ≤ length file
            → c.pos < e.pos
            → Finishes file start (rest e d))
        → Finishes file start (after_stanza alloc stanzas r rest)
    after_stanza-Finishes c h (d, (e, ok _)) (k, le, lt) ih =
        ih e d (Tracks-trans file start c e h k) le lt
    after_stanza-Finishes c h (d, (e, err x)) (inl s) ih = inl s
    after_stanza-Finishes c h (d, (e, err x)) (inr (inl u)) ih = inr (inl u)
    after_stanza-Finishes c h (d, (e, err x)) (inr (inr k)) ih =
        inr (inr (Tracks-trans file start c e h k))

  comment-lt :
      (c : Cursor)
      → c.pos ≤ length file
      → c.pos < length file
      → c.pos < (next_line file (record c { pos = skip is_ws file c.pos })).pos
  comment-lt c le lt =
      let here : Cursor = record c { pos = skip is_ws file c.pos } in
      elim (dec_lt here.pos (length file)) [
        | yes inside ↦ omega (arith, next_line-lt file here (skip-le is_ws file c.pos le) inside)
        | no outside ↦ omega (arith, next_line-Tracks file here)
      ]

  parse_file_loop-Finishes :
      (fuel : ℕ) (start c : Cursor) (d : D)
      → Tracks file start c
      → c.pos ≤ length file
      → length file - c.pos < fuel
      → Finishes file start (parse_file_loop alloc stanzas fuel file c d)
  unfolding parse_file_loop
  parse_file_loop-Finishes zero start c d h le room = elim room [ ]
  parse_file_loop-Finishes (suc fuel) start c d h le room =
      let here : Cursor = record c { pos = skip is_ws file c.pos } in
      let blank = skip-Tracks is_ws ws-ne-newline file c in
      let there = Tracks-trans file start c here h blank in
      let inside = skip-le is_ws file c.pos le in
      if_rule (Finishes file start) (not (ltb c.pos (length file))) (λ e. (h, ground arith))
        λ e.
          let more : c.pos < length file = ground arith in
          if_rule (Finishes file start) (not (has_token file here))
            (λ none_left.
              let skipped = no_token-skip_comment file here (ground arith) in
              let f = next_line file here in
              let passed = next_line-Tracks file here in
              rw skipped (
                parse_file_loop-Finishes fuel start f d
                  (Tracks-trans file start here f there passed) (next_line-inside file here inside)
                  (omega (arith, comment-lt c le more))))
            λ _.
              after_stanza-Finishes start (parse_file_loop alloc stanzas fuel file) here there
                (parse_stanza alloc stanzas file here d) (parse_stanza-Moves here d inside)
                (λ f d' k le' lt. parse_file_loop-Finishes fuel start f d' k le' (ground arith))

module _ {D : Type 0} (alloc : Alloc) (stanzas : List (Stanza D)) (file : Bytes)
    (honest : All (Honest file) stanzas) where
  -- With handlers that move forwards within the file, and count the line ends that they pass,
  -- `nih_config_parse_file` returns from every place in the file. If it succeeds it stands at the
  -- end of the file, with every line end counted; if it fails the line number matches the position,
  -- except after `NIH_CONFIG_UNKNOWN_STANZA` and after running out of memory.
  pub parse_file-Finishes :
      (c : Cursor) (d : D)
      → c.pos ≤ length file
      → Finishes file c (parse_file alloc stanzas file c d)
  unfolding parse_file
  parse_file-Finishes c d le =
      parse_file_loop-Finishes alloc stanzas file honest (suc (length file - c.pos)) c c d
        (Tracks-refl file c) le (omega arith)
