-- ===== src/Config/Block/Lines.antt =====
-- The block functions return on every file, and count the line ends that they pass.
use libnih.Prelude.{
  ℕ, zero, suc, ◌-◌, ◌≡◌, ◌≤◌, ◌<◌, Option, none, some, leb, length, arith, if_rule, option_rule,
}
use libnih.CString.{Bytes, count}
use libnih.Config.Result.{Cursor, Parsed}
use libnih.Config.Tracks.{Tracks, Tracks-trans, Tracks-refl}
use libnih.Config.Scan.{in_line, next_line, block_end}
use libnih.Config.Scan.Lines.{next_line-Tracks, skip-le}
use libnih.Config.Scan.Marker.{block_end-Tracks}
use libnih.Config.Block.{over_line, skip_block_loop, skip_block, rounds}

-- A result, with its cursor behind `c`; not `none`.
abbrev pub Arrives : {A : Type 0} → Bytes → Cursor → Option (Parsed A) → Type 0
Arrives file c none = ⊥
Arrives file c (some r) = Tracks file c r.0

module _ (file : Bytes) (c : Cursor) (here : c.pos ≤ length file) where
  pub next_line-inside : (next_line file c).pos ≤ length file
  unfolding next_line
  next_line-inside = ground (arith, skip-le in_line file c.pos here)

  pub next_line-lt : c.pos < length file → c.pos < (next_line file c).pos
  unfolding next_line
  next_line-lt h = ground arith

  pub over_line-Arrives :
      {A : Type 0} (start : Cursor) (rest : Cursor → Option (Parsed A))
      → Tracks file start c
      → ((d : Cursor)
          → d.pos < length file
          → c.pos < d.pos
          → Tracks file start d
          → Arrives file start (rest d))
      → Arrives file start (over_line file c rest)
  over_line-Arrives start rest h ih =
      let d = next_line file c in
      let moved = Tracks-trans file start c d h (next_line-Tracks file c) in
      if_rule (Arrives file start) (leb (length file) d.pos) (λ _. moved)
        λ e.
          let inside : d.pos < length file = ground arith in
          ih d inside (next_line-lt (omega (arith, next_line-Tracks file c))) moved

module _ (file type : Bytes) (plain : count b'\n' type ≡ 0) (start : Cursor) where
  skip_block_loop-Arrives :
      (fuel : ℕ) (c : Cursor)
      → c.pos ≤ length file
      → length file - c.pos < fuel
      → Tracks file start c
      → Arrives file start (skip_block_loop fuel file type c)
  unfolding skip_block_loop
  skip_block_loop-Arrives zero c here room h = elim room [ ]
  skip_block_loop-Arrives (suc fuel) c here room h =
      option_rule (Arrives file start) (block_end file c type)
        (λ _.
          over_line-Arrives file c here start (skip_block_loop fuel file type) h
            λ d inside lt k. skip_block_loop-Arrives fuel d (omega arith) (omega arith) k)
        (λ (endpos, d) e.
          Tracks-trans file start c d h (block_end-Tracks file c type here plain e).1)

module _ (file type : Bytes) (plain : count b'\n' type ≡ 0) (c : Cursor)
    (here : c.pos ≤ length file) where
  -- From a place in the file, and for a type with no line end in it, `nih_config_skip_block`
  -- returns, with the marker found or the error that there is none. It has moved forwards, and has
  -- counted the line ends that it passed.
  pub skip_block-Arrives : Arrives file c (skip_block file c type)
  unfolding skip_block
  skip_block-Arrives =
      skip_block_loop-Arrives file type plain c (rounds file c) c here (omega arith)
        (Tracks-refl file c)
