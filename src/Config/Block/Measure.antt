-- ===== src/Config/Block/Measure.antt =====
-- `nih_config_parse_block`: both loops end, and the cursor counts the line ends that it passes.
use libnih.Prelude.{
  ℕ, zero, suc, ◌+◌, ◌-◌, ◌*◌, ◌≡◌, ◌≤◌, ◌<◌, inl, inr, not, false, Option, some, leb, [], ◌∷◌,
  none, ◌==◌, length, drop, arith, if_rule, option_rule, length-drop, take, refl,
}
use mathlib.Core.Path.{subst}
use libnih.CString.{Bytes, count}
use libnih.Config.Result.{Cursor, Result, ok, err, Parsed}
use libnih.Config.Tracks.{Returns, Tracks, Tracks-trans, Tracks-refl, Tracks-span}
use libnih.Config.Args.{Alloc}
use libnih.Config.Scan.{skip, span, is_ws, in_line, next_line, block_end}
use libnih.Config.Scan.Lines.{ws-ne-newline, skip-le, span-lines}
use libnih.Config.Scan.Marker.{block_end-Tracks}
use libnih.Config.Block.{
  shared, shared_ws, measure_loop, Extent, dedent_loop, rounds, copy_block, no_extent, parse_block,
}
use libnih.Config.Block.Dedent.{
  Fits, Fits-less, Fits-last, skip-within, skip-past, dedent_loop-Returns,
}
use libnih.Config.Block.Lines.{Arrives, over_line-Arrives}

shared-le : (ws : ℕ) (xs ys : Bytes) → (shared ws xs ys ≤ ws) × (shared ws xs ys ≤ length ys)
unfolding shared
shared-le zero xs ys = omega arith
shared-le (suc ws) [] ys = omega arith
shared-le (suc ws) (x ∷ xs) [] = omega arith
shared-le (suc ws) (x ∷ xs) (y ∷ ys) = ground (arith, shared-le ws xs ys)

shared-take : (ws : ℕ) (xs ys : Bytes) → take (shared ws xs ys) xs ≡ take (shared ws xs ys) ys
unfolding shared
shared-take zero xs ys = refl
shared-take (suc ws) [] ys = refl
shared-take (suc ws) (x ∷ xs) [] = refl
shared-take (suc ws) (x ∷ xs) (y ∷ ys) = ground (arith, shared-take ws xs ys)

count-take_mono : (b k n : ℕ) (xs : Bytes) → k ≤ n → count b (take k xs) ≤ count b (take n xs)
count-take_mono b zero n xs h = omega arith
count-take_mono b (suc k) zero xs h = absurd (omega arith)
count-take_mono b (suc k) (suc n) [] h = omega arith
count-take_mono b (suc k) (suc n) (x ∷ xs) h = omega (arith, count-take_mono b k n xs)

module _ (file : Bytes) (sh_start : ℕ) where
  -- The whitespace shared so far has no line end in it; the first line is the block's start.
  pub record Blank (x : Extent) (p : ℕ) : Type 0 where
    pub no_newline : count b'\n' (take x.ws (drop sh_start file)) ≡ 0
    pub first_line : x.lines ≡ 0 → p ≡ sh_start

  module _ (x : Extent) (p : ℕ) (blank : Blank x p) (inside : p ≤ length file) where
    -- what is known of the whitespace shared after one more line
    pub record Indent (ws : ℕ) : Type 0 where
      pub here : count b'\n' (take ws (drop p file)) ≡ 0
      pub there : count b'\n' (take ws (drop sh_start file)) ≡ 0
      pub room : p + ws ≤ length file

    first-Indent : x.lines ≡ 0 → Indent (skip is_ws file p - p)
    first-Indent e =
        let k = span is_ws (drop p file) in
        let moved : p + k - p ≡ k = omega arith in
        let none_here = span-lines is_ws ws-ne-newline (drop p file) in
        let same : p ≡ sh_start = blank.first_line e in
        rw moved (record {
          here = none_here;
          there = subst (λ q. count b'\n' (take k (drop q file)) ≡ 0) same none_here;
          room = omega (arith, skip-le is_ws file p inside);
        })

    later-Indent : Indent (shared x.ws (drop sh_start file) (drop p file))
    later-Indent =
        let xs = drop sh_start file in
        let ys = drop p file in
        let le = shared-le x.ws xs ys in
        let there = count-take_mono b'\n' (shared x.ws xs ys) x.ws xs le.0 in
        record {
          here = rw (← shared-take x.ws xs ys) (omega (arith, there));
          there = omega (arith, there);
          room = omega (arith, length-drop p file);
        }

    pub shared_ws-Indent : Indent (shared_ws file sh_start x p)
    unfolding shared_ws
    shared_ws-Indent =
        if_rule Indent (x.lines == 0) (λ e. first-Indent (ground arith)) (λ _. later-Indent)

module _ (file type : Bytes) (plain : count b'\n' type ≡ 0) (start : Cursor) where
  measure_loop-Arrives :
      (fuel : ℕ) (c : Cursor) (x : Extent)
      → c.pos ≤ length file
      → length file - c.pos < fuel
      → Blank file start.pos x c.pos
      → Tracks file start c
      → Arrives file start (measure_loop fuel file type start.pos c x)
  unfolding measure_loop
  measure_loop-Arrives zero c x here room blank h = elim room [ ]
  measure_loop-Arrives (suc fuel) c x here room blank h =
      option_rule (Arrives file start) (block_end file c type)
        (λ _.
          let ws = shared_ws file start.pos x c.pos in
          let indent = shared_ws-Indent file start.pos x c.pos blank here in
          let d : Cursor = record c { pos = c.pos + ws } in
          let moved : c.pos + ws - c.pos ≡ ws = omega arith in
          let k =
            Tracks-trans file start c d h
              (Tracks-span file c d (omega arith) (rw moved (omega (arith, indent.here)))) in
          over_line-Arrives file d indent.room start _ k λ e inside lt l.
            measure_loop-Arrives fuel e (record x { ws = ws; lines = x.lines + 1 }) (omega arith)
              (omega arith)
              (record { no_newline = indent.there; first_line = λ p. absurd (omega arith) }) l)
        (λ (endpos, d) e.
          Tracks-trans file start c d h (block_end-Tracks file c type here plain e).1)

-- What the first loop has found when it succeeds: lines that fit between the block's ends.
abbrev Measured : Bytes → ℕ → Option (Parsed Extent) → Type 0
Measured file sh_start none = Unit
Measured file sh_start (some (d, err e)) = Unit
Measured file sh_start (some (d, ok x)) = Fits file x.ws x.lines sh_start x.sh_end

module _ (file type : Bytes) (sh_start : ℕ) where
  shared_ws-less :
      (x : Extent) (p : ℕ) → (x.lines == 0) ≡ false → shared_ws file sh_start x p ≤ x.ws
  unfolding shared_ws
  shared_ws-less x p e = rw e (shared-le x.ws (drop sh_start file) (drop p file)).0

  next_line-pos :
      (c : Cursor)
      → c.pos ≤ length file
      → (next_line file c).pos < length file
      → (skip in_line file c.pos < length file)
        × ((next_line file c).pos ≡ skip in_line file c.pos + 1)
  unfolding next_line
  next_line-pos c here l =
      let inside = skip-le in_line file c.pos here in
      (ground (arith, l, inside), ground (arith, l, inside))

  measure_loop-Measured :
      (plain : count b'\n' type ≡ 0) (fuel : ℕ) (c : Cursor) (x : Extent)
      → c.pos ≤ length file
      → Blank file sh_start x c.pos
      → Fits file x.ws x.lines sh_start c.pos
      → Measured file sh_start (measure_loop fuel file type sh_start c x)
  unfolding measure_loop
  measure_loop-Measured plain zero c x here blank f = tt
  measure_loop-Measured plain (suc fuel) c x here blank f =
      option_rule (Measured file sh_start) (block_end file c type)
        (λ _.
          let ws = shared_ws file sh_start x c.pos in
          let indent = shared_ws-Indent file sh_start x c.pos blank here in
          let d : Cursor = record c { pos = c.pos + ws } in
          let e = next_line file d in
          let inside : c.pos + ws ≤ skip in_line file c.pos =
            skip-past file c.pos ws indent.here
              (omega (arith, indent.room, length-drop c.pos file)) in
          let same = skip-within file c.pos ws inside in
          if_rule (Measured file sh_start) (leb (length file) e.pos) (λ _. tt)
            λ g.
              let lt : e.pos < length file = ground (arith, g) in
              let end = next_line-pos d indent.room lt in
              let place : skip in_line file c.pos + 1 ≡ e.pos = omega (arith, end.1, same) in
              let more : suc x.lines ≡ x.lines + 1 = omega arith in
              measure_loop-Measured plain fuel e (record x { ws = ws; lines = x.lines + 1 })
                (omega (arith, lt))
                (record { no_newline = indent.there; first_line = λ p. absurd (omega (arith, p)) })
                (rw (← place, ← more)
                  (Fits-last file ws x.lines sh_start c.pos
                    (Fits-less file x.ws ws x.lines sh_start c.pos (shared_ws-less x c.pos) f)
                    inside (omega (arith, end.0, same)))))
        (λ (endpos, d) e. rw (block_end-Tracks file c type here plain e).0 f)

module _ (alloc : Alloc) (file : Bytes) (c : Cursor) where
  copy_block-Returns :
      (d : Cursor) (found : Result Extent)
      → Tracks file c d
      → Measured file c.pos (some (d, found))
      → Returns file c (copy_block alloc file c d found)
  copy_block-Returns d (err e) h f = inr h
  copy_block-Returns d (ok x) h f =
      let sh_len = x.sh_end - c.pos - x.ws * x.lines in
      if_rule (Returns file c) (not (alloc d (sh_len + 1))) (λ _. inl refl)
        λ _.
          option_rule (Returns file c)
            (dedent_loop (suc (x.sh_end - c.pos)) file c.pos x.sh_end x.ws sh_len [])
            (λ e. absurd (dedent_loop-Returns file x.lines c.pos x.sh_end x.ws f e))
            (λ block _. inr h)

module _ (alloc : Alloc) (file type : Bytes) (plain : count b'\n' type ≡ 0) (c : Cursor)
    (here : c.pos ≤ length file) where
  -- From a place in the file, and for a type with no line end in it, `nih_config_parse_block`
  -- returns, and has written nothing outside of the memory of the block. Unless it runs out of
  -- memory it has moved forwards, and has counted the line ends that it passed.
  pub parse_block-Returns : Returns file c (parse_block alloc file c type)
  unfolding parse_block
  parse_block-Returns =
      let blank : Blank file c.pos no_extent c.pos = record {
        no_newline = refl;
        first_line = λ _. refl;
      } in
      let loop = measure_loop (rounds file c) file type c.pos c no_extent in
      let arrived : Arrives file c loop =
        measure_loop-Arrives file type plain c (rounds file c) c no_extent here (omega arith) blank
          (Tracks-refl file c) in
      let measured : Measured file c.pos loop =
        measure_loop-Measured file type c.pos plain (rounds file c) c no_extent here blank refl in
      option_rule (Returns file c) loop (λ e. rw e at arrived)
        (λ (d, found) e.
          copy_block-Returns alloc file c d found (rw e at arrived) (rw e at measured))
