-- ===== src/Config/Args/Total.antt =====
-- `nih_config_parse_args` and `nih_config_parse_command` return: the loop has rounds enough, and
-- the assertions behind it hold.
use libnih.Prelude.{
  ℕ, zero, suc, ◌+◌, ◌-◌, ◌*◌, ◌≡◌, ◌≢◌, ◌≤◌, ◌<◌, refl, Bool, true, false, not, List, [], ◌∷◌,
  ◌++◌, Option, none, some, length, if_rule, arith,
}
use libnih.CString.{Bytes}
use libnih.Config.Result.{Cursor, Result, ok, err, Parsed}
use libnih.Config.Token.{token, config_cnl, config_cnlws}
use libnih.Config.Token.Stops.{token-Stops, token-length, token-inside}
use libnih.Config.Scan.{has_token, skip_whitespace, skip_comment}
use libnih.Config.Scan.Lines.{skip_whitespace-Tracks, skip_whitespace-inside}
use libnih.Config.Tracks.{Returns, system_or}
use libnih.Config.Args.Lines.{Keeps, parse_args-Keeps, parse_command-Keeps}
use libnih.Config.Args.{
  Alloc, next_token, next_arg, parse_args_loop, parse_args, parse_command, fill, copy_token,
  end_of_line, add_arg,
}

-- the option is a value
abbrev Total {ℓ} : {A : Type ℓ} → Option A → Type ℓ
Total o = o ≢ none

fill-cursor :
    (file : Bytes) (start stop here : Cursor) (delim : Bytes) (dequote : Bool)
    → (fill file start stop here delim dequote).0 ≡ here
fill-cursor file start stop here delim dequote = ground arith

module _ (alloc : Alloc) (file : Bytes) (c : Cursor) where
  copy_token-lt :
      (d : Cursor) (delim : Bytes) (dequote : Bool) (found : Result (ℕ × Bytes)) {arg : Bytes}
      → ((n : ℕ) (out : Bytes) → found ≡ ok (n, out) → n + c.pos ≤ d.pos)
      → (copy_token alloc file c d delim dequote found).1 ≡ ok arg
      → c.pos < (copy_token alloc file c d delim dequote found).0.pos
  copy_token-lt d delim dequote (err x) h e = cc
  copy_token-lt d delim dequote (ok (n, out)) h e =
      let here = skip_whitespace file d in
      ground (
        arith,
        h n out refl,
        skip_whitespace-Tracks file d,
        fill-cursor file c d here delim dequote,
      )

  -- Every token that is found moves the position on by one byte at least.
  pub next_token-lt :
      (delim : Bytes) (dequote : Bool) {arg : Bytes}
      → (next_token alloc file c delim dequote).1 ≡ ok arg
      → c.pos < (next_token alloc file c delim dequote).0.pos
  unfolding next_token
  next_token-lt delim dequote e =
      copy_token-lt (token file c false delim dequote).0 delim dequote
        (token file c false delim dequote).1 (λ n out h. token-length file c false delim dequote h)
        e

  copy_token-inside :
      (d : Cursor) (delim : Bytes) (dequote : Bool) (found : Result (ℕ × Bytes))
      → c.pos ≤ length file
      → d.pos ≤ length file
      → (copy_token alloc file c d delim dequote found).0.pos ≤ length file
  copy_token-inside d delim dequote (err x) h k = k
  copy_token-inside d delim dequote (ok (n, out)) h k =
      let here = skip_whitespace file d in
      ground (arith, skip_whitespace-inside file d k, fill-cursor file c d here delim dequote)

  pub next_token-inside :
      (delim : Bytes) (dequote : Bool)
      → c.pos ≤ length file
      → (next_token alloc file c delim dequote).0.pos ≤ length file
  unfolding next_token
  next_token-inside delim dequote h =
      copy_token-inside (token file c false delim dequote).0 delim dequote
        (token file c false delim dequote).1 h (token-inside file c false delim dequote h)

  next_arg-lt :
      {arg : Bytes} → (next_arg alloc file c).1 ≡ ok arg → c.pos < (next_arg alloc file c).0.pos
  unfolding next_arg
  next_arg-lt e = next_token-lt config_cnlws true e

  end_of_line-Total :
      {A : Type 0} (a : A) → has_token file c ≡ false → Total (end_of_line alloc file c a)
  unfolding skip_comment
  end_of_line-Total a e = ground arith

module _ (alloc : Alloc) (file : Bytes) (start : Cursor) where
  add_arg-Total :
      (here : Cursor) (args : List Bytes) (rest : List Bytes → Option (Parsed (List Bytes)))
      → (arg : Result Bytes) → ((a : Bytes) → arg ≡ ok a → (more : List Bytes) → Total (rest more))
      → Total (add_arg alloc start here args rest arg)
  add_arg-Total here args rest (err e) ih = λ p. cc
  add_arg-Total here args rest (ok a) ih =
      if_rule Total (not (alloc here (8 * (length args + 2)))) (λ _ p. cc)
        (λ _. ih a refl (args ++ a ∷ []))

  parse_args_loop-Total :
      (fuel : ℕ) (c : Cursor) (args : List Bytes)
      → length file - c.pos < fuel
      → Total (parse_args_loop alloc fuel file start c args)
  unfolding parse_args_loop
  parse_args_loop-Total zero c args h = elim h [ ]
  parse_args_loop-Total (suc fuel) c args h =
      let (d, arg) = next_arg alloc file c in
      if_rule Total (not (has_token file c))
        (λ e. end_of_line-Total alloc file c args (ground arith))
        λ e.
          let inside : c.pos < length file = unfold has_token in ground arith in
          add_arg-Total d args (parse_args_loop alloc fuel file start d) arg (λ a found more.
            parse_args_loop-Total fuel d more (omega (arith, next_arg-lt alloc file c found)))

module _ (alloc : Alloc) (file : Bytes) (c : Cursor) where
  parse_args-Total : Total (parse_args alloc file c)
  unfolding parse_args
  parse_args-Total =
      if_rule Total (not (alloc c 8)) (λ _ p. cc)
        λ _. parse_args_loop-Total alloc file c (suc (length file - c.pos)) c [] (omega arith)

  parse_command-Total : Total (parse_command alloc file c)
  unfolding parse_command
  parse_command-Total =
      let d = (token file c false config_cnl false).0 in
      let stops = token-Stops file c false config_cnl false in
      let none_left : has_token file d ≡ false = unfold has_token in ground arith in
      let skipped : (skip_comment file d).1 ≡ ok tt = unfold skip_comment in rw none_left in
      ground arith

returned :
    {A : Type 0} (file : Bytes) (c : Cursor) (o : Option (Parsed A))
    → Total o
    → Keeps file c o
    → Returns file c o
returned file c none h k = absurd (h refl)
returned file c (some r) h k = system_or r.1 k

module _ (alloc : Alloc) (file : Bytes) (c : Cursor) where
  -- `nih_config_parse_args` returns an array or an error on every file: its loop ends, and its
  -- assertion holds. Unless it runs out of memory it has moved forwards, and has counted the line
  -- ends that it passed.
  pub parse_args-Returns : Returns file c (parse_args alloc file c)
  parse_args-Returns =
      returned file c _ (parse_args-Total alloc file c) (parse_args-Keeps alloc file c)

  -- `nih_config_parse_command` returns a command or an error on every file: behind the command
  -- stands nothing but a comment or the end of the line. Unless it runs out of memory it has moved
  -- forwards, and has counted the line ends that it passed.
  pub parse_command-Returns : Returns file c (parse_command alloc file c)
  parse_command-Returns =
      returned file c _ (parse_command-Total alloc file c) (parse_command-Keeps alloc file c)
