-- ===== src/Config/Args/Lines.antt =====
-- The functions of `Args` count the line ends that they pass.
use libnih.Prelude.{
  ℕ, zero, suc, ◌+◌, ◌*◌, ◌≡◌, ◌≢◌, refl, Bool, true, false, not, List, [], ◌∷◌, ◌++◌, Option, none,
  some, length, if_rule, arith,
}
use libnih.CString.{Bytes, strchr}
use libnih.Config.Result.{Cursor, system_error, Result, ok, err, Parsed}
use libnih.Config.Token.{token, config_cnl, config_cnlws}
use libnih.Config.Token.Lines.{token-Tracks}
use libnih.Config.Tracks.{Tracks, Tracks-trans, Tracks-refl}
use libnih.Config.Scan.{has_token, skip_whitespace, skip_comment}
use libnih.Config.Scan.Lines.{skip_whitespace-Tracks, skip_comment-Tracks}
use libnih.Config.Args.{
  Alloc, next_token, next_arg, parse_args_loop, parse_args, parse_command, fill, end_of_line,
  add_arg,
}

-- Only when an allocation fails may the line number and the position part.
abbrev pub Follows : {A : Type 0} → Bytes → Cursor → Parsed A → Type 0
Follows file c r = r.1 ≢ err system_error → Tracks file c r.0

fill-Tracks :
    (file : Bytes) (start stop here c : Cursor) (delim : Bytes) (dequote : Bool)
    → Tracks file c here
    → Tracks file c (fill file start stop here delim dequote).0
fill-Tracks file start stop here c delim dequote h = ground arith

module _ (alloc : Alloc) (file : Bytes) (c : Cursor) (delim : Bytes)
    (ends : strchr delim b'\n' ≡ true) (dequote : Bool) where
  pub next_token-Follows : Follows file c (next_token alloc file c delim dequote)
  unfolding next_token
  next_token-Follows =
      let d = (token file c false delim dequote).0 in
      let here = skip_whitespace file d in
      let first = token-Tracks file c false delim dequote ends in
      let second = skip_whitespace-Tracks file d in
      ground (
        arith,
        first,
        Tracks-trans file c d here first second,
        fill-Tracks file c d here c delim dequote,
      )

module _ (alloc : Alloc) (file : Bytes) (c : Cursor) where
  pub next_arg-Follows : Follows file c (next_arg alloc file c)
  unfolding next_arg strchr
  next_arg-Follows = next_token-Follows alloc file c config_cnlws refl true

-- What a chain that may abort promises.
abbrev pub Keeps : {A : Type 0} → Bytes → Cursor → Option (Parsed A) → Type 0
Keeps file c none = Unit
Keeps file c (some r) = Follows file c r

module _ (alloc : Alloc) (file : Bytes) (start : Cursor) where
  end_of_line-Keeps :
      (c : Cursor) (args : List Bytes)
      → Tracks file start c
      → Keeps file start (end_of_line alloc file c args)
  end_of_line-Keeps c args h =
      ground
        (arith, Tracks-trans file start c (skip_comment file c).0 h (skip_comment-Tracks file c))

  add_arg-Keeps :
      (here : Cursor) (args : List Bytes) (rest : List Bytes → Option (Parsed (List Bytes)))
      → (arg : Result Bytes) → (arg ≢ err system_error → Tracks file start here)
      → (Tracks file start here → (more : List Bytes) → Keeps file start (rest more))
      → Keeps file start (add_arg alloc start here args rest arg)
  add_arg-Keeps here args rest (err e) h ih = λ other. h (λ p. other (ground arith))
  add_arg-Keeps here args rest (ok a) h ih =
      if_rule (Keeps file start) (not (alloc here (8 * (length args + 2))))
        (λ _ other. absurd (other refl)) (λ _. ih (h (λ e. cc)) (args ++ a ∷ []))

  parse_args_loop-Keeps :
      (fuel : ℕ) (c : Cursor) (args : List Bytes)
      → Tracks file start c
      → Keeps file start (parse_args_loop alloc fuel file start c args)
  unfolding parse_args_loop
  parse_args_loop-Keeps zero c args h = tt
  parse_args_loop-Keeps (suc fuel) c args h =
      let (d, arg) = next_arg alloc file c in
      if_rule (Keeps file start) (not (has_token file c)) (λ _. end_of_line-Keeps c args h)
        λ _.
          add_arg-Keeps d args (parse_args_loop alloc fuel file start d) arg
            (λ other. Tracks-trans file start c d h (next_arg-Follows alloc file c other))
            (λ k more. parse_args_loop-Keeps fuel d more k)

module _ (alloc : Alloc) (file : Bytes) (c : Cursor) where
  pub parse_args-Keeps : Keeps file c (parse_args alloc file c)
  unfolding parse_args
  parse_args-Keeps =
      if_rule (Keeps file c) (not (alloc c 8)) (λ _ _. Tracks-refl file c)
        (λ _. parse_args_loop-Keeps alloc file c _ c [] (Tracks-refl file c))

  pub parse_command-Keeps : Keeps file c (parse_command alloc file c)
  unfolding parse_command strchr
  parse_command-Keeps =
      let d = (token file c false config_cnl false).0 in
      let here = (skip_comment file d).0 in
      let first = token-Tracks file c false config_cnl false refl in
      let second = skip_comment-Tracks file d in
      ground (
        arith,
        first,
        Tracks-trans file c d here first second,
        fill-Tracks file c d here c config_cnl false,
      )
