-- ===== src/Config/Tests.antt =====
-- Tests of nih/config.c, and the theorems about it at concrete inputs.
use libnih.Prelude.{
  ℕ, ◌+◌, ◌≡◌, ◌≤◌, refl, inr, true, false, List, [], ◌∷◌, ◌++◌, some, arith, length,
}
use libnih.CString.{Bytes, codes, strchr, starts_with, streq}
use libnih.Config.Result.{Cursor, ok, err, Parsed, unterminated_quote, handler_error}
use libnih.Config.Tracks.{Tracks-refl, Returns}
use libnih.Config.Token.{
  token, token_loop, finish, scan, scan_slash, scan_quote, scan_bare, copied, flush_space,
  flush_byte, slice, config_cnlws,
}
use libnih.Config.Token.Copy.{token_copy, origin}
use libnih.Config.Token.Escaped.{escaped}
use libnih.Config.Token.Quoted.{quoted}
use libnih.Config.Scan.{
  has_token, skip_whitespace, skip_whitespace_loop, skip_comment, next_line, span, block_end,
  end_word, type_word, line_tail,
}
use libnih.Config.Args.{next_token, next_arg, parse_args, parse_args_loop, parse_command}
use libnih.Config.Args.Total.{parse_args-Returns}
use libnih.Config.Args.Quoted.{print_args, plenty, parse_args-print}
use libnih.Config.Block.{skip_block, parse_block, measure_loop, shared_ws, shared, dedent_loop}
use libnih.Config.Block.Lines.{Arrives, skip_block-Arrives}
use libnih.Config.Block.Measure.{parse_block-Returns}
use libnih.Config.Stanza.{
  Stanza, get_stanza, get_stanza_loop, parse_stanza, parse_file, parse_file_loop,
}
use libnih.Config.Stanza.Lines.{Finishes, parse_file-Finishes}

abbrev start : Cursor
start = record { pos = 0; lineno = 1 }

abbrev at : ℕ → ℕ → Cursor
at p l = record { pos = p; lineno = l }

abbrev greeting : Bytes
greeting = codes "say \"hello  world\" it\\'s # done\nnext\n"

greeting-args :
    parse_args plenty greeting start
    ≡ some (at 32 2, ok (codes "say" ∷ codes "hello  world" ∷ codes "it\\'s" ∷ []))
unfolding parse_args parse_args_loop next_arg next_token token token_loop finish scan scan_slash
    scan_quote scan_bare copied flush_space flush_byte has_token skip_whitespace
    skip_whitespace_loop skip_comment next_line span strchr
greeting-args = refl

command-keeps-quotes :
    parse_command plenty (codes "run \"a b\" \\\n  now # x\n") start
    ≡ some (at 22 3, ok (codes "run \"a b\" now"))
unfolding parse_command token token_loop finish scan scan_slash scan_quote scan_bare copied
    flush_space flush_byte has_token skip_comment next_line span strchr
command-keeps-quotes = refl

open_quote : (parse_args plenty (codes "a \"b\nc") start) ≡ some (at 6 2, err unterminated_quote)
unfolding parse_args parse_args_loop next_arg next_token token token_loop finish scan scan_slash
    scan_quote scan_bare copied flush_space flush_byte has_token skip_whitespace
    skip_whitespace_loop skip_comment next_line span strchr
open_quote = refl

abbrev script : Bytes
script = codes "  if x\n    y\n  fi\nend script\nrest\n"

script-block :
    parse_block plenty script start (codes "script") ≡ some (at 29 5, ok (codes "if x\n  y\nfi\n"))
unfolding parse_block measure_loop shared_ws shared dedent_loop block_end end_word type_word
    line_tail next_line span strchr starts_with
script-block = refl

script-marker : block_end script (at 18 4) (codes "script") ≡ some (18, at 29 5)
unfolding block_end end_word type_word line_tail span strchr starts_with
script-marker = refl

token_copy_example :
    (copy : Bytes) × ((token (slice greeting 0 3) origin true config_cnlws true).1 ≡ ok (3, copy))
    × (length copy ≤ 4)
unfolding token token_loop finish scan scan_bare copied flush_space flush_byte strchr
token_copy_example =
    token_copy greeting start config_cnlws true {c' = at 3 1} {n = 3} {out = []} refl

parse_args-Returns_example : Returns greeting start (parse_args plenty greeting start)
parse_args-Returns_example = parse_args-Returns plenty greeting start

parse_args-print_example :
    parse_args plenty
      (codes "x\n" ++ (print_args (codes "a \\b" ∷ codes "#" ∷ []) ++ codes "y"))
      (at 2 2)
    ≡ some (at 15 3, ok (codes "a \\b" ∷ codes "#" ∷ []))
unfolding print_args quoted escaped
parse_args-print_example =
    parse_args-print (codes "x\n") (codes "y") (codes "a \\b" ∷ codes "#" ∷ []) (ground arith) 2

skip_block-Arrives_example : Arrives script start (skip_block script start (codes "script"))
skip_block-Arrives_example = skip_block-Arrives script (codes "script") refl start (omega arith)

parse_block-Returns_example :
    Returns script start (parse_block plenty script start (codes "script"))
parse_block-Returns_example =
    parse_block-Returns plenty script (codes "script") refl start (omega arith)

-- A stanza whose arguments are counted, and one that refuses.
count_args : ℕ → Bytes → Cursor → ℕ × Parsed (Unit {0})
count_args n file c = (n + 1, (c, ok tt))

abbrev table : List (Stanza ℕ)
table =
    record { name = codes "mark"; handler = count_args }
    ∷ record { name = []; handler = λ n file c. (n, (c, err (handler_error 7))) }
    ∷ []

abbrev marks : Bytes
marks = codes " # marks\nmark mark\n\n  mark \n"

marks-counted : parse_file plenty table marks start 0 ≡ some (3, (at 28 5, ok tt))
unfolding count_args parse_file parse_file_loop parse_stanza get_stanza get_stanza_loop streq
    next_token token token_loop finish scan scan_slash scan_quote scan_bare copied flush_space
    flush_byte has_token skip_whitespace skip_whitespace_loop skip_comment next_line span strchr
marks-counted = refl

parse_file-Finishes_example : Finishes marks start (parse_file plenty table marks start 0)
unfolding count_args
parse_file-Finishes_example =
    parse_file-Finishes plenty table marks
      ((λ d c h. (Tracks-refl marks c, h)), ((λ d c h. inr (inr (Tracks-refl marks c))), tt)) start
      0 (omega arith)

-- A backslash before an ordinary byte is written before the two spaces in front of it, of which one
-- is then lost and the backslash copied again.
slash-before-space :
    (token (codes "foo  \\xy") start true [] false).1 ≡ ok (8, codes "foo\\ \\xy" ++ 0 ∷ [])
unfolding token token_loop finish scan scan_slash scan_bare copied flush_space flush_byte strchr
slash-before-space = refl
