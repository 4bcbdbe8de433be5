-- ===== src/Io/Tests.antt =====
-- A buffer of nih/io.c filled and emptied.
use libnih.Prelude.{ℕ, ◌≡◌, refl, arith, Bool, true, false, none, some, List, [], ◌∷◌}
use libnih.CString.{codes, strchr}
use libnih.Io.Buffer.{Buffer, buffer_resize, buffer_push, buffer_pop, buffer_shrink}
use libnih.Io.Buffer.Resized.{IsValid}
use libnih.Io.Stream.{Io, stream, get, take_string, find_end}
use libnih.Io.Stream.Lines.{Gets, get-Gets}
use libnih.Io.Buffer.History.{Call, push, pop, History, InOrder, run, run-InOrder}

abbrev always : ℕ → Bool
always n = true

abbrev empty : Buffer
empty = record { buf = none; size = 0; len = 0 }

abbrev two : Buffer
two = record { buf = some (104 ∷ 105 ∷ 0 ∷ 0 ∷ []); size = 4; len = 2 }

pushed : buffer_push 4 always 9 empty (codes "hi!") 2 ≡ some (true, two)
unfolding buffer_push buffer_resize
pushed = refl

popped :
    buffer_pop 4 always 9 two 1
    ≡ (some (104 ∷ 0 ∷ []), 1, record { buf = some (105 ∷ 105 ∷ 0 ∷ 0 ∷ []); size = 4; len = 1 })
unfolding buffer_pop buffer_shrink buffer_resize
popped = refl

two-IsValid : IsValid two
two-IsValid = record { whole = refl; inside = omega arith }

abbrev greeting : List Call
greeting = push (codes "hello") 5 ∷ pop 2 ∷ push (codes "!") 1 ∷ pop 9 ∷ []

run-InOrder_example :
    (g : History) × (run 4 always 9 greeting (record { buffer = empty; accepted = []; taken = [] })
      ≡ some g)
    × InOrder g
run-InOrder_example =
    run-InOrder 4 always 9 (omega arith) greeting
      (record { buffer = empty; accepted = []; taken = [] })
      (record { valid = record { whole = refl; inside = omega arith }; order = refl })
      (omega arith, (tt, (omega arith, (tt, tt)))) (omega arith)

-- A stream on which hi, a newline, and yo wait.
abbrev lines : Io
lines = record {
  kind = stream;
  send_buf = empty;
  recv_buf = record { buf = some (104 ∷ 105 ∷ 10 ∷ 121 ∷ 111 ∷ 0 ∷ 0 ∷ 0 ∷ []); size = 8; len = 5 };
  send_q = [];
  recv_q = [];
  writes = false;
  shutdown = false;
  closed = 0;
}

gotten : (get 4 always 9 (10 ∷ []) lines).0 ≡ some (104 ∷ 105 ∷ 0 ∷ [])
unfolding get take_string find_end strchr buffer_pop
gotten = refl

get-Gets_example : Gets always lines (codes "hi") (codes "yo") (get 4 always 9 (10 ∷ []) lines)
unfolding strchr
get-Gets_example =
    get-Gets 4 always 9 (omega arith) (10 ∷ []) lines (codes "hi") 10 (codes "yo") refl
      (record { whole = refl; inside = omega arith }) (omega arith) refl (refl, (refl, tt)) refl
