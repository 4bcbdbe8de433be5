-- ===== src/Error/Tests.antt =====
-- nih/error.c run on a few calls.
use libnih.Prelude.{update, ◌≡◌, refl, arith, true, false, none, some, List, [], ◌∷◌, ◌++◌}
use libnih.Error.{
  State, Error, Call, asserts, aborts, raise, get, free, push_context, pop_context, run, call,
  set_stack, error_raise, error_raise_error, error_clear, error_init, error_get, free_error,
  error_destroy, error_push_context,
}
use libnih.Error.Pending.{Owns, Returned, call-Owns}
use libnih.Error.Raised.{Pends, raise-Pends}
use libnih.Error.Contexts.{run-Hidden, popped}

-- Nothing has happened yet, and errno is ENOENT.
abbrev start : State
start = record {
  context_stack = none;
  errors = λ p. record { filename = []; line = 0; function = []; number = 0; message = [] };
  destroys = λ p. false;
  errno = 2;
}

start-Owns : Owns start
start-Owns = record { valid = refl; once = tt; owned = λ e. refl }

-- An error waits in the default context.
abbrev waiting : State
waiting = record start { context_stack = some (some 9 ∷ []) }

-- An error that nobody handles.
unhandled : run (raise [] 1 [] 5 [] 4 ∷ raise [] 2 [] 5 [] 8 ∷ []) start ≡ aborts 4
unfolding run call error_raise error_raise_error error_clear error_init
unhandled = refl

-- What is raised in a context and freed there.
abbrev handled : List Call
handled = raise [] 1 [] 5 [] 4 ∷ get ∷ free 4 ∷ []

-- An error that a context hides cannot be freed.
hidden : run (raise [] 1 [] 5 [] 4 ∷ push_context ∷ free 4 ∷ []) start ≡ asserts
unfolding run call error_raise error_raise_error error_clear error_init error_push_context
    free_error error_destroy
hidden = refl

call-Owns_example : Returned Owns (call (raise [] 1 [] 5 [] 4) start)
call-Owns_example = call-Owns (raise [] 1 [] 5 [] 4) start start-Owns (λ e p. refl)

raise-Pends_example :
    Pends [] 1 [] 5 [] 4
      (7 ∷ [])
      2
      []
      6
      (8 ∷ [])
      8
      (omega arith)
      (omega arith)
      refl
      (omega arith)
      (omega arith)
      refl
      start
raise-Pends_example =
    raise-Pends [] 1 [] 5 [] 4 (7 ∷ []) 2 [] 6 (8 ∷ []) 8 (omega arith) (omega arith) refl
      (omega arith) (omega arith) refl start refl refl

abbrev blank : Error
blank = record { filename = []; line = 0; function = []; number = 5; message = [] }

abbrev after_handled : State
after_handled = record start {
  context_stack = some (none ∷ []);
  errors = update (update start.errors 4 blank) 4 (record blank { line = 1 });
  destroys = update (update (update start.destroys 4 false) 4 true) 4 false;
}

run-Hidden_example :
    run (push_context ∷ (handled ++ pop_context ∷ [])) waiting
    ≡ popped none (set_stack (some (some 9 ∷ [])) after_handled)
unfolding run call error_raise error_raise_error error_clear error_init error_get free_error
    error_destroy
run-Hidden_example = run-Hidden handled waiting after_handled none refl refl refl
