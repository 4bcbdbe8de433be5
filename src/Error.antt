-- ===== src/Error.antt =====
-- nih/error.c: the stack of contexts, each of which holds one error that nobody has handled yet.
pub mod Pending
pub mod Raised
pub mod Contexts
mod Tests
use libnih.Prelude.{
  Ptr, update, ℕ, Bool, true, false, not, ◌&&◌, ◌||◌, Option, none, some, List, [], ◌∷◌, ◌==◌, ltb,
  if◌then◌else◌,
}

-- `NihError`
pub record Error : Type 0 where
  pub filename : List ℕ
  pub line : ℕ
  pub function : List ℕ
  pub number : ℕ
  pub message : List ℕ

-- `context_stack`, from the current context to the default one, with the error of each; what is
-- stored at an error's address, and whether its destructor is `nih_error_destroy`; and `errno`.
pub record State : Type 0 where
  pub context_stack : Option (List (Option Ptr))
  pub errors : Ptr → Error
  pub destroys : Ptr → Bool
  pub errno : ℕ

-- How a call ends: it returns, an assertion fails, or it calls `abort` for an unhandled error.
pub data Outcome (A : Type 0) : Type 0 where
  returns : A → Outcome A
  asserts : Outcome A
  aborts : Ptr → Outcome A

infixl 5 ◌>>=◌
abbrev pub ◌>>=◌ : {A B : Type 0} → Outcome A → (A → Outcome B) → Outcome B
returns a >>= f = f a
asserts >>= f = asserts
aborts e >>= f = aborts e

abbrev pub set_stack : Option (List (Option Ptr)) → State → State
set_stack cs s = record s { context_stack = cs }

abbrev pub set_destroys : Ptr → Bool → State → State
set_destroys e b s = record s { destroys = update s.destroys e b }

abbrev pub init_stack : Option (List (Option Ptr)) → Option (List (Option Ptr))
init_stack none = some (none ∷ [])
init_stack (some cs) = some cs

unfoldable pub error_init : State → State
error_init s = set_stack (init_stack s.context_stack) s

abbrev pub clear_stack : Option (List (Option Ptr)) → State → Outcome State
clear_stack none s = asserts
clear_stack (some []) s = asserts
clear_stack (some (none ∷ cs)) s = returns s
clear_stack (some (some e ∷ cs)) s = aborts e

unfoldable pub error_clear : State → Outcome State
error_clear s = clear_stack s.context_stack s

-- `CURRENT_CONTEXT->error = error`
abbrev pub set_current : Option Ptr → Option (List (Option Ptr)) → Option (List (Option Ptr))
set_current e none = none
set_current e (some []) = some []
set_current e (some (c ∷ cs)) = some (e ∷ cs)

unfoldable pub error_raise_error : List ℕ → ℕ → List ℕ → Ptr → State → Outcome State
error_raise_error filename line function error s =
    if not (ltb 0 line) || error == 0 || not (ltb 0 (s.errors error).number)
    then asserts
    else error_clear (error_init s) >>= λ a.
        let e = record (a.errors error) { filename = filename; line = line; function = function } in
        returns (
          set_destroys error true (record a {
            errors = update a.errors error e;
            context_stack = set_current (some error) a.context_stack;
          }))

-- `error` is the new object, whose allocation is repeated until it succeeds.
abbrev pub new_error : Ptr → ℕ → List ℕ → State → State
new_error error number message s = record s {
  errors =
      update s.errors error
        (record { filename = []; line = 0; function = []; number = number; message = message });
  destroys = update s.destroys error false;
}

unfoldable pub error_raise : List ℕ → ℕ → List ℕ → ℕ → List ℕ → Ptr → State → Outcome State
error_raise filename line function number message error s =
    if not (ltb 0 line) || not (ltb 0 number)
    then asserts
    else error_raise_error filename line function error
        (new_error error number message (error_init s))

-- `text` is what the format and its arguments make.
unfoldable pub error_raise_printf : List ℕ → ℕ → List ℕ → ℕ → List ℕ → Ptr → State → Outcome State
unfolding error_raise
error_raise_printf filename line function number text error s =
    error_raise filename line function number text error s

-- `strerror` is the C library's, and `clobbered` the `errno` that the calls in between leave.
unfoldable pub error_raise_system :
    (ℕ → List ℕ) → ℕ → List ℕ → ℕ → List ℕ → Ptr → State → Outcome State
error_raise_system strerror clobbered filename line function error s =
    if not (ltb 0 line) || not (ltb 0 s.errno)
    then asserts
    else error_raise_error filename line function error
        (record (new_error error s.errno (strerror s.errno) (error_init s)) { errno = clobbered })
      >>= λ a. returns (record a { errno = s.errno })

abbrev pub current : Option (List (Option Ptr)) → Option Ptr
current none = none
current (some []) = none
current (some (c ∷ cs)) = c

abbrev pub got : Option Ptr → State → Outcome (Ptr × State)
got none s = asserts
got (some e) s = returns (e, s)

unfoldable pub error_get : State → Outcome (Ptr × State)
error_get s = got (current s.context_stack) s

unfoldable pub error_steal : State → Outcome (Ptr × State)
error_steal s = got (current s.context_stack) s >>= λ r.
    returns (r.0, set_destroys r.0 false (set_stack (set_current none s.context_stack) s))

abbrev pub is_current : Option Ptr → Ptr → Bool
is_current none e = false
is_current (some c) e = c == e

unfoldable pub error_destroy : Ptr → State → Outcome State
error_destroy error s =
    if error == 0 || not (is_current (current s.context_stack) error)
    then asserts
    else returns (set_stack (set_current none s.context_stack) s)

-- `nih_free` of an error: its destructor is called, if it has one, and set aside.
unfoldable pub free_error : Ptr → State → Outcome State
free_error error s =
    if s.destroys error
    then error_destroy error s >>= (λ a. returns (set_destroys error false a))
    else returns s

abbrev pub push_stack : Option (List (Option Ptr)) → Option (List (Option Ptr))
push_stack none = none
push_stack (some cs) = some (none ∷ cs)

unfoldable pub error_push_context : State → State
error_push_context s = let a = error_init s in set_stack (push_stack a.context_stack) a

-- `CURRENT_CONTEXT != DEFAULT_CONTEXT`
abbrev pub is_nested : Option (List (Option Ptr)) → Bool
is_nested none = false
is_nested (some []) = false
is_nested (some (c ∷ [])) = false
is_nested (some (c ∷ d ∷ cs)) = true

abbrev pub pop_stack : Option (List (Option Ptr)) → Option (List (Option Ptr))
pop_stack none = none
pop_stack (some []) = some []
pop_stack (some (c ∷ cs)) = some cs

unfoldable pub error_pop_context : State → Outcome State
error_pop_context s =
    if not (is_nested s.context_stack)
    then asserts
    else error_clear s >>= λ a. returns (set_stack (pop_stack a.context_stack) a)

-- What a program does with errors.
pub data Call : Type 0 where
  raise : List ℕ → ℕ → List ℕ → ℕ → List ℕ → Ptr → Call
  raise_system : (ℕ → List ℕ) → ℕ → List ℕ → ℕ → List ℕ → Ptr → Call
  raise_error : List ℕ → ℕ → List ℕ → Ptr → Call
  get : Call
  steal : Call
  free : Ptr → Call
  push_context : Call
  pop_context : Call

unfoldable pub call : Call → State → Outcome State
call (raise filename line function number message error) s =
    error_raise filename line function number message error s
call (raise_system strerror clobbered filename line function error) s =
    error_raise_system strerror clobbered filename line function error s
call (raise_error filename line function error) s = error_raise_error filename line function error s
call get s = error_get s >>= λ r. returns r.1
call steal s = error_steal s >>= λ r. returns r.1
call (free error) s = free_error error s
call push_context s = returns (error_push_context s)
call pop_context s = error_pop_context s

unfoldable pub run : List Call → State → Outcome State
run [] s = returns s
run (c ∷ cs) s = call c s >>= run cs
