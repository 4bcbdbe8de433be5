-- ===== src/Error/Raised.antt =====
-- An error that is raised is the one that is got, and is dealt with once.
use libnih.Prelude.{
  Ptr, update, ℕ, ◌<◌, ◌≡◌, refl, arith, true, false, Option, none, some, List, [], ◌∷◌, ◌==◌,
}
use libnih.Error.{
  Error, State, returns, aborts, set_stack, set_destroys, init_stack, error_init, error_clear,
  error_raise_error, new_error, error_raise, current, error_get, error_destroy, free_error,
}
use libnih.Error.Pending.{is_valid}

-- The error of the current context, where there is one.
abbrev pub pending : State → Option Ptr
pending s = current (init_stack s.context_stack)

module _ (filename : List ℕ) (line : ℕ) (function : List ℕ) (number : ℕ) (message : List ℕ)
    (error : Ptr) (filename' : List ℕ) (line' : ℕ) (function' : List ℕ) (number' : ℕ)
    (message' : List ℕ) (other : Ptr) (placed : 0 < line) (positive : 0 < number)
    (valid : (error == 0) ≡ false) (placed' : 0 < line') (positive' : 0 < number')
    (valid' : (other == 0) ≡ false) where
  abbrev pub the_error : Error
  the_error = record {
    filename = filename;
    line = line;
    function = function;
    number = number;
    message = message;
  }

  abbrev pub Pends : State → Type 0
  Pends s =
      (t : State) × (error_raise filename line function number message error s ≡ returns t)
      × (error_get t ≡ returns (error, t))
      × (t.errors error ≡ the_error)
      × (error_raise filename' line' function' number' message' other t ≡ aborts error)
      × (u : State) × (free_error error t ≡ returns u)
      × (pending u ≡ none)

  after : List (Option Ptr) → State → State
  after cs s =
      let a = new_error error number message s in
      set_destroys error true (record a {
        errors =
            update a.errors error
              (record (a.errors error) { filename = filename; line = line; function = function });
        context_stack = some (some error ∷ cs);
      })

  raise_on :
      (k : Option (List (Option Ptr))) (cs : List (Option Ptr)) (s : State)
      → init_stack k ≡ some (none ∷ cs)
      → Pends (set_stack k s)
  unfolding after error_raise error_raise_error error_get free_error error_destroy error_init
      error_clear
  raise_on k cs s e = (
    after cs s,
    rw e (ground (arith, placed, positive, valid)),
    refl,
    ground arith,
    ground (arith, placed', positive', valid'),
    set_destroys error false (set_stack (some (none ∷ cs)) (after cs s)),
    ground (arith, valid),
    refl,
  )

  raise_cases' :
      (k : Option (List (Option Ptr))) (s : State)
      → is_valid k ≡ true
      → current (init_stack k) ≡ none
      → Pends (set_stack k s)
  raise_cases' none s v e = raise_on none [] s refl
  raise_cases' (some []) s v e = cc
  raise_cases' (some (none ∷ cs)) s v e = raise_on (some (none ∷ cs)) cs s refl
  raise_cases' (some (some d ∷ cs)) s v e = cc

  -- Where no error is pending, `error_raise` with a line and a number above 0 leaves the error
  -- pending that `error_get` then gives, with the number, the message and the place given; a second
  -- `error_raise`, with a line and a number above 0 of its own and any file, function and message,
  -- aborts because of the first; and once the first is freed none is pending.
  pub raise-Pends : (s : State) → is_valid s.context_stack ≡ true → pending s ≡ none → Pends s
  raise-Pends s v e = raise_cases' s.context_stack s v e
