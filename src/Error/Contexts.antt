-- ===== src/Error/Contexts.antt =====
-- What happens in a context does not touch those below it.
use libnih.Prelude.{
  Ptr, ℕ, ◌≡◌, inl, inr, refl, ap, sym, ◌∙◌, arith, Bool, true, false, not, ◌||◌, Bool-cases,
  Option, none, some, List, [], ◌∷◌, ◌++◌, ltb,
}
use mathlib.Core.Path.{fun_ext}
use libnih.Error.{
  State, Outcome, returns, asserts, aborts, ◌>>=◌, set_stack, error_init, error_clear,
  error_raise_error, new_error, error_raise, error_raise_system, error_get, error_steal,
  error_destroy, free_error, error_push_context, error_pop_context, call, run, Call, raise,
  raise_system, raise_error, get, steal, free, push_context, pop_context,
}

-- The contexts `below` under those of a stack that is there.
abbrev pub onto : List (Option Ptr) → Option (List (Option Ptr)) → Option (List (Option Ptr))
onto below none = none
onto below (some []) = none
onto below (some (c ∷ cs)) = some (c ∷ (cs ++ below))

abbrev pub over : List (Option Ptr) → State → State
over below s = set_stack (onto below s.context_stack) s

abbrev pub is_there : Option (List (Option Ptr)) → Bool
is_there none = false
is_there (some []) = false
is_there (some (c ∷ cs)) = true

-- a call that returns does the same over other contexts, and leaves one
abbrev SameOver : List (Option Ptr) → (State → Outcome State) → State → Type 0
SameOver below f s =
    (t : State)
    → is_there s.context_stack ≡ true
    → f s ≡ returns t
    → (f (over below s) ≡ returns (over below t)) × (is_there t.context_stack ≡ true)

pub >>=-eq-returns :
    {A B : Type 0} (m : Outcome A) (f : A → Outcome B) {t : B}
    → (m >>= f) ≡ returns t
    → (a : A) × (m ≡ returns a) × (f a ≡ returns t)
>>=-eq-returns (returns a) f e = (a, refl, e)
>>=-eq-returns asserts f e = cc
>>=-eq-returns (aborts p) f e = cc

module _ (below : List (Option Ptr)) where
  raise_error-same :
      (filename : List ℕ) (line : ℕ) (function : List ℕ) (error : Ptr) (s : State)
      → SameOver below (error_raise_error filename line function error) s
  unfolding error_raise_error error_clear error_init
  raise_error-same filename line function error s t h e = cases s.context_stack s t h e
    where
      cases :
          (k : Option (List (Option Ptr))) (s : State)
          → SameOver below (error_raise_error filename line function error) (set_stack k s)
      cases none s t h e = cc
      cases (some []) s t h e = cc
      cases (some (none ∷ cs)) s t h e = (ground (arith, e), ground (arith, e))
      cases (some (some d ∷ cs)) s t h e = (ground (arith, e), ground (arith, e))

  pop-same : (s : State) → SameOver below error_pop_context s
  unfolding error_pop_context error_clear
  pop-same s t h e = cases s.context_stack s t h e
    where
      cases :
          (k : Option (List (Option Ptr))) (s : State)
          → SameOver below error_pop_context (set_stack k s)
      cases none s t h e = cc
      cases (some []) s t h e = cc
      cases (some (c ∷ [])) s t h e = cc
      cases (some (none ∷ d ∷ cs)) s t h e = (ground (arith, e), ground (arith, e))
      cases (some (some c ∷ d ∷ cs)) s t h e = cc

  raise_system-same :
      (strerror : ℕ → List ℕ) (clobbered : ℕ) (filename : List ℕ) (line : ℕ) (function : List ℕ)
      (error : Ptr) (s : State)
      → SameOver below (error_raise_system strerror clobbered filename line function error) s
  unfolding error_raise_system error_init
  raise_system-same strerror clobbered filename line function error s t h e =
      cases s.context_stack s t h e
    where
      cases :
          (k : Option (List (Option Ptr))) (s : State)
          → SameOver below
              (error_raise_system strerror clobbered filename line function error)
              (set_stack k s)
      cases none s t h e = cc
      cases (some []) s t h e = cc
      cases (some (d ∷ cs)) s t h e = elim (Bool-cases (not (ltb 0 line) || not (ltb 0 s.errno))) [
        | inl b ↦ ground (arith, b, e)
        | inr b ↦
            let inner =
              record (new_error error s.errno (strerror s.errno) (set_stack (some (d ∷ cs)) s)) {
                errno = clobbered;
              } in
            let bound : (error_raise_error filename line function error inner >>= λ a.
            returns (record a { errno = s.errno }))
                ≡ returns t =
              ground (arith, b, e) in
            let r =
              >>=-eq-returns {A = State} {B = State} _ (λ a. returns (record a { errno = s.errno }))
                bound in
            let same = raise_error-same filename line function error inner r.0 refl r.1 in
            let end : record r.0 { errno = s.errno } ≡ t = cc (r.2) in
            (rw (b, same.0) (rw (← end) refl), rw (← end) same.1)
      ]

  call-same : (c : Call) (s : State) → SameOver below (call c) s
  unfolding call error_raise error_raise_system error_get error_steal free_error error_destroy
      error_push_context error_init
  call-same c s t h e = cases c s.context_stack s t h e
    where
      cases :
          (c : Call) (k : Option (List (Option Ptr))) (s : State)
          → SameOver below (call c) (set_stack k s)
      cases c none s t h e = cc
      cases c (some []) s t h e = cc
      cases (raise filename line function number message error) (some (d ∷ cs)) s t h e = ground (
        arith,
        e,
        raise_error-same filename line function error
            (new_error error number message (set_stack (some (d ∷ cs)) s)) t,
      )
      cases (raise_system strerror clobbered filename line function error) (some (d ∷ cs)) s t h e =
          raise_system-same strerror clobbered filename line function error
            (set_stack (some (d ∷ cs)) s) t h e
      cases (raise_error filename line function error) (some (d ∷ cs)) s t h e =
          raise_error-same filename line function error (set_stack (some (d ∷ cs)) s) t h e
      cases get (some (none ∷ cs)) s t h e = cc
      cases get (some (some d ∷ cs)) s t h e = (ground (arith, e), ground (arith, e))
      cases steal (some (none ∷ cs)) s t h e = cc
      cases steal (some (some d ∷ cs)) s t h e = (ground (arith, e), ground (arith, e))
      cases (free error) (some (none ∷ cs)) s t h e = (ground (arith, e), ground (arith, e))
      cases (free error) (some (some d ∷ cs)) s t h e = (ground (arith, e), ground (arith, e))
      cases push_context (some (d ∷ cs)) s t h e = (ground (arith, e), ground (arith, e))
      cases pop_context (some (d ∷ cs)) s t h e = pop-same (set_stack (some (d ∷ cs)) s) t h e

  -- A program that returns does the same over other contexts: it neither reads nor changes them.
  run-same : (cs : List Call) (s : State) → SameOver below (run cs) s
  unfolding run
  run-same [] s t h e = (ground (arith, e), ground (arith, e, h))
  run-same (c ∷ cs) s t h e =
      let r = >>=-eq-returns (call c s) (run cs) e in
      let first = call-same c s r.0 h r.1 in
      let rest = run-same cs r.0 t first.1 r.2 in (rw first.0 rest.0, rest.1)

bind_assoc :
    (m : Outcome State) (f g : State → Outcome State) → (m >>= f >>= g) ≡ (m >>= λ s. f s >>= g)
bind_assoc (returns s) f g = refl
bind_assoc asserts f g = refl
bind_assoc (aborts e) f g = refl

run-append : (cs ds : List Call) (s : State) → run (cs ++ ds) s ≡ (run cs s >>= run ds)
unfolding run
run-append [] ds s = refl
run-append (c ∷ cs) ds s =
    ap (λ (f : State → Outcome State). call c s >>= f) (fun_ext (run-append cs ds))
    ∙ sym (bind_assoc (call c s) (run cs) (run ds))

-- What `error_pop_context` makes of the error that is left in a context.
abbrev pub popped : Option Ptr → State → Outcome State
popped none s = returns s
popped (some e) s = aborts e

run-pop :
    (left : Option Ptr) (d : Option Ptr) (ds : List (Option Ptr)) (t : State)
    → t.context_stack ≡ some (left ∷ [])
    → run (pop_context ∷ []) (over (d ∷ ds) t) ≡ popped left (set_stack (some (d ∷ ds)) t)
unfolding run call error_pop_context error_clear
run-pop none d ds t one = rw one refl
run-pop (some e) d ds t one = rw one refl

-- A program that, in a context of its own, returns with that context alone, runs the same between
-- `push_context` and `pop_context` on any stack: the stack is back as it was, whatever errors are
-- pending on it, or the pop aborts with the error that the program has left.
pub run-Hidden :
    (cs : List Call) (s t : State) (left : Option Ptr)
    → is_there s.context_stack ≡ true
    → run cs (set_stack (some (none ∷ [])) s) ≡ returns t
    → t.context_stack ≡ some (left ∷ [])
    → run (push_context ∷ (cs ++ pop_context ∷ [])) s ≡ popped left (set_stack s.context_stack t)
unfolding run call error_push_context error_init
run-Hidden cs s t left h e one = cases s.context_stack s h e
  where
    cases :
        (k : Option (List (Option Ptr))) (s : State)
        → is_there k ≡ true
        → run cs (set_stack (some (none ∷ [])) s) ≡ returns t
        → run (push_context ∷ (cs ++ pop_context ∷ [])) (set_stack k s)
          ≡ popped left (set_stack k t)
    cases none s h e = cc
    cases (some []) s h e = cc
    cases (some (d ∷ ds)) s h e =
        rw
          (
            run-append cs (pop_context ∷ []) (set_stack (some (none ∷ d ∷ ds)) s),
            (run-same (d ∷ ds) cs (set_stack (some (none ∷ [])) s) t refl e).0,
          )
          (run-pop left d ds t one)
