-- ===== src/Error/Pending.antt =====
-- Every pending error stands in one context, and has the destructor that takes it out of it.
use libnih.Prelude.{
  Ptr, ℕ, ◌≡◌, inl, inr, refl, arith, Bool, true, false, not, ◌||◌, Bool-cases, Option, none, some,
  List, [], ◌∷◌, ◌==◌, ltb, if◌then◌else◌,
}
use libnih.Error.{
  Error, State, Outcome, returns, asserts, aborts, ◌>>=◌, set_stack, set_destroys, init_stack,
  error_init, error_clear, error_raise_error, new_error, error_raise, error_raise_system, error_get,
  error_steal, error_destroy, free_error, error_push_context, error_pop_context, call, Call, raise,
  raise_system, raise_error, get, steal, free, push_context, pop_context,
}

-- What stands in the contexts.
abbrev pub stack : Option (List (Option Ptr)) → List (Option Ptr)
stack none = []
stack (some cs) = cs

abbrev pub holds : Ptr → List (Option Ptr) → Bool
holds e [] = false
holds e (none ∷ cs) = holds e cs
holds e (some f ∷ cs) = f == e || holds e cs

abbrev pub Once : List (Option Ptr) → Type 0
Once [] = Unit
Once (none ∷ cs) = Once cs
Once (some e ∷ cs) = (holds e cs ≡ false) × Once cs

-- The stack is not there yet, or has the default context.
abbrev pub is_valid : Option (List (Option Ptr)) → Bool
is_valid none = true
is_valid (some []) = false
is_valid (some (c ∷ cs)) = true

-- The errors that have the destructor are those that stand in a context, and each stands in one.
pub record Owns (s : State) : Type 0 where
  pub valid : is_valid s.context_stack ≡ true
  pub once : Once (stack s.context_stack)
  pub owned : (e : Ptr) → s.destroys e ≡ holds e (stack s.context_stack)

-- The error that a call raises is new, or one that stands in no context.
abbrev pub raised : Call → Option Ptr
raised (raise filename line function number message error) = some error
raised (raise_system strerror clobbered filename line function error) = some error
raised (raise_error filename line function error) = some error
raised get = none
raised steal = none
raised (free error) = none
raised push_context = none
raised pop_context = none

-- What holds of the state that a call returns, if it returns.
pub data Returned (P : State → Type 0) : Outcome State → Type 0 where
  returned : {s : State} → P s → Returned P (returns s)
  asserted : Returned P asserts
  aborted : {e : Ptr} → Returned P (aborts e)

guarded :
    (P : State → Type 0) (b : Bool) {m : Outcome State}
    → Returned P m
    → Returned P (if b then asserts else m)
guarded P true r = asserted
guarded P false r = r

error_init-Owns : (s : State) → Owns s → Owns (error_init s)
unfolding error_init
error_init-Owns s o = init_cases s.context_stack s o
  where
    init_cases :
        (k : Option (List (Option Ptr))) (s : State)
        → Owns (set_stack k s)
        → Owns (set_stack (init_stack k) s)
    init_cases none s o = record { valid = refl; once = tt; owned = o.owned }
    init_cases (some cs) s o = o

-- A new object is in no context.
new_error-Owns :
    (error number : ℕ) (message : List ℕ) (s : State)
    → s.destroys error ≡ false
    → Owns s
    → Owns (new_error error number message s)
new_error-Owns error number message s new o = record {
  valid = o.valid;
  once = o.once;
  owned = λ e. ground (arith, o.owned e, new, o.owned error);
}

guarded_by :
    (P : State → Type 0) (b : Bool) {m : Outcome State}
    → (b ≡ false → Returned P m)
    → Returned P (if b then asserts else m)
guarded_by P true r = asserted
guarded_by P false r = r refl

errno-Owns : (n : ℕ) (s : State) → Owns s → Owns (record s { errno = n })
errno-Owns n s o = record { valid = o.valid; once = o.once; owned = o.owned }

pend-Owns :
    (cs : List (Option Ptr)) (error : Ptr) (errors' : Ptr → Error) (s : State)
    → Owns (set_stack (some (none ∷ cs)) s)
    → s.destroys error ≡ false
    → Owns (
        set_destroys error true
          (record s { errors = errors'; context_stack = some (some error ∷ cs) }))
pend-Owns cs error errors' s o new = record {
  valid = refl;
  once = (ground (arith, new, o.owned error), o.once);
  owned = λ e. ground (arith, new, o.owned e);
}

raise_cases :
    (k : Option (List (Option Ptr))) (filename : List ℕ) (line : ℕ) (function : List ℕ)
    (error : Ptr) (s : State)
    → Owns (set_stack k s)
    → s.destroys error ≡ false
    → Returned Owns (error_raise_error filename line function error (set_stack k s))
unfolding error_raise_error error_clear error_init
raise_cases none filename line function error s o new =
    guarded Owns (not (ltb 0 line) || error == 0 || not (ltb 0 (s.errors error).number))
      (returned (pend-Owns [] error _ s (record { valid = refl; once = tt; owned = o.owned }) new))
raise_cases (some []) filename line function error s o new =
    guarded Owns (not (ltb 0 line) || error == 0 || not (ltb 0 (s.errors error).number)) asserted
raise_cases (some (none ∷ cs)) filename line function error s o new =
    guarded Owns (not (ltb 0 line) || error == 0 || not (ltb 0 (s.errors error).number))
      (returned (pend-Owns cs error _ s o new))
raise_cases (some (some e ∷ cs)) filename line function error s o new =
    guarded Owns (not (ltb 0 line) || error == 0 || not (ltb 0 (s.errors error).number)) aborted

raise_error-Owns :
    (filename : List ℕ) (line : ℕ) (function : List ℕ) (error : Ptr) (s : State)
    → Owns s
    → s.destroys error ≡ false
    → Returned Owns (error_raise_error filename line function error s)
raise_error-Owns filename line function error s o new =
    raise_cases s.context_stack filename line function error s o new

Returned->>= :
    (P Q : State → Type 0) {m : Outcome State} (f : State → Outcome State)
    → Returned P m
    → ((s : State) → P s → Returned Q (f s))
    → Returned Q (m >>= f)
Returned->>= P Q f (returned {s} p) g = g s p
Returned->>= P Q f asserted g = asserted
Returned->>= P Q f aborted g = aborted

steal_cases :
    (k : Option (List (Option Ptr))) (s : State)
    → Owns (set_stack k s)
    → Returned Owns (call steal (set_stack k s))
unfolding call error_steal
steal_cases none s o = asserted
steal_cases (some []) s o = asserted
steal_cases (some (none ∷ cs)) s o = asserted
steal_cases (some (some e ∷ cs)) s o =
    returned
      (record { valid = refl; once = o.once.1; owned = λ f. ground (arith, o.once, o.owned f) })

get_cases :
    (k : Option (List (Option Ptr))) (s : State)
    → Owns (set_stack k s)
    → Returned Owns (call get (set_stack k s))
unfolding call error_get
get_cases none s o = asserted
get_cases (some []) s o = asserted
get_cases (some (none ∷ cs)) s o = asserted
get_cases (some (some e ∷ cs)) s o = returned o

abbrev OwnsWithout : Ptr → State → Type 0
OwnsWithout error s = Owns (set_destroys error false s)

freed-Owns :
    (e : Ptr) (cs : List (Option Ptr)) (error : Ptr) (s : State)
    → Owns (set_stack (some (some e ∷ cs)) s)
    → (e == error) ≡ true
    → OwnsWithout error (set_stack (some (none ∷ cs)) s)
freed-Owns e cs error s o same = record {
  valid = refl;
  once = o.once.1;
  owned = λ f. ground (arith, o.once, same, o.owned f);
}

free_cases :
    (k : Option (List (Option Ptr))) (error : Ptr) (s : State)
    → Owns (set_stack k s)
    → Returned Owns (free_error error (set_stack k s))
unfolding free_error error_destroy
free_cases none error s o = elim (Bool-cases (s.destroys error)) [
  | inl d ↦ cc (o.owned error)
  | inr d ↦ rw d (returned o)
]
free_cases (some []) error s o = cc o.valid
free_cases (some (none ∷ cs)) error s o = elim (Bool-cases (s.destroys error)) [
  | inl d ↦ rw d (
      Returned->>= (OwnsWithout error) Owns _
        (guarded_by (OwnsWithout error) (error == 0 || true) (λ t. ground (arith, t)))
        (λ s p. returned p))
  | inr d ↦ rw d (returned o)
]
free_cases (some (some e ∷ cs)) error s o = elim (Bool-cases (s.destroys error)) [
  | inl d ↦ rw d (
      Returned->>= (OwnsWithout error) Owns _
        (guarded_by (OwnsWithout error) (error == 0 || not (e == error))
          (λ t. returned (freed-Owns e cs error s o (ground (arith, t)))))
        (λ s p. returned p))
  | inr d ↦ rw d (returned o)
]

push_cases :
    (k : Option (List (Option Ptr))) (s : State)
    → Owns (set_stack k s)
    → Owns (error_push_context (set_stack k s))
unfolding error_push_context error_init
push_cases none s o = record { valid = refl; once = tt; owned = o.owned }
push_cases (some []) s o = record { valid = refl; once = tt; owned = o.owned }
push_cases (some (c ∷ cs)) s o = record { valid = refl; once = o.once; owned = o.owned }

pop_cases :
    (k : Option (List (Option Ptr))) (s : State)
    → Owns (set_stack k s)
    → Returned Owns (error_pop_context (set_stack k s))
unfolding error_pop_context error_clear
pop_cases none s o = asserted
pop_cases (some []) s o = asserted
pop_cases (some (c ∷ [])) s o = asserted
pop_cases (some (none ∷ c ∷ cs)) s o =
    returned (record { valid = refl; once = o.once; owned = o.owned })
pop_cases (some (some e ∷ c ∷ cs)) s o = aborted

-- Every call leaves an error with the destructor just in the one context that holds it, if the
-- error that it raises stands in no context.
pub call-Owns :
    (c : Call) (s : State)
    → Owns s
    → ((error : Ptr) → raised c ≡ some error → s.destroys error ≡ false)
    → Returned Owns (call c s)
unfolding call error_raise error_raise_system error_init
call-Owns (raise filename line function number message error) s o new =
    guarded Owns (not (ltb 0 line) || not (ltb 0 number)) (
      raise_error-Owns filename line function error (new_error error number message (error_init s))
        (new_error-Owns error number message (error_init s) (new error refl) (error_init-Owns s o))
        (ground arith))
call-Owns (raise_system strerror clobbered filename line function error) s o new =
    guarded Owns (not (ltb 0 line) || not (ltb 0 s.errno)) (
      Returned->>= Owns Owns _
        (raise_error-Owns filename line function error
          (record (new_error error s.errno (strerror s.errno) (error_init s)) { errno = clobbered })
          (errno-Owns clobbered _ (
            new_error-Owns error s.errno (strerror s.errno) (error_init s) (new error refl)
              (error_init-Owns s o)))
          (ground arith))
        (λ a p. returned (errno-Owns s.errno a p)))
call-Owns (raise_error filename line function error) s o new =
    raise_error-Owns filename line function error s o (new error refl)
call-Owns get s o new = get_cases s.context_stack s o
call-Owns steal s o new = steal_cases s.context_stack s o
call-Owns (free error) s o new = free_cases s.context_stack error s o
call-Owns push_context s o new = returned (push_cases s.context_stack s o)
call-Owns pop_context s o new = pop_cases s.context_stack s o
