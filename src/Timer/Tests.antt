-- ===== src/Timer/Tests.antt =====
-- nih/timer.c run on three timers.
use libnih.Prelude.{
  ◌≡◌, refl, arith, true, false, none, some, [], ◌∷◌, ◌==◌, if◌then◌else◌, All, if_rule,
}
use libnih.Error.{
  returns, asserts, State, Outcome, Call, raise, free, get, run, error_raise, error_raise_error,
  error_clear, error_init, error_get, free_error, error_destroy, error_push_context,
  error_pop_context,
}
use libnih.Error as Error
use libnih.Timer.{
  Timers, timeout, periodic, Callback, add_timeout, timer_next_due, next_loop, timer_poll,
}
use libnih.Timer.Polled.{IsNext, Handles, timer_next_due-IsNext, timer_poll-Calls}
use libnih.Timer.Changes.{is_future}
use libnih.Timer.Settled.{Ensures, timer_poll-Settled}

-- 1 is a timeout, 2 comes every 5 seconds, and 3 is a timeout that is not due at 12.
abbrev three : Timers
three = record {
  timers = 1 ∷ 2 ∷ 3 ∷ [];
  kind = λ t. if t == 2 then periodic 5 else timeout 9;
  due = λ t. if t == 1 then 10 else if t == 2 then 12 else 20;
  called = [];
}

abbrev calm : Error.State
calm = record {
  context_stack = some (none ∷ []);
  errors = λ p. record { filename = []; line = 0; function = []; number = 0; message = [] };
  destroys = λ p. false;
  errno = 0;
}

-- The first starts another timer.
abbrev restart : Callback
restart t = ([], if t == 1 then add_timeout (some 4) 12 9 ∷ [] else [])

next : timer_next_due three ≡ some 1
unfolding timer_next_due next_loop
next = refl

-- Each raises an error, gets and frees it.
abbrev failing : Callback
failing t = (raise [] 1 [] 5 [] 4 ∷ get ∷ free 4 ∷ [], [])

failing-Handles : Handles failing
unfolding run Error.call error_raise error_raise_error error_clear error_init error_get free_error
    error_destroy
failing-Handles t e = (_, refl, refl)

timer_poll-Calls_example :
    (s : Timers) × (e : State) × (timer_poll 3 12 failing three calm ≡ some (returns (s, e)))
    × (e.context_stack ≡ some (none ∷ []))
    × (s.timers ≡ 2 ∷ 3 ∷ [])
    × (s.called ≡ 1 ∷ 2 ∷ [])
timer_poll-Calls_example =
    timer_poll-Calls 12 failing (λ t. refl) failing-Handles 3 three calm refl
      (refl, (refl, (refl, tt))) (omega arith)

timer_poll-Settled_example :
    (r : Outcome (Timers × State)) × (timer_poll 4 12 restart three calm ≡ some r)
    × Ensures 12 restart r
timer_poll-Settled_example =
    timer_poll-Settled 12 restart 4 three calm
      (λ t. if_rule (All (λ c. is_future 12 c ≡ true)) (t == 1) (λ e. (refl, tt)) (λ e. tt))
      (λ t. ground arith) (omega arith)

timer_next_due-IsNext_example : IsNext three three.timers (timer_next_due three)
timer_next_due-IsNext_example = timer_next_due-IsNext three
