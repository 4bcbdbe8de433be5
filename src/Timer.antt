-- ===== src/Timer.antt =====
-- nih/timer.c: the list of timers, which of them is due next, and the calls of those that are due.
-- What a callback does with errors is run as Error.antt says.
pub mod Polled
pub mod Changes
pub mod Settled
mod Tests
use libnih.Prelude.{
  Ptr, update, ℕ, zero, suc, ◌+◌, Bool, true, false, not, Option, none, some, List, [], ◌∷◌, ◌++◌,
  ◌==◌, ltb, if◌then◌else◌,
}
use libnih.Error.{Outcome, returns, asserts, aborts, ◌>>=◌, Call, push_context, pop_context, run}
use libnih.Error as Error

-- `NihTimerSchedule`, which the code only stores.
pub record Schedule : Type 0 where
  pub minutes : ℕ
  pub hours : ℕ
  pub mdays : ℕ
  pub months : ℕ
  pub wdays : ℕ

-- `NihTimerType`, with what the union holds
pub data Kind : Type 0 where
  timeout : ℕ → Kind
  periodic : ℕ → Kind
  scheduled : Schedule → Kind

-- `nih_timers`, from its first entry on; the fields of every timer; and the timers that have been
-- called, in order.
pub record Timers : Type 0 where
  pub timers : List Ptr
  pub kind : Ptr → Kind
  pub due : Ptr → ℕ
  pub called : List Ptr

abbrev pub set_timer : Ptr → Kind → ℕ → Timers → Timers
set_timer t kind due s = record s {
  timers = s.timers ++ t ∷ [];
  kind = update s.kind t kind;
  due = update s.due t due;
}

-- `timer` is what `nih_new` returns, and `now` the clock in seconds.
unfoldable pub timer_add_timeout : Option Ptr → ℕ → ℕ → Timers → Option Ptr × Timers
timer_add_timeout none now after s = (none, s)
timer_add_timeout (some t) now after s = (some t, set_timer t (timeout after) (now + after) s)

-- `asserts` where the period is 0
unfoldable pub timer_add_periodic : Option Ptr → ℕ → ℕ → Timers → Outcome (Option Ptr × Timers)
timer_add_periodic timer now period s = if not (ltb 0 period) then asserts else elim timer [
  | none ↦ returns (none, s)
  | some t ↦ returns (some t, set_timer t (periodic period) (now + period) s)
]

unfoldable pub timer_add_scheduled : Option Ptr → Schedule → Timers → Option Ptr × Timers
timer_add_scheduled none schedule s = (none, s)
timer_add_scheduled (some t) schedule s = (some t, set_timer t (scheduled schedule) 0 s)

unfoldable pub next_loop : Timers → Option Ptr → List Ptr → Option Ptr
next_loop s next [] = next
next_loop s none (t ∷ ts) = next_loop s (some t) ts
next_loop s (some next) (t ∷ ts) =
    next_loop s (if ltb (s.due t) (s.due next) then some t else some next) ts

unfoldable pub timer_next_due : Timers → Option Ptr
timer_next_due s = next_loop s none s.timers

-- `nih_list_remove` of a timer
abbrev pub drop_timer : Ptr → List Ptr → List Ptr
drop_timer t [] = []
drop_timer t (u ∷ us) = if u == t then drop_timer t us else u ∷ drop_timer t us

-- What a callback may do to the list.
pub data Change : Type 0 where
  add_timeout : Option Ptr → ℕ → ℕ → Change
  add_periodic : Option Ptr → ℕ → ℕ → Change
  add_scheduled : Option Ptr → Schedule → Change
  remove : Ptr → Change

-- The list while it is polled: what the cursor has passed, and, in `timers`, what is behind it.
abbrev pub Polled : Type 0
Polled = List Ptr × Timers

unfoldable pub change : Change → Polled → Outcome Polled
change (add_timeout t now after) p = returns (p.0, (timer_add_timeout t now after p.1).1)
change (add_periodic t now period) p =
    timer_add_periodic t now period p.1 >>= λ r. returns (p.0, r.1)
change (add_scheduled t schedule) p = returns (p.0, (timer_add_scheduled t schedule p.1).1)
change (remove t) p = returns (drop_timer t p.0, record p.1 { timers = drop_timer t p.1.timers })

unfoldable pub changes : List Change → Polled → Outcome Polled
changes [] p = returns p
changes (c ∷ cs) p = change c p >>= changes cs

abbrev pub is_timeout : Kind → Bool
is_timeout (timeout after) = true
is_timeout (periodic period) = false
is_timeout (scheduled schedule) = false

abbrev pub reset_due : Kind → ℕ → ℕ → ℕ
reset_due (timeout after) now due = due
reset_due (periodic period) now due = now + period
reset_due (scheduled schedule) now due = 0

-- What a callback does: with errors, and with the list.
abbrev pub Callback : Type 0
Callback = Ptr → List Call × List Change

-- A timeout is freed after its call.
abbrev pub free_done : Kind → Ptr → Polled → Polled
free_done k t p =
    if is_timeout k then (drop_timer t p.0, record p.1 { timers = drop_timer t p.1.timers }) else p

-- The timer when it is called
abbrev pub reset : ℕ → Ptr → List Ptr → Timers → Timers
reset now t todo s = record s {
  timers = todo;
  due = update s.due t (reset_due (s.kind t) now (s.due t));
  called = s.called ++ t ∷ [];
}

unfoldable pub poll_round :
    ℕ → Callback → Ptr → List Ptr → List Ptr → Timers → Error.State → Outcome (Polled × Error.State)
poll_round now callback t passed todo s e =
    if ltb now (s.due t)
    then returns ((passed ++ t ∷ [], record s { timers = todo }), e)
    else run (push_context ∷ ((callback t).0 ++ pop_context ∷ [])) e >>= λ f.
        changes (callback t).1 (passed ++ t ∷ [], reset now t todo s) >>= λ p.
        returns (free_done (s.kind t) t p, f)

-- `none` means that the rounds have run out.
unfoldable pub poll_loop :
    ℕ
    → ℕ
    → Callback
    → List Ptr
    → List Ptr
    → Timers
    → Error.State
    → Option (Outcome (Timers × Error.State))
poll_loop n now callback passed [] s e = some (returns (record s { timers = passed }, e))
poll_loop zero now callback passed (t ∷ todo) s e = none
poll_loop (suc n) now callback passed (t ∷ todo) s e =
    elim (poll_round now callback t passed todo s e) [
      | returns (p, f) ↦ poll_loop n now callback p.0 p.1.timers p.1 f
      | asserts ↦ some asserts
      | aborts x ↦ some (aborts x)
    ]

unfoldable pub timer_poll :
    ℕ → ℕ → Callback → Timers → Error.State → Option (Outcome (Timers × Error.State))
timer_poll n now callback s e = poll_loop n now callback [] s.timers s e
