-- ===== src/Timer/Polled.antt =====
-- Which timer is due next, and which are called.
use libnih.Prelude.{
  Ptr, update, ℕ, zero, suc, ◌≤◌, ◌<◌, ◌≡◌, inl, inr, refl, sym, ap, ◌∙◌, arith, Bool, true, false,
  not, ◌&&◌, ◌||◌, Bool-cases, Option, none, some, List, [], ◌∷◌, ◌++◌, ◌==◌, ltb, if◌then◌else◌,
  All, All-map, All-append, append_assoc, append-nil, length,
}
use libnih.Error.{
  Outcome, returns, asserts, aborts, ◌>>=◌, Call, push_context, pop_context, run, set_stack,
}
use libnih.Error as Error
use libnih.Error.Contexts.{is_there, run-Hidden}
use libnih.Timer.{
  Kind, timeout, periodic, scheduled, Timers, next_loop, timer_next_due, drop_timer, Polled,
  changes, is_timeout, reset_due, Callback, reset, poll_round, poll_loop, timer_poll,
}

-- The first of the timers that are due soonest, if there is one.
abbrev pub IsNext : Timers → List Ptr → Option Ptr → Type 0
IsNext s ts none = ts ≡ []
IsNext s ts (some t) =
    (before : List Ptr) × (behind : List Ptr) × (ts ≡ before ++ t ∷ behind)
    × All (λ u. s.due t < s.due u) before
    × All (λ u. s.due t ≤ s.due u) behind

next_loop-IsNext :
    (s : Timers) (all : List Ptr) (t : Ptr) (before behind ts : List Ptr)
    → all ≡ (before ++ t ∷ behind) ++ ts
    → All (λ u. s.due t < s.due u) before
    → All (λ u. s.due t ≤ s.due u) behind
    → IsNext s all (next_loop s (some t) ts)
unfolding next_loop
next_loop-IsNext s all t before behind [] e a b =
    (before, behind, e ∙ append-nil (before ++ t ∷ behind), a, b)
next_loop-IsNext s all t before behind (u ∷ ts) e a b =
    elim (Bool-cases (ltb (s.due u) (s.due t))) [
      | inl l ↦
          let less : s.due u < s.due t = ground (arith, l) in
          rw l (
            next_loop-IsNext s all u (before ++ t ∷ behind) [] ts
              (e ∙ sym (append_assoc (before ++ t ∷ behind) (u ∷ []) ts))
              (All-append (λ v. s.due u < s.due v) before (t ∷ behind)
                (All-map (λ v. s.due t < s.due v) (λ v. s.due u < s.due v) before
                  (λ v h. omega (arith, h, less)) a)
                (
                  less,
                  All-map (λ v. s.due t ≤ s.due v) (λ v. s.due u < s.due v) behind
                      (λ v h. omega (arith, h, less)) b,
                ))
              tt)
      | inr g ↦ rw g (
          next_loop-IsNext s all t before (behind ++ u ∷ []) ts (e ∙ simp append_assoc) a
            (All-append (λ v. s.due t ≤ s.due v) behind (u ∷ []) b (ground (arith, g), tt)))
    ]

-- `timer_next_due` is the first in the list of the timers that are due soonest, and none if the
-- list is empty.
pub timer_next_due-IsNext : (s : Timers) → IsNext s s.timers (timer_next_due s)
unfolding timer_next_due next_loop
timer_next_due-IsNext s = start s.timers
  where
    start : (ts : List Ptr) → IsNext s ts (next_loop s none ts)
    start [] = refl
    start (t ∷ ts) = next_loop-IsNext s (t ∷ ts) t [] [] ts refl tt tt

abbrev pub has : Ptr → List Ptr → Bool
has t [] = false
has t (u ∷ us) = t == u || has t us

abbrev pub Distinct : List Ptr → Type 0
Distinct [] = Unit
Distinct (t ∷ ts) = (has t ts ≡ false) × Distinct ts

-- those that are due
abbrev pub due_of : ℕ → Timers → List Ptr → List Ptr
due_of now s [] = []
due_of now s (t ∷ ts) = if ltb now (s.due t) then due_of now s ts else t ∷ due_of now s ts

-- those that stay: all but the timeouts that are due
abbrev pub stays : ℕ → Timers → List Ptr → List Ptr
stays now s [] = []
stays now s (t ∷ ts) =
    if not (ltb now (s.due t)) && is_timeout (s.kind t) then stays now s ts else t ∷ stays now s ts

drop_timer-absent : (t : Ptr) (ts : List Ptr) → has t ts ≡ false → drop_timer t ts ≡ ts
drop_timer-absent t [] h = refl
drop_timer-absent t (u ∷ us) h = ground (arith, h, drop_timer-absent t us)

drop_timer-last : (t : Ptr) (ts : List Ptr) → has t ts ≡ false → drop_timer t (ts ++ t ∷ []) ≡ ts
drop_timer-last t [] h = ground arith
drop_timer-last t (u ∷ us) h = ground (arith, h, drop_timer-last t us)

has-append : (t : Ptr) (xs ys : List Ptr) → has t (xs ++ ys) ≡ has t xs || has t ys
has-append t [] ys = refl
has-append t (x ∷ xs) ys = ground (arith, has-append t xs ys)

module _ (now : ℕ) (s : Timers) (t : Ptr) (due : Ptr → ℕ)
    (same : (u : Ptr) → (u == t) ≡ false → due u ≡ s.due u) (called timers : List Ptr) where
  abbrev other : Timers
  other = record s { due = due; called = called; timers = timers }

  due_of-same : (ts : List Ptr) → has t ts ≡ false → due_of now other ts ≡ due_of now s ts
  due_of-same [] h = refl
  due_of-same (u ∷ us) h = ground (arith, h, due_of-same us, same u)

  stays-same : (ts : List Ptr) → has t ts ≡ false → stays now other ts ≡ stays now s ts
  stays-same [] h = refl
  stays-same (u ∷ us) h = ground (arith, h, stays-same us, same u)

abbrev kept : Kind → Ptr → List Ptr
kept k t = if is_timeout k then [] else t ∷ []

kept-append :
    (k : Kind) (t : Ptr) (passed rest : List Ptr)
    → (passed ++ kept k t) ++ rest ≡ passed ++ (if is_timeout k then rest else t ∷ rest)
kept-append (timeout after) t passed rest = rw (append-nil passed) refl
kept-append (periodic period) t passed rest = append_assoc passed (t ∷ []) rest
kept-append (scheduled schedule) t passed rest = append_assoc passed (t ∷ []) rest

-- A callback's program, run in a context of its own from any state, returns to that context with no
-- error pending.
abbrev pub Handles : Callback → Type 0
Handles callback =
    (t : Ptr) (e : Error.State)
    → (f : Error.State) × (run (callback t).0 (set_stack (some (none ∷ [])) e) ≡ returns f)
      × (f.context_stack ≡ some (none ∷ []))

module _ (now : ℕ) (callback : Callback) (quiet : (t : Ptr) → (callback t).1 ≡ [])
    (handles : Handles callback) where
  -- After the call the contexts are as they were.
  called_back :
      (t : Ptr) (e : Error.State)
      → is_there e.context_stack ≡ true
      → (f : Error.State) × (run (push_context ∷ ((callback t).0 ++ pop_context ∷ [])) e
          ≡ returns f)
        × (f.context_stack ≡ e.context_stack)
  called_back t e there =
      let h = handles t e in
      (set_stack e.context_stack h.0, run-Hidden (callback t).0 e h.0 none there h.1 h.2, refl)

  round_early :
      (t : Ptr) (passed todo : List Ptr) (s : Timers) (e : Error.State)
      → ltb now (s.due t) ≡ true
      → poll_round now callback t passed todo s e
        ≡ returns ((passed ++ t ∷ [], record s { timers = todo }), e)
  unfolding poll_round
  round_early t passed todo s e l = rw l refl

  round_due :
      (t : Ptr) (passed todo : List Ptr) (s : Timers) (e f : Error.State)
      → run (push_context ∷ ((callback t).0 ++ pop_context ∷ [])) e ≡ returns f
      → ltb now (s.due t) ≡ false
      → has t passed ≡ false
      → has t todo ≡ false
      → poll_round now callback t passed todo s e
        ≡ returns ((passed ++ kept (s.kind t) t, reset now t todo s), f)
  unfolding poll_round changes
  round_due t passed todo s e f h l a b =
      rw (l, h, quiet t)
        (elim (Bool-cases (is_timeout (s.kind t))) [
          | inl k ↦
              rw (k, drop_timer-last t passed a, drop_timer-absent t todo b, append-nil passed) refl
          | inr k ↦ rw k refl
        ])

  step :
      (n : ℕ) (t : Ptr) (passed todo : List Ptr) (s : Timers) (p : Polled) (e f : Error.State)
      → poll_round now callback t passed todo s e ≡ returns (p, f)
      → poll_loop (suc n) now callback passed (t ∷ todo) s e
        ≡ poll_loop n now callback p.0 p.1.timers p.1 f
  unfolding poll_loop
  step n t passed todo s p e f r = rw (poll_loop, r) refl

  abbrev Calls : ℕ → List Ptr → List Ptr → Timers → Error.State → Type 0
  Calls n passed todo s e =
      (s' : Timers) × (e' : Error.State) × (poll_loop n now callback passed todo s e
        ≡ some (returns (s', e')))
      × (e'.context_stack ≡ e.context_stack)
      × (s'.timers ≡ passed ++ stays now s todo)
      × (s'.called ≡ s.called ++ due_of now s todo)

  poll_loop-Calls :
      (n : ℕ) (passed todo : List Ptr) (s : Timers) (e : Error.State)
      → is_there e.context_stack ≡ true
      → Distinct todo
      → ((t : Ptr) → has t todo ≡ true → has t passed ≡ false)
      → length todo ≤ n
      → Calls n passed todo s e
  unfolding poll_loop
  poll_loop-Calls n passed [] s e there d apart m = (
    record s { timers = passed },
    e,
    refl,
    refl,
    sym (append-nil passed),
    sym (append-nil s.called),
  )
  poll_loop-Calls zero passed (t ∷ todo) s e there d apart m = absurd (omega arith)
  poll_loop-Calls (suc n) passed (t ∷ todo) s e there d apart m =
      elim (Bool-cases (ltb now (s.due t))) [
        | inl l ↦
            let rest =
              poll_loop-Calls n (passed ++ t ∷ []) todo (record s { timers = todo }) e there d.1
                (λ u h. ground (arith, h, d.0, has-append u passed (t ∷ []), apart u))
                (omega arith) in
            let same = stays-same now s t s.due (λ u h. refl) s.called todo todo d.0 in
            let same' = due_of-same now s t s.due (λ u h. refl) s.called todo todo d.0 in
            (
              rest.0,
              rest.1,
              step n t passed todo s _ e e (round_early t passed todo s e l) ∙ rest.2,
              rest.3,
              rest.4 ∙ rw (l, same) (append_assoc passed (t ∷ []) (stays now s todo)),
              rest.5 ∙ rw (l, same') refl,
            )
        | inr g ↦
            let back = called_back t e there in
            let rest =
              poll_loop-Calls n (passed ++ kept (s.kind t) t) todo (reset now t todo s) back.0
                (ap is_there back.2 ∙ there) d.1
                (λ u h. ground (arith, h, d.0, has-append u passed (kept (s.kind t) t), apart u))
                (omega arith) in
            let due' = update s.due t (reset_due (s.kind t) now (s.due t)) in
            let other : (u : Ptr) → (u == t) ≡ false → due' u ≡ s.due u =
              λ u h. ground (arith, h) in
            let same = stays-same now s t due' other (s.called ++ t ∷ []) todo todo d.0 in
            let same' = due_of-same now s t due' other (s.called ++ t ∷ []) todo todo d.0 in
            let first = round_due t passed todo s e back.0 back.1 g (apart t (ground arith)) d.0 in
            (
              rest.0,
              rest.1,
              step n t passed todo s _ e back.0 first ∙ rest.2,
              rest.3 ∙ back.2,
              rest.4 ∙ rw (g, same) (kept-append (s.kind t) t passed (stays now s todo)),
              rest.5 ∙ rw (g, same') (append_assoc s.called (t ∷ []) (due_of now s todo)),
            )
      ]

  -- A poll, from a state that has an error context, whose callbacks leave the list alone and, each
  -- in a context of its own, return with no error pending, whatever errors they raise and deal
  -- with, ends in as many rounds as there are timers, with the contexts as they were: exactly those
  -- that are due are called, in their order, the timeouts among them leave the list, and the others
  -- stay.
  pub timer_poll-Calls :
      (n : ℕ) (s : Timers) (e : Error.State)
      → is_there e.context_stack ≡ true
      → Distinct s.timers
      → length s.timers ≤ n
      → (s' : Timers) × (e' : Error.State) × (timer_poll n now callback s e
          ≡ some (returns (s', e')))
        × (e'.context_stack ≡ e.context_stack)
        × (s'.timers ≡ stays now s s.timers)
        × (s'.called ≡ s.called ++ due_of now s s.timers)
  unfolding timer_poll
  timer_poll-Calls n s e there d m = poll_loop-Calls n [] s.timers s e there d (λ t h. refl) m
