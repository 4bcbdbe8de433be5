-- ===== src/Timer/Settled.antt =====
-- A poll ends, and no timer is due after it.
use libnih.Prelude.{
  Ptr, ℕ, zero, suc, ◌+◌, ◌≤◌, ◌≡◌, ◌⊎◌, inl, inr, refl, arith, true, false, Bool-cases, some, List,
  [], ◌∷◌, ◌++◌, ◌==◌, ltb, if_rule, All, All-append, All-map,
}
use libnih.Error.{Outcome, returns, asserts, aborts, ◌>>=◌, Call, push_context, pop_context, run}
use libnih.Error as Error
use libnih.Error.Contexts.{>>=-eq-returns}
use libnih.Timer.{
  Kind, timeout, periodic, scheduled, Timers, drop_timer, Polled, changes, is_timeout, reset_due,
  Callback, free_done, reset, poll_round, poll_loop, timer_poll,
}
use libnih.Timer.Changes.{
  weight-le, drop_timer-Goes, changes-Goes, is_scheduled, is_positive, is_future, Settled, weight,
}

module _ (now : ℕ) where
  module _ (callback : Callback) where
    -- What a round needs and leaves.
    record Stands (passed : List Ptr) (s : Timers) : Type 0 where
      pub done : All (Settled now s) passed
      pub positive : (t : Ptr) → is_positive (s.kind t) ≡ true

    reset-later :
        (t : Ptr) (todo : List Ptr) (s : Timers) (u : Ptr)
        → ltb now (s.due t) ≡ false
        → ltb now (s.due u) ≡ true
        → ltb now ((reset now t todo s).due u) ≡ true
    reset-later t todo s u d l = ground (arith, d, l)

    reset-Settled :
        (t : Ptr) (todo : List Ptr) (s : Timers)
        → is_positive (s.kind t) ≡ true
        → is_timeout (s.kind t) ≡ false
        → Settled now (reset now t todo s) t
    reset-Settled t todo s p k = ground (arith, settles (s.kind t) p k)
      where
        settles :
            (k : Kind)
            → is_positive k ≡ true
            → is_timeout k ≡ false
            → (ltb now (reset_due k now (s.due t)) ≡ true) ⊎ (is_scheduled k ≡ true)
        settles (timeout after) p k = cc
        settles (periodic period) p k = inl (ground (arith, p))
        settles (scheduled schedule) p k = inr refl

    drop_timer-others :
        (Q : Ptr → Type 0) (t : Ptr) (xs : List Ptr)
        → All (λ u. Q u ⊎ ((u == t) ≡ true)) xs
        → All Q (drop_timer t xs)
    drop_timer-others Q t [] a = tt
    drop_timer-others Q t (x ∷ xs) a =
        if_rule (All Q) (x == t) (λ e. drop_timer-others Q t xs a.1)
          (λ e. (ground (arith, a.0, e), drop_timer-others Q t xs a.1))

    -- the call of a timer that is due
    called_round :
        (t : Ptr) (passed todo : List Ptr) (s : Timers) (q : Polled)
        → Stands passed s
        → ltb now (s.due t) ≡ false
        → All (λ c. is_future now c ≡ true) (callback t).1
        → changes (callback t).1 (passed ++ t ∷ [], reset now t todo s) ≡ returns q
        → let p = free_done (s.kind t) t q in
          Stands p.0 p.1
          × (weight now callback p.1 p.1.timers + 1 ≤ weight now callback s (t ∷ todo))
    called_round t passed todo s q st d future e =
        let P : Ptr → Type 0 = λ u. Settled now q.1 u ⊎ ((u == t) ≡ true) in
        let goes =
          changes-Goes now callback P (callback t).1 (passed ++ t ∷ [], reset now t todo s) q future
            e in
        let old : (u : Ptr) → Settled now s u → P u = λ u l. elim (Bool-cases (u == t)) [
          | inl same ↦ inr same
          | inr other ↦ inl (goes.settled u (ground (arith, l, other)))
        ] in
        let all : All P q.0 = goes.passed (
          All-append P passed (t ∷ []) (All-map (Settled now s) P passed old st.done)
            (inr (ground arith), tt)) in
        let positive = goes.positive st.positive in
        let light : weight now callback q.1 q.1.timers + 1 ≤ weight now callback s (t ∷ todo) =
          ground (
            arith,
            d,
            goes.weighs,
            weight-le now callback s (reset now t todo s) todo (λ u l. reset-later t todo s u d l),
          ) in
        elim (Bool-cases (is_timeout (s.kind t))) [
          | inl k ↦
              let r = drop_timer-Goes now callback P t q 0 in
              rw k (
                record {
                  done = drop_timer-others (Settled now q.1) t q.0 all;
                  positive = positive;
                },
                omega (arith, r.weighs, light),
              )
          | inr k ↦
              let here : Settled now q.1 t =
                goes.settled t (reset-Settled t todo s (st.positive t) k) in
              rw k (
                record {
                  done = All-map P (Settled now q.1) q.0 (λ u a. ground (arith, a, here)) all;
                  positive = positive;
                },
                light,
              )
        ]

    poll_round-Stands :
        (t : Ptr) (passed todo : List Ptr) (s : Timers) (e : Error.State) (p : Polled)
        (f : Error.State)
        → Stands passed s
        → All (λ c. is_future now c ≡ true) (callback t).1
        → poll_round now callback t passed todo s e ≡ returns (p, f)
        → Stands p.0 p.1
          × (weight now callback p.1 p.1.timers + 1 ≤ weight now callback s (t ∷ todo))
    unfolding poll_round
    poll_round-Stands t passed todo s e p f st future r = elim (Bool-cases (ltb now (s.due t))) [
      | inl l ↦
          let same : (passed ++ t ∷ [], record s { timers = todo }) ≡ p = ground (arith, l, r) in
          rw (← same) (
            record {
              done = All-append (Settled now s) passed (t ∷ []) st.done (inl l, tt);
              positive = st.positive;
            },
            ground
                (arith, l, weight-le now callback s (record s { timers = todo }) todo (λ u l. l)),
          )
      | inr d ↦
          let first =
            >>=-eq-returns {A = Error.State} {B = Polled × Error.State}
              (run (push_context ∷ ((callback t).0 ++ pop_context ∷ [])) e)
              (λ f. changes (callback t).1 (passed ++ t ∷ [], reset now t todo s) >>= λ p.
                returns (free_done (s.kind t) t p, f))
              {t = (p, f)} (ground (arith, d, r)) in
          let second =
            >>=-eq-returns {A = Polled} {B = Polled × Error.State}
              (changes (callback t).1 (passed ++ t ∷ [], reset now t todo s))
              (λ p. returns (free_done (s.kind t) t p, first.0)) {t = (p, f)} first.2 in
          let same : free_done (s.kind t) t second.0 ≡ p = cc (second.2) in
          rw (← same) (called_round t passed todo s second.0 st d future second.1)
    ]

    -- What a poll leaves, if the callbacks return.
    abbrev pub Ensures : Outcome (Timers × Error.State) → Type 0
    Ensures (returns r) = All (Settled now r.0) r.0.timers
    Ensures asserts = Unit
    Ensures (aborts x) = Unit

    poll_loop_settles :
        (n : ℕ) (passed todo : List Ptr) (s : Timers) (e : Error.State)
        → ((t : Ptr) → All (λ c. is_future now c ≡ true) (callback t).1)
        → Stands passed s
        → weight now callback s todo ≤ n
        → (r : Outcome (Timers × Error.State)) × (poll_loop n now callback passed todo s e ≡ some r)
          × Ensures r
    unfolding poll_loop
    poll_loop_settles n passed [] s e future st w = (
      returns (record s { timers = passed }, e),
      refl,
      All-map (Settled now s) (Settled now (record s { timers = passed })) passed (λ t l. l)
          st.done,
    )
    poll_loop_settles zero passed (t ∷ todo) s e future st w = absurd (ground (arith, w))
    poll_loop_settles (suc n) passed (t ∷ todo) s e future st w =
        next (poll_round now callback t passed todo s e)
          (λ p f r. poll_round-Stands t passed todo s e p f st (future t) r)
          (λ p f st' l. poll_loop_settles n p.0 p.1.timers p.1 f future st' (omega (arith, w, l)))
      where
        next :
            (o : Outcome (Polled × Error.State))
            → ((p : Polled) (f : Error.State)
                → o ≡ returns (p, f)
                → Stands p.0 p.1
                  × (weight now callback p.1 p.1.timers + 1 ≤ weight now callback s (t ∷ todo)))
            → ((p : Polled) (f : Error.State)
                → Stands p.0 p.1
                → weight now callback p.1 p.1.timers + 1 ≤ weight now callback s (t ∷ todo)
                → (r : Outcome (Timers × Error.State)) × (poll_loop n now callback p.0 p.1.timers
                      p.1 f
                    ≡ some r)
                  × Ensures r)
            → (r : Outcome (Timers × Error.State)) × (elim o [
              | returns (p, f) ↦ poll_loop n now callback p.0 p.1.timers p.1 f
              | asserts ↦ some asserts
              | aborts x ↦ some (aborts x)
            ]
                ≡ some r)
              × Ensures r
        next (returns (p, f)) st' rest = let x = st' p f refl in rest p f x.0 x.1
        next asserts st' rest = (asserts, refl, tt)
        next (aborts x) st' rest = (aborts x, refl, tt)

    -- A poll, whose timers have positive periods and whose callbacks add no timer that is due at
    -- once, ends in as many rounds as there are timers and changes that the callbacks make; unless
    -- a callback fails an assertion or leaves an error, every timer in the list then is due later
    -- than now, or is a scheduled one.
    pub timer_poll-Settled :
        (n : ℕ) (s : Timers) (e : Error.State)
        → ((t : Ptr) → All (λ c. is_future now c ≡ true) (callback t).1)
        → ((t : Ptr) → is_positive (s.kind t) ≡ true)
        → weight now callback s s.timers ≤ n
        → (r : Outcome (Timers × Error.State)) × (timer_poll n now callback s e ≡ some r)
          × Ensures r
    unfolding timer_poll
    timer_poll-Settled n s e future positive w =
        poll_loop_settles n [] s.timers s e future (record { done = tt; positive = positive }) w
