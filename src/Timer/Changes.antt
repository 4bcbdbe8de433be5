-- ===== src/Timer/Changes.antt =====
-- What the changes of the list that a callback makes leave as it was.
use libnih.Prelude.{
  Ptr, ℕ, suc, ◌+◌, ◌≤◌, ◌≡◌, ◌⊎◌, refl, arith, Bool, true, false, none, some, List, [], ◌∷◌, ◌++◌,
  ◌==◌, ltb, if◌then◌else◌, if_rule, All, length,
}
use libnih.Error.{returns}
use libnih.Error.Contexts.{>>=-eq-returns}
use libnih.Timer.{
  Kind, timeout, periodic, scheduled, Timers, set_timer, timer_add_timeout, timer_add_periodic,
  timer_add_scheduled, drop_timer, Change, add_timeout, add_periodic, add_scheduled, remove, Polled,
  change, changes, Callback,
}

abbrev pub is_scheduled : Kind → Bool
is_scheduled (timeout after) = false
is_scheduled (periodic period) = false
is_scheduled (scheduled schedule) = true

-- The assertion of `nih_timer_add_periodic`
abbrev pub is_positive : Kind → Bool
is_positive (timeout after) = true
is_positive (periodic period) = ltb 0 period
is_positive (scheduled schedule) = true

-- A callback adds no timer that is due at once.
abbrev pub is_future : ℕ → Change → Bool
is_future now (add_timeout none at after) = true
is_future now (add_timeout (some t) at after) = ltb now (at + after)
is_future now (add_periodic none at period) = true
is_future now (add_periodic (some t) at period) = ltb now (at + period)
is_future now (add_scheduled none schedule) = true
is_future now (add_scheduled (some t) schedule) = false
is_future now (remove t) = true

module _ (now : ℕ) where
  abbrev pub Settled : Timers → Ptr → Type 0
  Settled s t = (ltb now (s.due t) ≡ true) ⊎ (is_scheduled (s.kind t) ≡ true)

  -- The rounds that the timers behind the cursor may take.
  abbrev pub weight : Callback → Timers → List Ptr → ℕ
  weight callback s [] = 0
  weight callback s (t ∷ ts) =
      (if ltb now (s.due t) then 1 else suc (length (callback t).1)) + weight callback s ts

  module _ (callback : Callback) where
    -- what changes keep
    pub record Goes (P : Ptr → Type 0) (p q : Polled) (k : ℕ) : Type 0 where
      pub later : (t : Ptr) → ltb now (p.1.due t) ≡ true → ltb now (q.1.due t) ≡ true
      pub settled : (t : Ptr) → Settled p.1 t → Settled q.1 t
      pub positive :
          ((t : Ptr) → is_positive (p.1.kind t) ≡ true)
          → (t : Ptr) → is_positive (q.1.kind t) ≡ true
      pub weighs : weight callback q.1 q.1.timers ≤ weight callback p.1 p.1.timers + k
      pub passed : All P p.0 → All P q.0

    weight-append :
        (s : Timers) (xs ys : List Ptr)
        → weight callback s (xs ++ ys) ≡ weight callback s xs + weight callback s ys
    weight-append s [] ys = omega arith
    weight-append s (x ∷ xs) ys = omega (arith, weight-append s xs ys)

    weight-drop_timer :
        (s : Timers) (t : Ptr) (xs : List Ptr)
        → weight callback s (drop_timer t xs) ≤ weight callback s xs
    weight-drop_timer s t [] = omega arith
    weight-drop_timer s t (x ∷ xs) = ground (arith, weight-drop_timer s t xs)

    pub weight-le :
        (s s' : Timers) (xs : List Ptr)
        → ((t : Ptr) → ltb now (s.due t) ≡ true → ltb now (s'.due t) ≡ true)
        → weight callback s' xs ≤ weight callback s xs
    weight-le s s' [] h = omega arith
    weight-le s s' (x ∷ xs) h = ground (arith, weight-le s s' xs h, h x)

    pub All-drop_timer :
        (P : Ptr → Type 0) (t : Ptr) (xs : List Ptr) → All P xs → All P (drop_timer t xs)
    All-drop_timer P t [] a = tt
    All-drop_timer P t (x ∷ xs) a =
        if_rule (All P) (x == t) (λ e. All-drop_timer P t xs a.1)
          (λ e. (a.0, All-drop_timer P t xs a.1))

    set_timer-Goes :
        (P : Ptr → Type 0) (t : Ptr) (k : Kind) (due : ℕ) (p : Polled)
        → ltb now due ≡ true
        → is_positive k ≡ true
        → Goes P p (p.0, set_timer t k due p.1) 1
    set_timer-Goes P t k due p later pos = record {
      later = λ u l. ground (arith, l, later);
      settled = λ u l. ground (arith, l, later);
      positive = λ h u. ground (arith, h u, pos);
      weighs = ground (
        arith,
        weight-append (set_timer t k due p.1) p.1.timers (t ∷ []),
        weight-le p.1 (set_timer t k due p.1) p.1.timers (λ u l. ground (arith, l, later)),
        later,
      );
      passed = λ a. a;
    }

    Goes-refl : (P : Ptr → Type 0) (p : Polled) (k : ℕ) → Goes P p p k
    Goes-refl P p k = record {
      later = λ t l. l;
      settled = λ t l. l;
      positive = λ h. h;
      weighs = omega arith;
      passed = λ a. a;
    }

    Goes-trans :
        (P : Ptr → Type 0) (p q r : Polled) (j k : ℕ)
        → Goes P p q j
        → Goes P q r k
        → Goes P p r (j + k)
    Goes-trans P p q r j k a b = record {
      later = λ t l. b.later t (a.later t l);
      settled = λ t l. b.settled t (a.settled t l);
      positive = λ h. b.positive (a.positive h);
      weighs = omega (arith, a.weighs, b.weighs);
      passed = λ x. b.passed (a.passed x);
    }

    pub drop_timer-Goes :
        (P : Ptr → Type 0) (t : Ptr) (p : Polled) (k : ℕ)
        → Goes P p (drop_timer t p.0, record p.1 { timers = drop_timer t p.1.timers }) k
    drop_timer-Goes P t p k = record {
      later = λ u l. l;
      settled = λ u l. l;
      positive = λ h. h;
      weighs = omega (
        arith,
        weight-drop_timer p.1 t p.1.timers,
        weight-le p.1 (record p.1 { timers = drop_timer t p.1.timers }) (drop_timer t p.1.timers)
            (λ u l. l),
      );
      passed = All-drop_timer P t p.0;
    }

    change-Goes :
        (P : Ptr → Type 0) (c : Change) (p q : Polled)
        → is_future now c ≡ true
        → change c p ≡ returns q
        → Goes P p q 1
    unfolding change timer_add_timeout timer_add_periodic timer_add_scheduled
    change-Goes P (add_timeout none at after) p q f e =
        let same : p ≡ q = cc in rw (← same) (Goes-refl P p 1)
    change-Goes P (add_timeout (some t) at after) p q f e =
        let same : (p.0, set_timer t (timeout after) (at + after) p.1) ≡ q = cc in
        rw (← same) (set_timer-Goes P t (timeout after) (at + after) p f refl)
    change-Goes P (add_periodic none at period) p q f e =
        let same : p ≡ q = ground (arith, e) in rw (← same) (Goes-refl P p 1)
    change-Goes P (add_periodic (some t) at period) p q f e =
        let same : (p.0, set_timer t (periodic period) (at + period) p.1) ≡ q = ground (arith, e) in
        rw (← same) (set_timer-Goes P t (periodic period) (at + period) p f (ground (arith, e)))
    change-Goes P (add_scheduled none schedule) p q f e =
        let same : p ≡ q = cc in rw (← same) (Goes-refl P p 1)
    change-Goes P (add_scheduled (some t) schedule) p q f e = cc
    change-Goes P (remove t) p q f e =
        let same : (drop_timer t p.0, record p.1 { timers = drop_timer t p.1.timers }) ≡ q = cc in
        rw (← same) (drop_timer-Goes P t p 1)

    pub changes-Goes :
        (P : Ptr → Type 0) (cs : List Change) (p q : Polled)
        → All (λ c. is_future now c ≡ true) cs
        → changes cs p ≡ returns q
        → Goes P p q (length cs)
    unfolding changes
    changes-Goes P [] p q f e = let same : p ≡ q = cc in rw (← same) (Goes-refl P p 0)
    changes-Goes P (c ∷ cs) p q f e =
        let r = >>=-eq-returns (change c p) (changes cs) e in
        let both =
          Goes-trans P p r.0 q 1 (length cs) (change-Goes P c p r.0 f.0 r.1)
            (changes-Goes P cs r.0 q f.1 r.2) in
        record {
          later = both.later;
          settled = both.settled;
          positive = both.positive;
          weighs = omega (arith, both.weighs);
          passed = both.passed;
        }
