-- ===== src/Ring/Distinct.antt =====
-- No entry is in its list twice.
use libnih.Prelude.{
  Ptr, ◌≡◌, ◌≢◌, ◌≤◌, refl, sym, ap, ◌∙◌, arith, List, [], ◌∷◌, ◌++◌, length, length-append,
  All-behind,
}
use mathlib.Core.Path.{subst}
use libnih.Ring.{Heap}
use libnih.Ring.Segment.{Walk, Avoids, RingOf}

module _ (h : Heap) (l : Ptr) where
  -- Two walks from one entry to the first arrival at `l` visit the same entries.
  Walk-unique :
      (p : Ptr) (xs ys : List Ptr)
      → Walk h p xs l
      → Walk h p ys l
      → Avoids l xs
      → Avoids l ys
      → xs ≡ ys
  Walk-unique p [] [] v w a b = refl
  Walk-unique p [] (y ∷ ys) v w a b = absurd (b.0 (sym w.0 ∙ v))
  Walk-unique p (x ∷ xs) [] v w a b = absurd (a.0 (sym v.0 ∙ w))
  Walk-unique p (x ∷ xs) (y ∷ ys) v w a b =
      let same : y ≡ x = sym w.0 ∙ v.0 in
      ap (◌∷◌ x) (Walk-unique x xs ys v.1 (subst (λ z. Walk h z ys l) same w.1) a.1 b.1)
      ∙ ap (λ z. z ∷ ys) (sym same)

  Walk-behind : (p x : Ptr) (ys zs : List Ptr) → Walk h p (ys ++ x ∷ zs) l → Walk h x zs l
  Walk-behind p x [] zs w = w.1
  Walk-behind p x (y ∷ ys) zs w = Walk-behind y x ys zs w.1

  module _ (x : Ptr) (zs : List Ptr) (walk : Walk h x zs l) (away : Avoids l zs) where
    -- an entry from which a walk of another length goes on to `l`
    differs :
        (y : Ptr) (ws : List Ptr) → Walk h y ws l → Avoids l ws → length ws ≢ length zs → y ≢ x
    differs y ws w a n e =
        n (ap length (Walk-unique x ws zs (subst (λ z. Walk h z ws l) e w) walk a away))

    Avoids-later :
        (p : Ptr) (ws : List Ptr)
        → Walk h p ws l
        → Avoids l ws
        → length ws ≤ length zs
        → Avoids x ws
    Avoids-later p [] w a n = tt
    Avoids-later p (y ∷ ws) w a n =
        (differs y ws w.1 a.1 (omega (arith, n)), Avoids-later y ws w.1 a.1 (omega (arith, n)))

    Avoids-earlier :
        (p : Ptr) (ys : List Ptr)
        → Walk h p (ys ++ x ∷ zs) l
        → Avoids l (ys ++ x ∷ zs)
        → Avoids x ys
    Avoids-earlier p [] w a = tt
    Avoids-earlier p (y ∷ ys) w a = (
      differs y (ys ++ x ∷ zs) w.1 a.1 (omega (arith, length-append ys (x ∷ zs))),
      Avoids-earlier y ys w.1 a.1,
    )

  pub RingOf-once :
      (x : Ptr) (ys zs : List Ptr) → RingOf h l (ys ++ x ∷ zs) → Avoids x ys × Avoids x zs
  RingOf-once x ys zs ring =
      let walk = Walk-behind l x ys zs ring.0 in
      let away = (All-behind (λ z. z ≢ l) ys (x ∷ zs) ring.1).1 in
      (
        Avoids-earlier x zs walk away l ys ring.0 ring.1,
        Avoids-later x zs walk away x zs walk away (omega arith),
      )
