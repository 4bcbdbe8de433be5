-- ===== src/Tree/Visit/Reaches.antt =====
-- What a loop over the nodes returns, in as many rounds as it takes; the visible part of a tree.
use libnih.Prelude.{
  Ptr, ℕ, zero, suc, ◌≡◌, ◌≢◌, ◌≤◌, ◌⊎◌, inl, inr, ap, ◌∙◌, arith, Bool, true, false, Option, some,
  List, [], ◌∷◌, ◌++◌,
}
use libnih.Tree.{Heap}
use libnih.Tree.Visit.{Round, stop, go, visit, climb, resume, loop, start}

-- The shape of the visible part: a leaf is `NULL`, or a node that the filter hides.
pub data Shape : Type 0 where
  leaf : Shape
  branch : Shape → Shape → Shape

abbrev pub head_or : Ptr → List Ptr → Ptr
head_or r [] = r
head_or r (x ∷ xs) = x

-- Each node steps to the one behind it, and the last to `r`.
abbrev pub Chain : (Ptr → Ptr → Type 0) → List Ptr → Ptr → Type 0
Chain Steps [] r = Unit
Chain Steps (x ∷ xs) r = Steps x (head_or r xs) × Chain Steps xs r

pub Chain-append :
    (Steps : Ptr → Ptr → Type 0) (xs ys : List Ptr) (r : Ptr)
    → Chain Steps xs (head_or r ys)
    → Chain Steps ys r
    → Chain Steps (xs ++ ys) r
Chain-append Steps [] ys r a b = b
Chain-append Steps (x ∷ []) ys r a b = (a.0, b)
Chain-append Steps (x ∷ y ∷ xs) ys r a b = (a.0, Chain-append Steps (y ∷ xs) ys r a.1 b)

-- A function of a number of rounds returns `r`, given enough of them.
abbrev pub Ends : (ℕ → Option Ptr) → Ptr → Type 0
Ends f r = (n : ℕ) × ((m : ℕ) → n ≤ m → f m ≡ some r)

module _ (h : Heap) (filter : Ptr → Bool) (tree : Ptr) where
  -- A child of `p`, which has the parent `par`: hidden, or not one of the nodes above it.
  abbrev pub IsChild : Ptr → Ptr → Type 0
  IsChild par c = (visit h filter tree c ≡ false) ⊎ ((c ≢ par) × (c ≢ tree))

  abbrev pub IsTree : Ptr → Ptr → Shape → Type 0
  IsTree par p leaf = visit h filter tree p ≡ false
  IsTree par p (branch l r) =
      (visit h filter tree p ≡ true)
      × (h.parent p ≡ par)
      × IsChild par (h.left p)
      × IsChild par (h.right p)
      × ((visit h filter tree (h.left p) ≡ false) ⊎ (h.left p ≢ h.right p))
      × IsTree p (h.left p) l
      × IsTree p (h.right p) r

  pub visit-real : (p : Ptr) → visit h filter tree p ≡ true → p ≢ 0
  visit-real p e q = ground (arith, e, q)

  pub parent-child :
      (p c : Ptr) (s : Shape) → visit h filter tree c ≡ true → IsTree p c s → h.parent c ≡ p
  parent-child p c leaf v t = cc
  parent-child p c (branch l r) v t = t.1

  module _ (round : Ptr → Ptr → Round) where
    abbrev pub Reaches : Ptr → Ptr → Ptr → Type 0
    Reaches prev node r = Ends (λ m. loop round m prev node) r

    pub Reaches-stop :
        (prev node r : Ptr) → node ≢ 0 → round prev node ≡ stop r → Reaches prev node r
    unfolding loop
    Reaches-stop prev node r n e = (1, λ m l. stopped m l)
      where
        stopped : (m : ℕ) → 1 ≤ m → loop round m prev node ≡ some r
        stopped zero l = ground (arith, l)
        stopped (suc m) l = ground (arith, n, ap (resume (loop round m node)) e)

    pub Reaches-go :
        (prev node onto r : Ptr)
        → node ≢ 0
        → round prev node ≡ go onto
        → Reaches node onto r
        → Reaches prev node r
    unfolding loop
    Reaches-go prev node onto r n e later = (suc later.0, λ m l. gone m l)
      where
        gone : (m : ℕ) → suc later.0 ≤ m → loop round m prev node ≡ some r
        gone zero l = ground (arith, l)
        gone (suc m) l =
            ground (arith, n, ap (resume (loop round m node)) e, later.1 m (omega (arith, l)))

    -- Leaving the part below `p` upwards ends in `r`.
    abbrev pub Leaves : Ptr → Ptr → Type 0
    Leaves p r = ((p ≡ tree) × (r ≡ 0)) ⊎ ((p ≢ tree) × Reaches p (h.parent p) r)

    -- The two uses of `climb`: to start with, and in a round.
    pub climb-start :
        (p r : Ptr) → Leaves p r → Ends (λ m. start round m p (climb h filter tree p)) r
    climb-start p r (inl e) = (0, λ m l. ground (arith, e))
    climb-start p r (inr e) = (e.1.0, λ m l. ground (arith, e.0, e.1.1 m l))

    pub climb-Reaches :
        (prev p r : Ptr)
        → p ≢ 0
        → round prev p ≡ climb h filter tree p
        → Leaves p r
        → Reaches prev p r
    climb-Reaches prev p r n e (inl t) = Reaches-stop prev p r n (e ∙ ground (arith, t))
    climb-Reaches prev p r n e (inr t) =
        Reaches-go prev p (h.parent p) r n (e ∙ ground (arith, t.0)) t.1
