-- ===== src/Tree/Visit/InOrder.antt =====
-- `nih_tree_next_full` steps through the left part of a tree, its root, and the right part.
use libnih.Prelude.{
  Ptr, ◌≡◌, ◌≢◌, inl, inr, refl, ◌∙◌, arith, Bool, true, List, [], ◌∷◌, ◌++◌, sym, append_assoc,
  append-nil,
}
use mathlib.Core.Path.{subst}
use libnih.Tree.{Heap}
use libnih.Tree.Visit.{visit, next_round, tree_next}
use libnih.Tree.Visit.Reaches.{
  Shape, leaf, branch, head_or, Chain, Chain-append, Ends, IsTree, Reaches, Reaches-stop,
  Reaches-go, Leaves, climb-start, climb-Reaches, visit-real, parent-child,
}

module _ (h : Heap) (filter : Ptr → Bool) (tree : Ptr) where
  abbrev pub in_order : Ptr → Shape → List Ptr
  in_order p leaf = []
  in_order p (branch l r) = in_order (h.left p) l ++ (p ∷ in_order (h.right p) r)

  abbrev pub Steps : Ptr → Ptr → Type 0
  Steps node r = Ends (λ m. tree_next h filter tree m node) r

  abbrev Goes : Ptr → Ptr → Ptr → Type 0
  Goes = Reaches h filter tree (next_round h filter tree)

  abbrev Out : Ptr → Ptr → Type 0
  Out = Leaves h filter tree (next_round h filter tree)

  -- Coming from above, the walk goes down to the first node.
  enter :
      (par p : Ptr) (l r : Shape) (z : Ptr) (ys : List Ptr)
      → IsTree h filter tree par p (branch l r)
      → Goes par p (head_or z (in_order p (branch l r) ++ ys))
  enter par p leaf r z ys t =
      Reaches-stop h filter tree (next_round h filter tree) par p p (visit-real h filter tree p t.0)
        (ground (arith, t))
  enter par p (branch l1 l2) r z ys t =
      let rest = p ∷ in_order (h.right p) r in
      Reaches-go h filter tree (next_round h filter tree) par p (h.left p) _
        (visit-real h filter tree p t.0) (ground (arith, t.1, t.5.0))
        (subst (λ xs. Goes p (h.left p) (head_or z xs))
          (sym (append_assoc (in_order (h.left p) (branch l1 l2)) rest ys))
          (enter p (h.left p) l1 l2 z (rest ++ ys) t.5))

  step-right :
      (p r : Ptr) (s : Shape)
      → p ≢ 0
      → IsTree h filter tree p (h.right p) s
      → Out p r
      → Steps p (head_or r (in_order (h.right p) s))
  unfolding tree_next
  step-right p r leaf n t out =
      let up = climb-start h filter tree (next_round h filter tree) p r out in
      (up.0, λ m l. ground (arith, n, t, up.1 m l))
  step-right p r (branch l1 l2) n t out =
      let down =
        subst (λ xs. Goes p (h.right p) (head_or r xs))
          (append-nil (in_order (h.right p) (branch l1 l2))) (enter p (h.right p) l1 l2 r [] t) in
      (down.0, λ m l. ground (arith, n, t.0, down.1 m l))

  module _ (par p : Ptr) (a b : Shape) (t : IsTree h filter tree par p (branch a b)) where
    -- coming up from the left, the walk stops at `p`
    left-Out : visit h filter tree (h.left p) ≡ true → Out (h.left p) p
    left-Out v =
        let up : h.parent (h.left p) ≡ p = parent-child h filter tree p (h.left p) a v t.5 in
        inr (
          ground (arith, v, t.2),
          Reaches-stop h filter tree (next_round h filter tree) (h.left p) (h.parent (h.left p)) p
              (λ e. visit-real h filter tree p t.0 (sym up ∙ e))
              (rw up (ground (arith, v, t.0, t.1, t.2, t.4))),
        )

    -- coming up from the right, it leaves the part below `p`
    right-Out : (r : Ptr) → visit h filter tree (h.right p) ≡ true → Out p r → Out (h.right p) r
    right-Out r v out =
        let up : h.parent (h.right p) ≡ p = parent-child h filter tree p (h.right p) b v t.6 in
        inr (
          ground (arith, v, t.3),
          rw up (
              climb-Reaches h filter tree (next_round h filter tree) (h.right p) p r
                (visit-real h filter tree p t.0) (ground (arith, v, t.1, t.3)) out),
        )

  -- the walk through the part below `p`, which ends in `r`
  through :
      (par p r : Ptr) (s : Shape)
      → IsTree h filter tree par p s
      → (visit h filter tree p ≡ true → Out p r)
      → Chain Steps (in_order p s) r
  through par p r leaf t out = tt
  through par p r (branch a b) t out =
      let n = visit-real h filter tree p t.0 in
      Chain-append Steps (in_order (h.left p) a) (p ∷ in_order (h.right p) b) r
        (through p (h.left p) p a t.5 (left-Out par p a b t))
        (
          step-right p r b n t.6 (out t.0),
          through p (h.right p) r b t.6 (λ v. right-Out par p a b t r v (out t.0)),
        )

  -- For a tree whose root is visible, `nih_tree_next_full` started with `NULL` returns the first
  -- node of the order that visits the left part of every visible node, the node, and then its right
  -- part, leaving out what is hidden with all below it; from each node it returns the one behind
  -- it, and from the last `NULL`. It needs only enough rounds.
  pub tree_next-Chain :
      (l r : Shape)
      → IsTree h filter tree (h.parent tree) tree (branch l r)
      → Chain Steps (0 ∷ in_order tree (branch l r)) 0
  unfolding tree_next
  tree_next-Chain l r t = (
    subst (λ xs. Goes (h.parent tree) tree (head_or 0 xs)) (append-nil (in_order tree (branch l r)))
        (enter (h.parent tree) tree l r 0 [] t),
    through (h.parent tree) tree 0 (branch l r) t (λ v. inl (refl, refl)),
  )
