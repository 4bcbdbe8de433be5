-- ===== src/Tree/Visit/PreOrder.antt =====
-- `nih_tree_next_pre_full` steps from every node to its left part and then its right part.
use libnih.Prelude.{Ptr, Bool, List, [], ◌∷◌, ◌++◌}
use libnih.Tree.{Heap}
use libnih.Tree.Visit.{next_pre_round, tree_next_pre}
use libnih.Tree.Visit.Reaches.{Shape, leaf, branch, Ends, Reaches, Leaves}

module _ (h : Heap) (filter : Ptr → Bool) (tree : Ptr) where
  abbrev pub pre_order : Ptr → Shape → List Ptr
  pre_order p leaf = []
  pre_order p (branch l r) = p ∷ (pre_order (h.left p) l ++ pre_order (h.right p) r)

  abbrev pub Steps : Ptr → Ptr → Type 0
  Steps node r = Ends (λ m. tree_next_pre h filter tree m node) r

  abbrev Out : Ptr → Ptr → Type 0
  Out = Leaves h filter tree (next_pre_round h filter tree)
