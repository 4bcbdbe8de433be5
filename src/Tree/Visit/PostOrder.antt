-- ===== src/Tree/Visit/PostOrder.antt =====
-- `nih_tree_next_post_full` steps through the left part of a tree, the right part, and its root.
use libnih.Prelude.{Ptr, Bool, List, [], ◌∷◌, ◌++◌}
use libnih.Tree.{Heap}
use libnih.Tree.Visit.{next_post_round, tree_next_post}
use libnih.Tree.Visit.Reaches.{Shape, leaf, branch, Ends, Reaches, Leaves}

module _ (h : Heap) (filter : Ptr → Bool) (tree : Ptr) where
  abbrev pub post_order : Ptr → Shape → List Ptr
  post_order p leaf = []
  post_order p (branch l r) = post_order (h.left p) l ++ (post_order (h.right p) r ++ p ∷ [])

  abbrev pub Steps : Ptr → Ptr → Type 0
  Steps node r = Ends (λ m. tree_next_post h filter tree m node) r

  abbrev Goes : Ptr → Ptr → Ptr → Type 0
  Goes = Reaches h filter tree (next_post_round h filter tree)

  abbrev Out : Ptr → Ptr → Type 0
  Out = Leaves h filter tree (next_post_round h filter tree)
