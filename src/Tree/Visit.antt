-- ===== src/Tree/Visit.antt =====
-- nih/tree.c: the six functions that step from a node to the next one of an order.
pub mod Reaches
pub mod InOrder
pub mod PreOrder
pub mod PostOrder
pub mod Backwards
use libnih.Prelude.{Ptr, ℕ, zero, suc, Bool, not, ◌&&◌, Option, none, some, ◌==◌, if◌then◌else◌}
use libnih.Tree.{Heap}

-- One round of a `for (;;)` loop: return a node or `NULL`, or go on with another node.
pub data Round : Type 0 where
  stop : Ptr → Round
  go : Ptr → Round

abbrev pub resume : (Ptr → Option Ptr) → Round → Option Ptr
resume next (stop node) = some node
resume next (go node) = next node

-- The loop: `none` is a node that is `NULL`, or too few rounds.
unfoldable pub loop : (Ptr → Ptr → Round) → ℕ → Ptr → Ptr → Option Ptr
loop round zero prev node = none
loop round (suc n) prev node =
    let rest = resume (loop round n node) (round prev node) in if node == 0 then none else rest

-- The start of a walk upwards: `prev = node`, and `climb`.
abbrev pub start : (Ptr → Ptr → Round) → ℕ → Ptr → Round → Option Ptr
start round rounds node first = resume (loop round rounds node) first

module _ (h : Heap) (filter : Ptr → Bool) (tree : Ptr) where
  -- `VISIT (node)`: the filter is true of the nodes that it hides.
  abbrev pub visit : Ptr → Bool
  visit node = not (node == 0) && not (filter node)

  -- `if (node == tree) return NULL; node = node->parent`
  abbrev pub climb : Ptr → Round
  climb node = if node == tree then stop 0 else go (h.parent node)

  abbrev pub next_round : Ptr → Ptr → Round
  next_round prev node =
      if (prev == h.parent node) && visit (h.left node)
      then go (h.left node)
      else if visit (h.right node) && (prev == h.right node)
      then climb node
      else if visit node
      then stop node
      else stop 0

  abbrev pub prev_round : Ptr → Ptr → Round
  prev_round prev node =
      if (prev == h.parent node) && visit (h.right node)
      then go (h.right node)
      else if visit (h.left node) && (prev == h.left node)
      then climb node
      else if visit node
      then stop node
      else stop 0

  abbrev pub next_pre_round : Ptr → Ptr → Round
  next_pre_round prev node =
      if not (prev == h.right node) && visit (h.right node) then stop (h.right node) else climb node

  abbrev pub prev_pre_round : Ptr → Ptr → Round
  prev_pre_round prev node =
      if (prev == h.parent node) && visit (h.right node)
      then go (h.right node)
      else if not (prev == h.left node) && visit (h.left node)
      then go (h.left node)
      else if visit node
      then stop node
      else stop 0

  abbrev pub next_post_round : Ptr → Ptr → Round
  next_post_round prev node =
      if (prev == h.parent node) && visit (h.left node)
      then go (h.left node)
      else if not (prev == h.right node) && visit (h.right node)
      then go (h.right node)
      else if visit node
      then stop node
      else stop 0

  abbrev pub prev_post_round : Ptr → Ptr → Round
  prev_post_round prev node =
      if not (prev == h.left node) && visit (h.left node) then stop (h.left node) else climb node

  unfoldable pub tree_next : ℕ → Ptr → Option Ptr
  tree_next rounds node =
      if node == 0
      then loop next_round rounds (h.parent tree) tree
      else start next_round rounds node
          (if visit (h.right node) then go (h.right node) else climb node)

  unfoldable pub tree_prev : ℕ → Ptr → Option Ptr
  tree_prev rounds node =
      if node == 0
      then loop prev_round rounds (h.parent tree) tree
      else start prev_round rounds node
          (if visit (h.left node) then go (h.left node) else climb node)

  unfoldable pub tree_next_pre : ℕ → Ptr → Option Ptr
  tree_next_pre rounds node =
      if node == 0
      then (if visit tree then some tree else some 0)
      else if visit (h.left node)
      then some (h.left node)
      else if visit (h.right node)
      then some (h.right node)
      else start next_pre_round rounds node (climb node)

  unfoldable pub tree_prev_pre : ℕ → Ptr → Option Ptr
  tree_prev_pre rounds node =
      if node == 0
      then loop prev_pre_round rounds (h.parent tree) tree
      else start prev_pre_round rounds node (climb node)

  unfoldable pub tree_next_post : ℕ → Ptr → Option Ptr
  tree_next_post rounds node =
      if node == 0
      then loop next_post_round rounds (h.parent tree) tree
      else start next_post_round rounds node (climb node)

  unfoldable pub tree_prev_post : ℕ → Ptr → Option Ptr
  tree_prev_post rounds node =
      if node == 0
      then (if visit tree then some tree else some 0)
      else if visit (h.right node)
      then some (h.right node)
      else if visit (h.left node)
      then some (h.left node)
      else start prev_post_round rounds node (climb node)
