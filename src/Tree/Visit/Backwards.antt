-- ===== src/Tree/Visit/Backwards.antt =====
-- The functions that step backwards are those that step forwards, in the mirrored tree.
use libnih.Prelude.{Ptr, ℕ, ◌≡◌, refl, Bool}
use libnih.Tree.{Heap}
use libnih.Tree.Visit.{
  tree_next, tree_prev, tree_next_pre, tree_prev_pre, tree_next_post, tree_prev_post,
}

-- left and right exchanged
unfoldable pub mirror : Heap → Heap
mirror h = record h { left = h.right; right = h.left }

module _ (h : Heap) (filter : Ptr → Bool) (tree : Ptr) (rounds : ℕ) (node : Ptr) where
  -- `nih_tree_prev_full`, `nih_tree_prev_post_full` and `nih_tree_prev_pre_full` return what
  -- `nih_tree_next_full`, `nih_tree_next_pre_full` and `nih_tree_next_post_full` return, with the
  -- left and the right children exchanged, for every tree, filter, node and number of rounds.
  pub tree_prev-mirror :
      (tree_prev h filter tree rounds node ≡ tree_next (mirror h) filter tree rounds node)
      × (tree_prev_post h filter tree rounds node
          ≡ tree_next_pre (mirror h) filter tree rounds node)
      × (tree_prev_pre h filter tree rounds node
          ≡ tree_next_post (mirror h) filter tree rounds node)
  unfolding tree_prev tree_next tree_prev_pre tree_next_pre tree_prev_post tree_next_post mirror
  tree_prev-mirror = (refl, refl, refl)
