-- ===== src/Tree/Tests.antt =====
-- nih/tree.c run on a tree of five nodes.
use libnih.Prelude.{Ptr, ℕ, ◌≡◌, ◌⊎◌, refl, arith, Bool, false, some, [], ◌∷◌, ◌==◌, if◌then◌else◌}
use libnih.Tree.{Heap, on_left, on_right, tree_add, tree_remove}
use libnih.Tree.Links.{Linked, IsRoot, tree_add-Linked}
use libnih.Tree.Visit.{
  loop, tree_next, tree_prev, tree_next_pre, tree_prev_pre, tree_next_post, tree_prev_post,
}
use libnih.Tree.Visit.Reaches.{leaf, branch, Chain, IsTree, Shape}
use libnih.Tree.Visit.InOrder as InOrder
use libnih.Tree.Visit.PreOrder as PreOrder
use libnih.Tree.Visit.PostOrder as PostOrder
use libnih.Tree.Visit.Backwards.{mirror, tree_prev-mirror}

-- Every node is alone.
abbrev apart : Heap
apart = record {
  parent = λ p. 0;
  left = λ p. 0;
  right = λ p. 0;
  content = λ p. 0;
  destructor = λ p. false;
}

apart-Linked : Linked apart
apart-Linked = record {
  left_up = λ p n m. ground (arith, m);
  right_up = λ p n m. ground (arith, m);
  apart = λ p n m. ground (arith, m);
  down = λ p n m. ground (arith, m);
}

-- 1 has the children 2 and 3, and 2 the children 4 and 5.
abbrev full : Heap
full = record {
  parent = λ p.
      if p == 2 then 1 else if p == 3 then 1 else if p == 4 then 2 else if p == 5 then 2 else 0;
  left = λ p. if p == 1 then 2 else if p == 2 then 4 else 0;
  right = λ p. if p == 1 then 3 else if p == 2 then 5 else 0;
  content = λ p. 0;
  destructor = λ p. false;
}

-- 5 is hidden.
abbrev hidden : Ptr → Bool
hidden p = p == 5

first : tree_next full hidden 1 9 0 ≡ some 4
unfolding tree_next loop
first = refl

up_from_left : tree_next full hidden 1 9 4 ≡ some 2
unfolding tree_next loop
up_from_left = refl

last : tree_prev full hidden 1 9 0 ≡ some 3
unfolding tree_prev loop
last = refl

built : (tree_add 1 3 on_right (tree_add 1 2 on_left apart).1).1.right 1 ≡ 3
unfolding tree_add tree_remove
built = refl

abbrev shape : Shape
shape = branch (branch leaf leaf) leaf

full-IsTree : IsTree full hidden 1 0 1 (branch shape (branch leaf leaf))
full-IsTree = ground arith

tree_next-Chain_example : Chain (InOrder.Steps full hidden 1) (0 ∷ 4 ∷ 2 ∷ 1 ∷ 3 ∷ []) 0
tree_next-Chain_example = InOrder.tree_next-Chain full hidden 1 shape (branch leaf leaf) full-IsTree

tree_prev-mirror_example :
    (tree_prev full hidden 1 9 2 ≡ tree_next (mirror full) hidden 1 9 2)
    × (tree_prev_post full hidden 1 9 2 ≡ tree_next_pre (mirror full) hidden 1 9 2)
    × (tree_prev_pre full hidden 1 9 2 ≡ tree_next_post (mirror full) hidden 1 9 2)
tree_prev-mirror_example = tree_prev-mirror full hidden 1 9 2

tree_add-Linked_example :
    Linked (tree_add 1 2 on_left apart).1
    × ((tree_add 1 2 on_left apart).1.left 1 ≡ 2)
    × (◌≡◌ {A = ℕ} 2 0 ⊎ ((tree_add 1 2 on_left apart).1.parent 2 ≡ 1))
    × (((tree_add 1 2 on_left apart).0 ≡ 0)
        ⊎ IsRoot (tree_add 1 2 on_left apart).1 (tree_add 1 2 on_left apart).0)
tree_add-Linked_example = tree_add-Linked apart apart-Linked 1 2 (ground arith) on_left
