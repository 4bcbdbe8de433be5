-- ===== src/Tree.antt =====
-- nih/tree.c: binary trees whose nodes point to their parent and their two children.
pub mod Links
pub mod Visit
mod Tests
use libnih.Prelude.{
  Ptr, update, ℕ, Bool, true, false, not, ◌&&◌, Option, none, some, ◌==◌, if◌then◌else◌,
}

-- The pointers of every `NihTree`, the `data` of an entry that has some, and whether
-- `nih_tree_destroy` is its destructor.
pub record Heap : Type 0 where
  pub parent : Ptr → Ptr
  pub left : Ptr → Ptr
  pub right : Ptr → Ptr
  pub content : Ptr → Ptr
  pub destructor : Ptr → Bool

-- `NihTreeWhere`
pub data Where : Type 0 where
  on_left : Where
  on_right : Where

abbrev pub set_parent : Ptr → Ptr → Heap → Heap
set_parent p v h = record h { parent = update h.parent p v }

abbrev pub set_left : Ptr → Ptr → Heap → Heap
set_left p v h = record h { left = update h.left p v }

abbrev pub set_right : Ptr → Ptr → Heap → Heap
set_right p v h = record h { right = update h.right p v }

unfoldable pub tree_init : Ptr → Heap → Heap
tree_init tree h = set_parent tree 0 (set_left tree 0 (set_right tree 0 h))

abbrev pub set_destructor : Ptr → Heap → Heap
set_destructor tree h = record h { destructor = update h.destructor tree true }

-- The argument is what the allocation returns.
unfoldable pub tree_new : Option Ptr → Heap → Option Ptr × Heap
tree_new none h = (none, h)
tree_new (some tree) h = (some tree, set_destructor tree (tree_init tree h))

unfoldable pub tree_entry_new : Option Ptr → Heap → Option Ptr × Heap
tree_entry_new none h = (none, h)
tree_entry_new (some tree) h =
    let g = set_destructor tree (tree_init tree h) in
    (some tree, record g { content = update g.content tree 0 })

unfoldable pub tree_remove : Ptr → Heap → Heap
tree_remove node h =
    if h.parent node == 0
    then h
    else set_parent node 0 (
        if h.left (h.parent node) == node
        then set_left (h.parent node) 0 h
        else if h.right (h.parent node) == node
        then set_right (h.parent node) 0 h
        else h)

-- `if (p) p->parent = v`
abbrev pub set_parent_of : Ptr → Ptr → Heap → Heap
set_parent_of p v h = if p == 0 then h else set_parent p v h

-- `node` may be `NULL`; the result is the node that was in its place.
unfoldable pub tree_add : Ptr → Ptr → Where → Heap → Ptr × Heap
tree_add tree node on_left h =
    let g = if node == 0 then h else tree_remove node h in
    (g.left tree, set_parent_of node tree (set_left tree node (set_parent_of (g.left tree) 0 g)))
tree_add tree node on_right h =
    let g = if node == 0 then h else tree_remove node h in
    (g.right tree, set_parent_of node tree (set_right tree node (set_parent_of (g.right tree) 0 g)))

unfoldable pub tree_unlink : Ptr → Heap → Heap
tree_unlink node h =
    let a = tree_remove node h in
    let b = set_parent_of (a.left node) 0 a in
    let c = set_parent_of (b.right node) 0 b in set_left node 0 (set_right node 0 c)

unfoldable pub tree_destroy : Ptr → Heap → Heap
tree_destroy node h = tree_unlink node h
