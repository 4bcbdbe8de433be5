-- ===== src/Tree/Links.antt =====
-- Parents and children point to each other.
use libnih.Prelude.{Ptr, ◌≡◌, ◌≢◌, ◌⊎◌, inl, inr, arith, ◌==◌, if◌then◌else◌, if_rule}
use libnih.Tree.{
  Heap, Where, on_left, on_right, set_parent_of, set_left, set_right, tree_remove, tree_add,
  tree_unlink,
}

pub record Linked (h : Heap) : Type 0 where
  pub left_up : (p : Ptr) → p ≢ 0 → h.left p ≢ 0 → h.parent (h.left p) ≡ p
  pub right_up : (p : Ptr) → p ≢ 0 → h.right p ≢ 0 → h.parent (h.right p) ≡ p
  pub apart : (p : Ptr) → p ≢ 0 → h.left p ≢ 0 → h.left p ≢ h.right p
  pub down :
      (p : Ptr) → p ≢ 0 → h.parent p ≢ 0 → (h.left (h.parent p) ≡ p) ⊎ (h.right (h.parent p) ≡ p)

-- a node without a parent
abbrev pub IsRoot : Heap → Ptr → Type 0
IsRoot h p = h.parent p ≡ 0

module _ (h : Heap) (linked : Linked h) (node : Ptr) (real : node ≢ 0) where
  pub tree_remove-Linked : Linked (tree_remove node h)
  unfolding tree_remove
  tree_remove-Linked = record {
    left_up = λ p n m. ground (
      arith,
      n,
      m,
      real,
      linked.left_up p,
      linked.right_up p,
      linked.apart p,
      linked.down node,
      linked.apart (h.parent node),
    );
    right_up = λ p n m. ground (
      arith,
      n,
      m,
      real,
      linked.left_up p,
      linked.right_up p,
      linked.apart p,
      linked.down node,
      linked.apart (h.parent node),
    );
    apart = λ p n m. ground (
      arith,
      n,
      m,
      real,
      linked.left_up p,
      linked.right_up p,
      linked.apart p,
      linked.down node,
      linked.apart (h.parent node),
    );
    down = λ p n m.
        ground (arith, n, m, real, linked.down p, linked.down node, linked.apart (h.parent node));
  }

  pub tree_remove-IsRoot : IsRoot (tree_remove node h) node
  unfolding tree_remove
  tree_remove-IsRoot = ground arith

-- The child of a node on a side.
abbrev pub child : Where → Heap → Ptr → Ptr
child on_left h p = h.left p
child on_right h p = h.right p

-- what `nih_tree_add` does behind the removal
abbrev attach : Ptr → Ptr → Where → Heap → Heap
attach tree node on_left g =
    set_parent_of node tree (set_left tree node (set_parent_of (g.left tree) 0 g))
attach tree node on_right g =
    set_parent_of node tree (set_right tree node (set_parent_of (g.right tree) 0 g))

module _ (g : Heap) (linked : Linked g) (tree node : Ptr) (real : tree ≢ 0)
    (free : (node ≡ 0) ⊎ (g.parent node ≡ 0)) where
  attach-Linked : (w : Where) → Linked (attach tree node w g)
  attach-Linked on_left = record {
    left_up = λ p n m. ground (
      arith,
      n,
      m,
      real,
      free,
      linked.left_up p n,
      linked.right_up p n,
      linked.apart p n,
      linked.left_up tree real,
      linked.apart tree real,
    );
    right_up = λ p n m. ground (
      arith,
      n,
      m,
      real,
      free,
      linked.left_up p n,
      linked.right_up p n,
      linked.apart p n,
      linked.left_up tree real,
      linked.apart tree real,
      linked.right_up tree real,
    );
    apart = λ p n m. ground (
      arith,
      n,
      m,
      real,
      free,
      linked.left_up p n,
      linked.right_up p n,
      linked.apart p n,
      linked.right_up tree real,
    );
    down = λ p n m. ground (
      arith,
      n,
      m,
      real,
      free,
      linked.down p n,
      linked.left_up tree real,
      linked.apart tree real,
    );
  }
  attach-Linked on_right = record {
    left_up = λ p n m. ground (
      arith,
      n,
      m,
      real,
      free,
      linked.left_up p n,
      linked.right_up p n,
      linked.apart p n,
      linked.right_up tree real,
      linked.apart tree real,
      linked.left_up tree real,
    );
    right_up = λ p n m. ground (
      arith,
      n,
      m,
      real,
      free,
      linked.left_up p n,
      linked.right_up p n,
      linked.apart p n,
      linked.right_up tree real,
      linked.apart tree real,
    );
    apart = λ p n m. ground (
      arith,
      n,
      m,
      real,
      free,
      linked.left_up p n,
      linked.right_up p n,
      linked.apart p n,
      linked.left_up tree real,
    );
    down = λ p n m. ground (
      arith,
      n,
      m,
      real,
      free,
      linked.down p n,
      linked.right_up tree real,
      linked.apart tree real,
    );
  }

  attach-child : (w : Where) → child w (attach tree node w g) tree ≡ node
  attach-child on_left = ground (arith, real)
  attach-child on_right = ground (arith, real)

  attach-parent : (w : Where) → (node ≡ 0) ⊎ ((attach tree node w g).parent node ≡ tree)
  attach-parent on_left = ground arith
  attach-parent on_right = ground arith

  attach-replaced :
      (w : Where)
      → (child w g tree ≡ 0)
        ⊎ (child w g tree ≡ node)
        ⊎ IsRoot (attach tree node w g) (child w g tree)
  attach-replaced on_left = ground (arith, free)
  attach-replaced on_right = ground (arith, free)

module _ (h : Heap) (linked : Linked h) (tree node : Ptr) (real : tree ≢ 0) where
  -- the heap that the node, if there is one, has been removed from
  taken : Heap
  taken = if node == 0 then h else tree_remove node h

  taken-Linked : Linked taken × ((node ≡ 0) ⊎ IsRoot taken node)
  unfolding taken
  taken-Linked =
      if_rule (λ g. Linked g × ((node ≡ 0) ⊎ IsRoot g node)) (node == 0)
        (λ e. (linked, inl (ground (arith, e))))
        (λ e.
          let n : node ≢ 0 = λ q. ground (arith, e, q) in
          (tree_remove-Linked h linked node n, inr (tree_remove-IsRoot h linked node n)))

  -- In a heap where parents and children point to each other they still do after `nih_tree_add`, of
  -- a node or of `NULL`. The node is then the tree's child on the given side, and the tree its
  -- parent; what was there before, and is returned, has no parent any more.
  pub tree_add-Linked :
      (w : Where)
      → Linked (tree_add tree node w h).1
        × (child w (tree_add tree node w h).1 tree ≡ node)
        × ((node ≡ 0) ⊎ ((tree_add tree node w h).1.parent node ≡ tree))
        × (((tree_add tree node w h).0 ≡ 0)
            ⊎ IsRoot (tree_add tree node w h).1 (tree_add tree node w h).0)
  unfolding tree_add taken
  tree_add-Linked on_left =
      let g = taken-Linked in
      (
        attach-Linked taken g.0 tree node real g.1 on_left,
        attach-child taken g.0 tree node real g.1 on_left,
        attach-parent taken g.0 tree node real g.1 on_left,
        ground (
          arith,
          real,
          g.1,
          attach-replaced taken g.0 tree node real g.1 on_left,
          g.0.left_up tree real,
        ),
      )
  tree_add-Linked on_right =
      let g = taken-Linked in
      (
        attach-Linked taken g.0 tree node real g.1 on_right,
        attach-child taken g.0 tree node real g.1 on_right,
        attach-parent taken g.0 tree node real g.1 on_right,
        ground (
          arith,
          real,
          g.1,
          attach-replaced taken g.0 tree node real g.1 on_right,
          g.0.right_up tree real,
        ),
      )

-- what `nih_tree_unlink` does behind the removal
abbrev orphan : Ptr → Heap → Heap
orphan node a =
    let b = set_parent_of (a.left node) 0 a in
    let c = set_parent_of (b.right node) 0 b in set_left node 0 (set_right node 0 c)

module _ (a : Heap) (linked : Linked a) (node : Ptr) (real : node ≢ 0) (free : IsRoot a node) where
  orphan-Linked : Linked (orphan node a)
  orphan-Linked = record {
    left_up = λ p n m. ground (
      arith,
      n,
      m,
      real,
      free,
      linked.left_up p n,
      linked.left_up node real,
      linked.right_up node real,
    );
    right_up = λ p n m. ground (
      arith,
      n,
      m,
      real,
      free,
      linked.right_up p n,
      linked.left_up node real,
      linked.right_up node real,
    );
    apart = λ p n m. ground (arith, n, m, real, free, linked.apart p n);
    down = λ p n m. ground (arith, n, m, real, free, linked.down p n);
  }

  orphan-alone :
      IsRoot (orphan node a) node
      × ((orphan node a).left node ≡ 0)
      × ((orphan node a).right node ≡ 0)
  orphan-alone = (ground (arith, free, real), ground arith, ground arith)

module _ (h : Heap) (linked : Linked h) (node : Ptr) (real : node ≢ 0) where
  -- In such a heap `nih_tree_unlink` leaves the node without a parent and without children, and
  -- parents and children still point to each other.
  pub tree_unlink-Linked :
      Linked (tree_unlink node h)
      × IsRoot (tree_unlink node h) node
      × ((tree_unlink node h).left node ≡ 0)
      × ((tree_unlink node h).right node ≡ 0)
  unfolding tree_unlink
  tree_unlink-Linked =
      let a = tree_remove node h in
      let removed = tree_remove-Linked h linked node real in
      let free = tree_remove-IsRoot h linked node real in
      let alone = orphan-alone a removed node real free in
      (orphan-Linked a removed node real free, alone.0, alone.1, alone.2)
