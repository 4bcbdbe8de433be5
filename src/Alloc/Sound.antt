-- ===== src/Alloc/Sound.antt =====
-- What holds of all objects and references between two calls, and inside the loop that frees.
use libnih.Prelude.{
  Ptr, ◌≡◌, ◌⊎◌, refl, arith, Bool, true, false, ◌||◌, List, [], ◌∷◌, ◌++◌, ◌==◌, if◌then◌else◌,
  if_rule,
}
use libnih.Alloc.{Heap, gone, is_empty, cut_out}

abbrev pub has : Ptr → List Ptr → Bool
has r [] = false
has r (s ∷ rs) = r == s || has r rs

abbrev pub Distinct : List Ptr → Type 0
Distinct [] = Unit
Distinct (r ∷ rs) = (has r rs ≡ false) × Distinct rs

-- `work` are the references of finalised parents that the loop has still to visit; there are none
-- between two calls. A reference is in its child's list, and in that of its parent, if it has one,
-- or in `work`; an object that is gone has no references; every other has one that keeps it, but
-- for `loose`, which is `NULL` between two calls.
pub record Sound (h : Heap) (loose : Ptr) (work : List Ptr) : Type 0 where
  pub work_gone : (r : Ptr) → has r work ≡ true → gone h (h.ref_parent r) ≡ true
  pub work_linked : (r : Ptr) → has r work ≡ true → has r (h.parents (h.ref_child r)) ≡ true
  pub work_root : (r : Ptr) → has r work ≡ true → (h.ref_parent r == 0) ≡ false
  pub work_once : Distinct work
  pub up : (c r : Ptr) → has r (h.parents c) ≡ true → h.ref_child r ≡ c
  pub up_once : (c : Ptr) → Distinct (h.parents c)
  pub up_linked :
      (c r : Ptr)
      → has r (h.parents c) ≡ true
      → (h.ref_parent r ≡ 0) ⊎ (has r (h.children (h.ref_parent r)) ≡ true) ⊎ (has r work ≡ true)
  pub down : (p r : Ptr) → has r (h.children p) ≡ true → h.ref_parent r ≡ p
  pub down_linked :
      (p r : Ptr) → has r (h.children p) ≡ true → has r (h.parents (h.ref_child r)) ≡ true
  pub down_once : (p : Ptr) → Distinct (h.children p)
  pub dead : (c : Ptr) → gone h c ≡ true → (h.parents c ≡ []) × (h.children c ≡ [])
  pub owned :
      (c : Ptr) → gone h c ≡ false → (c == 0 || c == loose) ≡ false → is_empty (h.parents c) ≡ false
  pub null : h.children 0 ≡ []

pub has-cut_out :
    (s r : Ptr) (xs : List Ptr) → has s (cut_out r xs) ≡ (if s == r then false else has s xs)
has-cut_out s r [] = ground arith
has-cut_out s r (x ∷ xs) = ground (arith, has-cut_out s r xs)

pub has-append : (s : Ptr) (xs ys : List Ptr) → has s (xs ++ ys) ≡ has s xs || has s ys
has-append s [] ys = refl
has-append s (x ∷ xs) ys = ground (arith, has-append s xs ys)

pub cut_out-Distinct : (r : Ptr) (xs : List Ptr) → Distinct xs → Distinct (cut_out r xs)
cut_out-Distinct r [] d = d
cut_out-Distinct r (x ∷ xs) d =
    if_rule Distinct (x == r) (λ e. cut_out-Distinct r xs d.1)
      (λ e. (ground (arith, has-cut_out x r xs, d.0), cut_out-Distinct r xs d.1))

pub append-Distinct :
    (xs ys : List Ptr)
    → Distinct xs
    → Distinct ys
    → ((s : Ptr) → has s xs ≡ true → has s ys ≡ false)
    → Distinct (xs ++ ys)
append-Distinct [] ys d e apart = e
append-Distinct (x ∷ xs) ys d e apart = (
  ground (arith, has-append x xs ys, d.0, apart x),
  append-Distinct xs ys d.1 e (λ s m. apart s (ground (arith, m))),
)

pub empty-has : (xs : List Ptr) (s : Ptr) → is_empty xs ≡ true → has s xs ≡ false
empty-has [] s e = refl
empty-has (x ∷ xs) s e = cc

pub empty-eq : (xs : List Ptr) → is_empty xs ≡ true → xs ≡ []
empty-eq [] e = refl
empty-eq (x ∷ xs) e = cc
