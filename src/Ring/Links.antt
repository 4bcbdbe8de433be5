-- ===== src/Ring/Links.antt =====
-- The two pointers of every entry stay inverse to each other, whatever list it is in.
use libnih.Prelude.{Ptr, ◌≡◌, ◌≢◌, arith}
use native.Mathlib.Decide.{ℕ_discrete}
use libnih.Ring.{
  Heap, list_init, list_cut, link_before, link_after, list_add, list_add_after, list_remove,
}

pub record Linked (h : Heap) : Type 0 where
  pub next_back : (p : Ptr) → h.prev (h.next p) ≡ p
  pub prev_back : (p : Ptr) → h.next (h.prev p) ≡ p

-- What a cut leaves: every entry but the one cut out, whose own pointers dangle.
pub record LinkedBut (cut : Ptr) (h : Heap) : Type 0 where
  pub next_back : (p : Ptr) → p ≢ cut → h.prev (h.next p) ≡ p
  pub prev_back : (p : Ptr) → p ≢ cut → h.next (h.prev p) ≡ p
  pub next_other : (p : Ptr) → p ≢ cut → h.next p ≢ cut
  pub prev_other : (p : Ptr) → p ≢ cut → h.prev p ≢ cut

module _ (h : Heap) (linked : Linked h) (entry : Ptr) where
  pub list_cut-LinkedBut : LinkedBut entry (list_cut entry h)
  unfolding list_cut
  list_cut-LinkedBut = record {
    next_back = λ p n. ground (
      arith,
      n,
      linked.next_back p,
      linked.prev_back p,
      linked.next_back entry,
      linked.prev_back entry,
    );
    prev_back = λ p n. ground (
      arith,
      n,
      linked.next_back p,
      linked.prev_back p,
      linked.next_back entry,
      linked.prev_back entry,
    );
    next_other = λ p n.
        ground (arith, n, linked.next_back p, linked.next_back entry, linked.prev_back entry);
    prev_other = λ p n.
        ground (arith, n, linked.prev_back p, linked.next_back entry, linked.prev_back entry);
  }

  pub list_remove-Linked : Linked (list_remove entry h)
  unfolding list_remove list_cut list_init
  list_remove-Linked = record {
    next_back = λ p. ground (
      arith,
      linked.next_back p,
      linked.prev_back p,
      linked.next_back entry,
      linked.prev_back entry,
    );
    prev_back = λ p. ground (
      arith,
      linked.next_back p,
      linked.prev_back p,
      linked.next_back entry,
      linked.prev_back entry,
    );
  }

module _ (g : Heap) (list entry : Ptr) (linked : LinkedBut entry g) (other : list ≢ entry) where
  pub link_before-Linked : Linked (link_before list entry g)
  unfolding link_before
  link_before-Linked = record {
    next_back = λ p. elim (ℕ_discrete p entry) [
      | yes e ↦ ground (arith, e, other, linked.prev_other list other)
      | no n ↦ ground (
        arith,
        n,
        other,
        linked.next_back p n,
        linked.next_other p n,
        linked.prev_back list other,
        linked.prev_other list other,
      )
    ];
    prev_back = λ p. elim (ℕ_discrete p entry) [
      | yes e ↦ ground (arith, e, other, linked.prev_other list other)
      | no n ↦ ground (
        arith,
        n,
        other,
        linked.prev_back p n,
        linked.prev_other p n,
        linked.prev_back list other,
        linked.prev_other list other,
      )
    ];
  }

  pub link_after-Linked : Linked (link_after list entry g)
  unfolding link_after
  link_after-Linked = record {
    next_back = λ p. elim (ℕ_discrete p entry) [
      | yes e ↦ ground (arith, e, other, linked.next_other list other)
      | no n ↦ ground (
        arith,
        n,
        other,
        linked.next_back p n,
        linked.next_other p n,
        linked.next_back list other,
        linked.next_other list other,
      )
    ];
    prev_back = λ p. elim (ℕ_discrete p entry) [
      | yes e ↦ ground (arith, e, other, linked.next_other list other)
      | no n ↦ ground (
        arith,
        n,
        other,
        linked.prev_back p n,
        linked.prev_other p n,
        linked.next_back list other,
        linked.next_other list other,
      )
    ];
  }

module _ (h : Heap) (linked : Linked h) (list entry : Ptr) (other : list ≢ entry) where
  pub list_add-Linked : Linked (list_add list entry h)
  unfolding list_add
  list_add-Linked =
      link_before-Linked (list_cut entry h) list entry (list_cut-LinkedBut h linked entry) other

  pub list_add_after-Linked : Linked (list_add_after list entry h)
  unfolding list_add_after
  list_add_after-Linked =
      link_after-Linked (list_cut entry h) list entry (list_cut-LinkedBut h linked entry) other
