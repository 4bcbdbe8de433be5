-- ===== src/Ring.antt =====
-- nih/list.c: circular doubly linked lists. A list is any of its entries, and an entry that is in
-- no list is a list of its own.
pub mod Segment
pub mod Links
pub mod Distinct
pub mod Move
mod Tests
use libnih.Prelude.{Ptr, update, ℕ, Bool, true, Option, none, some, ◌==◌, if◌then◌else◌}

-- The two pointers of every `NihList`, the `data` of an entry that has some, and whether
-- `nih_list_destroy` is its destructor.
pub record Heap : Type 0 where
  pub prev : Ptr → Ptr
  pub next : Ptr → Ptr
  pub content : Ptr → Ptr
  pub destructor : Ptr → Bool

-- `p->next = v` and `p->prev = v`
abbrev pub set_next : Ptr → Ptr → Heap → Heap
set_next p v h = record h { next = update h.next p v }

abbrev pub set_prev : Ptr → Ptr → Heap → Heap
set_prev p v h = record h { prev = update h.prev p v }

unfoldable pub list_init : Ptr → Heap → Heap
list_init entry h = set_prev entry entry (set_next entry entry h)

-- `fresh` is what the allocation returns.
abbrev pub set_destructor : Ptr → Heap → Heap
set_destructor list h = record h { destructor = update h.destructor list true }

unfoldable pub list_new : Option Ptr → Heap → Option Ptr × Heap
list_new none h = (none, h)
list_new (some list) h = (some list, set_destructor list (list_init list h))

unfoldable pub list_entry_new : Option Ptr → Heap → Option Ptr × Heap
list_entry_new none h = (none, h)
list_entry_new (some list) h =
    let g = set_destructor list (list_init list h) in
    (some list, record g { content = update g.content list 0 })

unfoldable pub list_cut : Ptr → Heap → Heap
list_cut entry h =
    let g = set_next (h.prev entry) (h.next entry) h in set_prev (g.next entry) (g.prev entry) g

-- what `nih_list_add` does behind the cut
unfoldable pub link_before : Ptr → Ptr → Heap → Heap
link_before list entry h =
    let a = set_prev entry (h.prev list) h in
    let b = set_next (a.prev list) entry a in let c = set_prev list entry b in set_next entry list c

unfoldable pub list_add : Ptr → Ptr → Heap → Heap
list_add list entry h = link_before list entry (list_cut entry h)

-- what `nih_list_add_after` does behind the cut
unfoldable pub link_after : Ptr → Ptr → Heap → Heap
link_after list entry h =
    let a = set_next entry (h.next list) h in
    let b = set_prev (a.next list) entry a in let c = set_next list entry b in set_prev entry list c

unfoldable pub list_add_after : Ptr → Ptr → Heap → Heap
list_add_after list entry h = link_after list entry (list_cut entry h)

unfoldable pub list_remove : Ptr → Heap → Heap
list_remove entry h = list_init entry (list_cut entry h)

unfoldable pub list_destroy : Ptr → Heap → Heap
list_destroy entry h = list_cut entry h
