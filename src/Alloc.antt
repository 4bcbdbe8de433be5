-- ===== src/Alloc.antt =====
-- nih/alloc.c: objects that are freed when the last of their references goes. A reference stands in
-- two lists, its parent's `children` and its child's `parents`.
pub mod Sound
pub mod Refs
pub mod Collect
pub mod Total
pub mod Outcome
pub mod Free
pub mod Gone
pub mod Exact
pub mod Grow
pub mod Moved
mod Tests
use libnih.Prelude.{
  Ptr, update, ℕ, zero, suc, Bool, true, false, not, ◌&&◌, ◌||◌, Option, none, some, List, [], ◌∷◌,
  ◌++◌, ◌==◌, if◌then◌else◌, ◌>>=◌,
}

-- `NihDestructor`, with `NIH_ALLOC_FINALISED`, which also stands for memory that holds no object.
pub data Destructor : Type 0 where
  unset : Destructor
  calls : ℕ → Destructor
  finalised : Destructor

-- The fields of every `NihAllocCtx` and of every `NihAllocRef`, and what has happened: the objects
-- whose destructor was called, and the memory freed, each in its order.
pub record Heap : Type 0 where
  pub parents : Ptr → List Ptr
  pub children : Ptr → List Ptr
  pub destructor : Ptr → Destructor
  pub size : Ptr → ℕ
  pub ref_parent : Ptr → Ptr
  pub ref_child : Ptr → Ptr
  pub called : List Ptr
  pub freed : List Ptr

abbrev pub is_final : Destructor → Bool
is_final finalised = true
is_final unset = false
is_final (calls f) = false

abbrev pub gone : Heap → Ptr → Bool
gone h p = is_final (h.destructor p)

-- `NIH_LIST_EMPTY`
abbrev pub is_empty : List Ptr → Bool
is_empty [] = true
is_empty (r ∷ rs) = false

-- `nih_list_destroy` of an entry
abbrev pub cut_out : Ptr → List Ptr → List Ptr
cut_out r [] = []
cut_out r (s ∷ rs) = if s == r then cut_out r rs else s ∷ cut_out r rs

abbrev pub set_parents : Ptr → List Ptr → Heap → Heap
set_parents p rs h = record h { parents = update h.parents p rs }

abbrev pub set_children : Ptr → List Ptr → Heap → Heap
set_children p rs h = record h { children = update h.children p rs }

abbrev pub set_destructor : Ptr → Destructor → Heap → Heap
set_destructor p d h = record h { destructor = update h.destructor p d }

-- `none` is a failed assertion, here and below. `ref` is the new reference; its allocation is one
-- that is repeated until it succeeds.
unfoldable pub alloc_ref_new : Ptr → Ptr → Ptr → Heap → Option Heap
alloc_ref_new ref parent child h =
    let a = record h {
      ref_parent = update h.ref_parent ref parent;
      ref_child = update h.ref_child ref child;
    } in
    let b = if parent == 0 then a else set_children parent (ref ∷ a.children parent) a in
    if not (parent == 0) && gone h parent || child == 0 || gone h child
    then none
    else some (set_parents child (ref ∷ b.parents child) b)

-- `ctx` is what `malloc` returns.
unfoldable pub alloc : Option Ptr → Ptr → Ptr → ℕ → Heap → Option (Option Ptr × Heap)
alloc none ref parent size h = some (none, h)
alloc (some ctx) ref parent size h =
    let a = record h {
      parents = update h.parents ctx [];
      children = update h.children ctx [];
      destructor = update h.destructor ctx unset;
      size = update h.size ctx size;
    } in
    alloc_ref_new ref parent ctx a >>= λ b. some (some ctx, b)

unfoldable pub ref : Ptr → Ptr → Ptr → Heap → Option Heap
ref r ptr parent h = alloc_ref_new r parent ptr h

unfoldable pub alloc_real_set_destructor : Ptr → Destructor → Heap → Option Heap
alloc_real_set_destructor ptr d h =
    if ptr == 0 || gone h ptr then none else some (set_destructor ptr d h)

abbrev pub find_parent : Heap → Ptr → List Ptr → Option Ptr
find_parent h parent [] = none
find_parent h parent (r ∷ rs) = if h.ref_parent r == parent then some r else find_parent h parent rs

unfoldable pub alloc_ref_lookup : Ptr → Ptr → Heap → Option (Option Ptr)
alloc_ref_lookup parent child h =
    if not (parent == 0) && gone h parent || child == 0 || gone h child
    then none
    else some (find_parent h parent (h.parents child))

unfoldable pub alloc_ref_free : Ptr → Heap → Heap
alloc_ref_free r h =
    let a = set_children (h.ref_parent r) (cut_out r (h.children (h.ref_parent r))) h in
    set_parents (a.ref_child r) (cut_out r (a.parents (a.ref_child r))) a

-- The call of the destructor, if any, and its replacement by `NIH_ALLOC_FINALISED`.
abbrev pub log_call : Destructor → Ptr → List Ptr → List Ptr
log_call (calls f) p ps = ps ++ p ∷ []
log_call unset p ps = ps
log_call finalised p ps = ps

unfoldable pub finalise : Ptr → Heap → Heap
finalise p h =
    set_destructor p finalised (record h { called = log_call (h.destructor p) p h.called })

-- One round of the first loop of `nih_alloc_context_free`. `work` is the part of the list behind
-- the cursor; `dead` are the children that stay in front of it. The children of an object that is
-- finalised go to the front of `work`.
unfoldable pub visit_ref : Ptr → List Ptr → List Ptr → Heap → List Ptr × List Ptr × Heap
visit_ref r work dead h =
    let child = h.ref_child r in
    let a = set_parents child (cut_out r (h.parents child)) h in
    if not (is_empty (a.parents child))
    then (work, dead, a)
    else (a.children child ++ work, dead ++ child ∷ [], set_children child [] (finalise child a))

unfoldable pub collect : ℕ → List Ptr → List Ptr → Heap → Option (List Ptr × Heap)
collect n [] dead h = some (dead, h)
collect zero (r ∷ work) dead h = none
collect (suc n) (r ∷ work) dead h = let s = visit_ref r work dead h in collect n s.0 s.1 s.2

-- The two loops: finalise, and free. `rounds` is for the first.
unfoldable pub alloc_context_free : ℕ → Ptr → Heap → Option Heap
alloc_context_free rounds ctx h =
    let a = finalise ctx h in
    if ctx == 0 || gone h ctx || not (is_empty (h.parents ctx))
    then none
    else collect rounds (a.children ctx) [] (set_children ctx [] a) >>= λ s.
        some (record s.1 { freed = s.1.freed ++ (s.0 ++ ctx ∷ []) })

abbrev pub free_refs : List Ptr → Heap → Heap
free_refs [] h = h
free_refs (r ∷ rs) h = free_refs rs (alloc_ref_free r h)

-- `nih_free`
unfoldable pub free : ℕ → Ptr → Heap → Option Heap
free rounds ptr h =
    if ptr == 0 || gone h ptr
    then none
    else alloc_context_free rounds ptr (free_refs (h.parents ptr) h)

-- `if (NIH_LIST_EMPTY (&ctx->parents)) nih_alloc_context_free (ctx)`
abbrev pub free_unowned : ℕ → Ptr → Heap → Option Heap
free_unowned rounds ptr h =
    if is_empty (h.parents ptr) then alloc_context_free rounds ptr h else some h

unfoldable pub discard : ℕ → Ptr → Heap → Option Heap
discard rounds ptr h = alloc_ref_lookup 0 ptr h >>= λ found. elim found [
  | none ↦ some h
  | some r ↦ free_unowned rounds ptr (alloc_ref_free r h)
]

unfoldable pub discard_local : ℕ → Ptr → Heap → Option Heap
discard_local rounds ptr h = if ptr == 0 then some h else discard rounds ptr h

unfoldable pub unref : ℕ → Ptr → Ptr → Heap → Option Heap
unref rounds ptr parent h = alloc_ref_lookup parent ptr h >>= λ found. elim found [
  | none ↦ none
  | some r ↦ free_unowned rounds ptr (alloc_ref_free r h)
]

unfoldable pub alloc_parent : Ptr → Ptr → Heap → Option Bool
alloc_parent ptr parent h =
    alloc_ref_lookup parent ptr h >>= λ found. some (elim found [ none ↦ false | some r ↦ true ])

unfoldable pub alloc_size : Ptr → Heap → Option ℕ
alloc_size ptr h = if ptr == 0 || gone h ptr then none else some (h.size ptr)

-- `ref->child = ctx`, or `ref->parent = ctx`, for all the references of a list
abbrev pub point_to : Ptr → List Ptr → (Ptr → Ptr) → Ptr → Ptr
point_to ctx [] f = f
point_to ctx (r ∷ rs) f = point_to ctx rs (update f r ctx)

-- The object at `ptr` moves to `ctx` with its lists, as `realloc` may move memory; the lists are
-- joined again around it, and their references made to point to it.
unfoldable pub move_to : Ptr → Ptr → ℕ → Heap → Heap
move_to ctx ptr size h = record h {
  parents = update (update h.parents ptr []) ctx (h.parents ptr);
  children = update (update h.children ptr []) ctx (h.children ptr);
  destructor = update (update h.destructor ptr finalised) ctx (h.destructor ptr);
  size = update h.size ctx size;
  ref_child = point_to ctx (h.parents ptr) h.ref_child;
  ref_parent = point_to ctx (h.children ptr) h.ref_parent;
}

-- `ctx` is what `malloc` or `realloc` returns.
unfoldable pub realloc : Option Ptr → Ptr → Ptr → Ptr → ℕ → Heap → Option (Option Ptr × Heap)
realloc ctx ref ptr parent size h =
    let moved : Option Ptr × Heap = elim ctx [
      | none ↦ (none, h)
      | some c ↦ (some c, move_to c ptr size h)
    ] in
    if ptr == 0 then alloc ctx ref parent size h else if gone h ptr then none else some moved
