-- ===== src/Prelude/Pointers.antt =====
-- Pointers as numbers, `NULL` being 0, and a field of all objects as a function of the pointer.
use Prim.Native.Nat.{ℕ}
use libnih.Prelude.Tests.{◌==◌, if◌then◌else◌}

abbrev pub Ptr : Type 0
Ptr = ℕ

abbrev pub update : {A : Type 0} → (Ptr → A) → Ptr → A → Ptr → A
update f p v q = if q == p then v else f q
