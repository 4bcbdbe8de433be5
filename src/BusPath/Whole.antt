-- ===== src/BusPath/Whole.antt =====
-- The path that `nih_dbus_path` returns.
use libnih.Prelude.{
  ℕ, ◌+◌, ◌≡◌, refl, sym, ap, ◌∙◌, arith, Bool, true, false, none, some, List, [], ◌∷◌, ◌++◌, ◌==◌,
  if◌then◌else◌, ◌>>=◌, length, replicate, All, append-nil, length-append, length-replicate,
  append_assoc,
}
use libnih.CString.{Bytes, copy_in}
use libnih.BusPath.{element_len, args_len, start_element, args_loop, dbus_path}
use libnih.BusPath.Memory.{At, Writes, copy_in-At, recast, step_back, then_some, At-full}
use libnih.BusPath.Written.{escaped, element, elements, Ascii, escape_loop-Writes}

-- the underscore of an empty element
abbrev pub lead : Bytes → Bytes
lead [] = 95 ∷ []
lead (c ∷ arg) = []

abbrev pub lead_len : Bytes → ℕ
lead_len arg = if length arg == 0 then 1 else 0

element-lead : (arg : Bytes) → 47 ∷ element arg ≡ (47 ∷ lead arg) ++ escaped arg
element-lead [] = refl
element-lead (c ∷ arg) = refl

start_element-filled :
    (c : ℕ) (arg path : Bytes) (len : ℕ)
    → start_element (c ∷ arg) path len
      ≡ (copy_in len (47 ∷ []) path >>= λ path. some (path, len + 1))
unfolding start_element
start_element-filled c arg path len =
    let filled : (length (c ∷ arg) == 0) ≡ false = ground arith in
    ap
      (λ b. copy_in len (47 ∷ []) path >>= λ path.
        if b
        then (copy_in (len + 1) (95 ∷ []) path >>= λ path. some (path, len + 1 + 1))
        else some (path, len + 1))
      filled

pub start_element-Writes :
    (arg front path : Bytes) (room len : ℕ)
    → At front (1 + lead_len arg + room) path len
    → Writes front (47 ∷ lead arg) room (start_element arg path len)
unfolding start_element
start_element-Writes [] front path room len at =
    let one = copy_in-At front (47 ∷ []) (1 + room) path len (recast refl (omega arith) refl at) in
    let two =
      copy_in-At (front ++ 47 ∷ []) (95 ∷ []) room one.0 (len + 1)
        (recast refl (omega arith) refl one.2) in
    (
      (two.0, len + 1 + 1),
      then_some _ one.1 (then_some (λ path. some (path, len + 1 + 1)) two.1 refl),
      recast (append_assoc front (47 ∷ []) (95 ∷ [])) refl refl two.2,
    )
start_element-Writes (c ∷ arg) front path room len at =
    let one = copy_in-At front (47 ∷ []) room path len (recast refl (ground arith) refl at) in
    (
      (one.0, len + 1),
      start_element-filled c arg path len ∙ then_some (λ path. some (path, len + 1)) one.1 refl,
      one.2,
    )

pub args_loop-Writes :
    (args : List Bytes) (front path : Bytes) (room len : ℕ)
    → All Ascii args
    → At front (args_len args + (1 + room)) path len
    → Writes front (elements args) (1 + room) (args_loop args path len)
unfolding args_loop args_len
args_loop-Writes [] front path room len a at =
    ((path, len), refl, recast (sym (append-nil front)) (omega arith) refl at)
args_loop-Writes (arg ∷ args) front path room len a at =
    let start =
      start_element-Writes arg front path (element_len arg + (1 + (args_len args + room))) len
        (recast refl (omega arith) refl at) in
    let text =
      escape_loop-Writes arg (front ++ 47 ∷ lead arg) start.0.0 (args_len args + room) start.0.1 a.0
        start.2 in
    let more =
      args_loop-Writes args (front ++ 47 ∷ lead arg ++ escaped arg) text.0.0 room text.0.1 a.1
        (recast refl (omega arith) refl text.2) in
    (
      more.0,
      then_some _ start.1 (then_some _ text.1 more.1),
      recast
          (ap (λ xs. xs ++ elements args) (append_assoc front (47 ∷ lead arg) (escaped arg))
            ∙ append_assoc front (47 ∷ lead arg ++ escaped arg) (elements args)
            ∙ ap (λ xs. front ++ (xs ++ elements args)) (sym (element-lead arg)))
          refl refl more.2,
    )

-- The memory that the first pass sizes, with the root copied to its start.
pub root_copied :
    (junk : ℕ) (root : Bytes) (args : List Bytes)
    → (path : Bytes) × (copy_in 0
          (root ++ 0 ∷ [])
          (replicate (length root + args_len args + 1) junk)
        ≡ some path)
      × At root (args_len args + 1) path (length root)
root_copied junk root args =
    let len = length root + args_len args in
    let memory = replicate (len + 1) junk in
    let copied = copy_in-At [] (root ++ 0 ∷ []) (args_len args) memory 0 (record {
      rest = memory;
      split = refl;
      size = omega (arith, length-replicate (len + 1) junk, length-append root (0 ∷ []));
      place = refl;
    }) in
    (
      copied.0,
      copied.1,
      recast refl refl (omega arith) (step_back [] root 0 (args_len args) 0 copied.0 copied.2),
    )

-- For elements whose bytes are all below 128, `nih_dbus_path` writes nothing outside of the memory
-- that it allocates, and returns the root, each element behind a slash with what is not a letter or
-- a digit as an underscore and two hexadecimal digits, an empty one as an underscore, and a
-- terminator, which fill that memory; it returns `NULL` only when the allocation fails.
pub dbus_path_lem :
    (allocated : Bool) (junk : ℕ) (root : Bytes) (args : List Bytes)
    → All Ascii args
    → dbus_path allocated junk root args
      ≡ some (if allocated then some (root ++ elements args ++ 0 ∷ []) else none)
unfolding dbus_path
dbus_path_lem false junk root args a = refl
dbus_path_lem true junk root args a =
    let copied = root_copied junk root args in
    let filled = args_loop-Writes args root copied.0 0 (length root) a copied.2 in
    let ended = copy_in-At (root ++ elements args) (0 ∷ []) 0 filled.0.0 filled.0.1 filled.2 in
    then_some _ copied.1 (
      then_some _ filled.1 (
        then_some _ ended.1 (
          ap (λ path. some (some path))
            (At-full (root ++ elements args ++ 0 ∷ []) ended.0 _ ended.2))))
