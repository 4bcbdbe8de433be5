-- ===== src/BusPath/Overrun.antt =====
-- `nih_dbus_path` and bytes that are negative as a `char`.
use libnih.Prelude.{
  ℕ, ◌+◌, ◌≡◌, ◌≤◌, ◌<◌, refl, sym, ap, ◌∙◌, arith, true, false, Option, none, some, List, All, [],
  ◌∷◌, ◌++◌, ◌>>=◌, length, Bool-cases, inl, inr, length-append,
}
use libnih.CString.{Bytes, copy_in}
use libnih.BusPath.{
  plain, element_len, args_len, printed, start_element, escape_loop, args_loop, dbus_path,
}
use libnih.BusPath.Memory.{At, copy_in-At, recast, then_some}
use libnih.BusPath.Written.{escaped, elements, Ascii, escape_loop-Writes}
use libnih.BusPath.Written.{escape_loop-hex, escape_loop-plain, escape_loop-nil}
use libnih.BusPath.Whole.{root_copied, start_element-Writes, args_loop-Writes, lead}

copy_in-overrun :
    (front xs : Bytes) (room : ℕ) (path : Bytes) (len : ℕ)
    → At front room path len
    → room < length xs
    → copy_in len xs path ≡ none
copy_in-overrun front xs room path len at l =
    ground (arith, ap length at.split, length-append front at.rest, at.size, at.place, l)

bind_assoc :
    {A B C : Type 0} (o : Option A) (f : A → Option B) (g : B → Option C)
    → (o >>= λ a. (f a >>= g)) ≡ ((o >>= f) >>= g)
bind_assoc none f g = refl
bind_assoc (some a) f g = refl

bind-ap :
    {A B : Type 0} (o : Option A) {f g : A → Option B}
    → ((a : A) → f a ≡ g a)
    → (o >>= f) ≡ (o >>= g)
bind-ap none e = refl
bind-ap (some a) e = e a

escape_loop-append :
    (xs ys path : Bytes) (len : ℕ)
    → escape_loop (xs ++ ys) path len ≡ (escape_loop xs path len >>= λ s. escape_loop ys s.0 s.1)
escape_loop-append [] ys path len =
    sym (ap (λ o. o >>= λ s. escape_loop ys s.0 s.1) (escape_loop-nil path len))
escape_loop-append (x ∷ xs) ys path len =
    let after : Bytes × ℕ → Option (Bytes × ℕ) = λ s. escape_loop ys s.0 s.1 in
    elim (Bool-cases (plain x)) [
      | inl e ↦
          escape_loop-plain x (xs ++ ys) path len e
          ∙ bind-ap (copy_in len (x ∷ []) path) (λ p. escape_loop-append xs ys p (len + 1))
          ∙ bind_assoc (copy_in len (x ∷ []) path) (λ p. escape_loop xs p (len + 1)) after
          ∙ sym (ap (λ o. o >>= after) (escape_loop-plain x xs path len e))
      | inr e ↦
          escape_loop-hex x (xs ++ ys) path len e
          ∙ bind-ap (copy_in len (95 ∷ []) path) (λ p.
            bind-ap (copy_in (len + 1) (printed x ++ 0 ∷ []) p)
              (λ q. escape_loop-append xs ys q (len + 1 + 2))
            ∙ bind_assoc (copy_in (len + 1) (printed x ++ 0 ∷ []) p)
                (λ q. escape_loop xs q (len + 1 + 2)) after)
          ∙ bind_assoc (copy_in len (95 ∷ []) path)
              (λ p.
                copy_in (len + 1) (printed x ++ 0 ∷ []) p >>= λ q. escape_loop xs q (len + 1 + 2))
              after
          ∙ sym (ap (λ o. o >>= after) (escape_loop-hex x xs path len e))
    ]

element_len-append : (xs ys : Bytes) → element_len (xs ++ ys) ≡ element_len xs + element_len ys
unfolding element_len
element_len-append [] ys = omega arith
element_len-append (x ∷ xs) ys = omega (arith, element_len-append xs ys)

module _ (c : ℕ) (l : 128 ≤ c) where
  negative : plain c ≡ false
  negative = ground (arith, l)

  length-printed : length (printed c ++ 0 ∷ []) ≡ 9
  length-printed = ground (arith, l)

  element_len-negative : element_len (c ∷ []) ≡ 3
  unfolding element_len
  element_len-negative = ground (arith, negative)

  escape_loop-overrun :
      (front path : Bytes) (len : ℕ)
      → At front (1 + 3) path len
      → escape_loop (c ∷ []) path len ≡ none
  escape_loop-overrun front path len at =
      let one = copy_in-At front (95 ∷ []) 3 path len at in
      escape_loop-hex c [] path len negative
      ∙ then_some
          (λ path. copy_in (len + 1) (printed c ++ 0 ∷ []) path >>= λ path.
            escape_loop [] path (len + 1 + 2))
          one.1
          (ap (λ o. o >>= λ path. escape_loop [] path (len + 1 + 2))
            (copy_in-overrun (front ++ 95 ∷ []) (printed c ++ 0 ∷ []) 3 one.0 (len + 1) one.2
              (omega (arith, length-printed))))

args_loop-append :
    (xs ys : List Bytes) (path : Bytes) (len : ℕ)
    → args_loop (xs ++ ys) path len ≡ (args_loop xs path len >>= λ s. args_loop ys s.0 s.1)
unfolding args_loop
args_loop-append [] ys path len = refl
args_loop-append (x ∷ xs) ys path len =
    let after : Bytes × ℕ → Option (Bytes × ℕ) = λ s. args_loop ys s.0 s.1 in
    bind-ap (start_element x path len) (λ s.
      bind-ap (escape_loop x s.0 s.1) (λ t. args_loop-append xs ys t.0 t.1)
      ∙ bind_assoc (escape_loop x s.0 s.1) (λ t. args_loop xs t.0 t.1) after)
    ∙ bind_assoc (start_element x path len)
        (λ s. escape_loop x s.0 s.1 >>= λ t. args_loop xs t.0 t.1) after

args_len-append : (xs ys : List Bytes) → args_len (xs ++ ys) ≡ args_len xs + args_len ys
unfolding args_len
args_len-append [] ys = omega arith
args_len-append (x ∷ xs) ys = omega (arith, args_len-append xs ys)

-- Once its memory is allocated, a path whose last element ends in a byte from 128 on, where the
-- other bytes of the elements are all below 128, is written past the end of that memory: the byte
-- is printed as eight digits, where the first pass has counted two.
pub dbus_path-overruns :
    (junk : ℕ) (root : Bytes) (args : List Bytes) (arg : Bytes) (c : ℕ)
    → All Ascii args
    → Ascii arg
    → 128 ≤ c
    → dbus_path true junk root (args ++ (arg ++ c ∷ []) ∷ []) ≡ none
unfolding dbus_path args_loop args_len
dbus_path-overruns junk root args arg c a a' l =
    let all = arg ++ c ∷ [] in
    let size : element_len all ≡ element_len arg + 3 =
      omega (arith, element_len-append arg (c ∷ []), element_len-negative c l) in
    let copied = root_copied junk root (args ++ all ∷ []) in
    let firsts =
      args_loop-Writes args root copied.0 (args_len (all ∷ [])) (length root) a
        (recast refl (omega (arith, args_len-append args (all ∷ []))) refl copied.2) in
    let front = root ++ elements args in
    let start =
      start_element-Writes all front firsts.0.0 (element_len arg + (1 + 3)) firsts.0.1
        (recast refl (omega (arith, size)) refl firsts.2) in
    let text = escape_loop-Writes arg (front ++ 47 ∷ lead all) start.0.0 3 start.0.1 a' start.2 in
    let over : escape_loop all start.0.0 start.0.1 ≡ none =
      escape_loop-append arg (c ∷ []) start.0.0 start.0.1
      ∙ then_some (λ s. escape_loop (c ∷ []) s.0 s.1) text.1
          (escape_loop-overrun c l (front ++ 47 ∷ lead all ++ escaped arg) text.0.0 text.0.1
            text.2) in
    let last : args_loop (all ∷ []) firsts.0.0 firsts.0.1 ≡ none =
      then_some _ start.1 (ap (λ o. o >>= λ s. args_loop [] s.0 s.1) over) in
    let whole : args_loop (args ++ all ∷ []) copied.0 (length root) ≡ none =
      args_loop-append args (all ∷ []) copied.0 (length root) ∙ then_some _ firsts.1 last in
    then_some _ copied.1
      (ap (λ o. o >>= λ s. copy_in s.1 (0 ∷ []) s.0 >>= λ path. some (some path)) whole)
