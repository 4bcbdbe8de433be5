-- ===== src/Indent/Memory.antt =====
-- Moving up what stands behind a place in memory, and writing into the gap.
use libnih.Prelude.{
  ℕ, zero, suc, ◌+◌, ◌-◌, ◌≤◌, ◌≡◌, refl, sym, ap, ◌∙◌, arith, true, some, [], ◌∷◌, ◌++◌,
  append-nil, append_assoc, leb, length, take, drop, take-append, drop-append, length-append,
  length-take, length-drop,
}
use libnih.CString.{Bytes, byte_at, byte_at-drop, copy_in}
use libnih.BusPath.Memory.{drop-more}
use libnih.Indent.{memmove, put}

copy_in-append :
    (front old behind new : Bytes)
    → length old ≡ length new
    → copy_in (length front) new (front ++ (old ++ behind)) ≡ some (front ++ new ++ behind)
copy_in-append front old behind new e =
    let fits : leb (length front + length new) (length (front ++ (old ++ behind))) ≡ true =
      ground (arith, length-append front (old ++ behind), length-append old behind, e) in
    let before : take (length front) (front ++ (old ++ behind)) ≡ front =
      take-append front (old ++ behind) in
    let after : drop (length front + length new) (front ++ (old ++ behind)) ≡ behind =
      drop-more front (old ++ behind) (length new)
      ∙ ap (λ n. drop n (old ++ behind)) (sym e)
      ∙ drop-append old behind in
    rw (fits, before, after) refl

take-drop : (n : ℕ) (xs : Bytes) → take n xs ++ drop n xs ≡ xs
take-drop zero xs = refl
take-drop (suc n) [] = refl
take-drop (suc n) (x ∷ xs) = ap (◌∷◌ x) (take-drop n xs)

take-whole : (n : ℕ) (xs : Bytes) → length xs ≤ n → take n xs ≡ xs
take-whole zero [] l = refl
take-whole zero (x ∷ xs) l = absurd (omega (arith, l))
take-whole (suc n) [] l = refl
take-whole (suc n) (x ∷ xs) l = ap (◌∷◌ x) (take-whole n xs (omega (arith, l)))

-- What stands behind is moved up, and the mark put in the gap.
pub put-Marks :
    (front behind mark : Bytes) (len : ℕ)
    → len + 1 ≡ length front + length behind
    → length mark ≤ length behind
    → put mark (length front) len (front ++ behind)
      ≡ some (front ++ mark ++ take (length behind - length mark) behind)
unfolding put memmove
put-Marks front behind [] len e m = ap some (
    sym (
      ap (λ n. (front ++ []) ++ take n behind) {y = length behind} (omega arith)
      ∙ ap (λ xs. (front ++ []) ++ xs) (take-whole (length behind) behind (omega arith))
      ∙ ap (λ xs. xs ++ behind) (append-nil front)))
put-Marks front behind (c ∷ mark) len e m =
    let n = length behind - length (c ∷ mark) in
    let moved = take n behind in
    let count : len + 1 - length (c ∷ mark) - length front ≡ n = omega (arith, e) in
    let inside : leb (length front + n) (length (front ++ behind)) ≡ true =
      ground (arith, length-append front behind) in
    let same : drop (length front) (front ++ behind) ≡ behind = drop-append front behind in
    let head = take (length (c ∷ mark)) behind in
    let tail = drop (length (c ∷ mark)) behind in
    let parts : front ++ behind ≡ (front ++ head) ++ (tail ++ []) = sym (
      ap (λ xs. (front ++ head) ++ xs) (append-nil tail)
      ∙ append_assoc front head tail
      ∙ ap (λ xs. front ++ xs) (take-drop (length (c ∷ mark)) behind)) in
    let place : length front + length (c ∷ mark) ≡ length (front ++ head) =
      omega (arith, length-append front head, length-take (length (c ∷ mark)) behind) in
    let first : copy_in (length front + length (c ∷ mark)) moved (front ++ behind)
        ≡ some ((front ++ head) ++ moved ++ []) =
      ap (copy_in (length front + length (c ∷ mark)) moved) parts
      ∙ ap (λ k. copy_in k moved ((front ++ head) ++ (tail ++ []))) place
      ∙ copy_in-append (front ++ head) tail [] moved
          (omega (arith, length-drop (length (c ∷ mark)) behind, length-take n behind)) in
    let second : copy_in (length front) (c ∷ mark) ((front ++ head) ++ moved ++ [])
        ≡ some (front ++ (c ∷ mark) ++ moved) =
      ap (copy_in (length front) (c ∷ mark))
        (append-nil ((front ++ head) ++ moved) ∙ append_assoc front head moved)
      ∙ copy_in-append front head moved (c ∷ mark)
          (omega (arith, m, length-take (length (c ∷ mark)) behind)) in
    rw (count, inside, same, first) second

pub take-last :
    (xs : Bytes) (y m : ℕ) (ys : Bytes)
    → m ≤ length ys
    → take (length (xs ++ y ∷ ys) - m) (xs ++ y ∷ ys) ≡ xs ++ y ∷ take (length ys - m) ys
take-last [] y m ys l = ap (λ n. take n (y ∷ ys)) {y = suc (length ys - m)} (omega (arith, l))
take-last (x ∷ xs) y m ys l =
    ap (λ n. take n (x ∷ (xs ++ y ∷ ys))) {y = suc (length (xs ++ y ∷ ys) - m)}
      (omega (arith, l, length-append xs (y ∷ ys)))
    ∙ ap (◌∷◌ x) (take-last xs y m ys l)

pub byte_at-append : (xs ys : Bytes) (k : ℕ) → byte_at (xs ++ ys) (length xs + k) ≡ byte_at ys k
byte_at-append xs ys k =
    byte_at-drop (length xs) k (xs ++ ys) ∙ ap (λ zs. byte_at zs k) (drop-append xs ys)

pub byte_at-place : (xs ys : Bytes) → byte_at (xs ++ ys) (length xs) ≡ byte_at ys 0
byte_at-place xs ys =
    ap (byte_at (xs ++ ys)) {y = length xs + 0} (omega arith) ∙ byte_at-append xs ys 0

pub next_byte : (str junk : Bytes) → byte_at (str ++ 0 ∷ junk) 0 ≡ byte_at str 0
next_byte [] junk = refl
next_byte (c ∷ str) junk = refl

pub next_place : (front : Bytes) (b : ℕ) → length (front ++ b ∷ []) ≡ length front + 1
next_place front b = omega (arith, length-append front (b ∷ []))

pub regroup :
    (front mark str rest : Bytes)
    → some ((front ++ 10 ∷ []) ++ (mark ++ (str ++ rest)))
      ≡ some (front ++ 10 ∷ ((mark ++ str) ++ rest))
regroup front mark str rest = ap some (
    append_assoc front (10 ∷ []) (mark ++ (str ++ rest))
    ∙ ap (λ xs. front ++ 10 ∷ xs) (sym (append_assoc mark str rest)))

pub nothing : (xs : Bytes) → length xs ≡ 0 → xs ≡ []
nothing [] e = refl
nothing (x ∷ xs) e = absurd (omega (arith, e))
