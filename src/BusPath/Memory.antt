-- ===== src/BusPath/Memory.antt =====
-- Memory that is written from the front on.
use libnih.Prelude.{
  ℕ, suc, ◌+◌, ◌≡◌, refl, sym, ap, ◌∙◌, arith, Option, some, [], ◌∷◌, ◌++◌, ◌>>=◌, length, take,
  drop, append-nil, length-append, length-drop, take-append, append_assoc,
}
use libnih.CString.{Bytes, copy_in}

-- The memory holds `front` up to the place to write to, and has `room` bytes more.
pub record At (front : Bytes) (room : ℕ) (path : Bytes) (len : ℕ) : Type 0 where
  pub rest : Bytes
  pub split : path ≡ front ++ rest
  pub size : length rest ≡ room
  pub place : len ≡ length front

empty : (xs : Bytes) → length xs ≡ 0 → xs ≡ []
empty [] e = refl
empty (x ∷ xs) e = ground (arith, e)

pub drop-more : (xs ys : Bytes) (n : ℕ) → drop (length xs + n) (xs ++ ys) ≡ drop n ys
drop-more [] ys n = ap (λ m. drop m ys) {y = n} (omega arith)
drop-more (x ∷ xs) ys n =
    ap (λ m. drop m (x ∷ xs ++ ys)) {y = suc (length xs + n)} (omega arith) ∙ drop-more xs ys n

-- Writing `xs` where the front ends, when it fits.
pub copy_in-At :
    (front xs : Bytes) (room : ℕ) (path : Bytes) (len : ℕ)
    → At front (length xs + room) path len
    → (out : Bytes) × (copy_in len xs path ≡ some out) × At (front ++ xs) room out (len + length xs)
copy_in-At front xs room path len at =
    let behind = drop (length xs) at.rest in
    let before : take len path ≡ front =
      ap (take len) at.split
      ∙ ap (λ n. take n (front ++ at.rest)) at.place
      ∙ take-append front at.rest in
    let after : drop (len + length xs) path ≡ behind =
      ap (drop (len + length xs)) at.split
      ∙ ap (λ n. drop (n + length xs) (front ++ at.rest)) at.place
      ∙ drop-more front at.rest (length xs) in
    (
      take len path ++ xs ++ drop (len + length xs) path,
      ground (arith, ap length at.split, length-append front at.rest, at.size, at.place),
      record {
        rest = behind;
        split =
            ap (λ t. t ++ xs ++ drop (len + length xs) path) before
            ∙ ap (λ d. front ++ xs ++ d) after;
        size = omega (arith, length-drop (length xs) at.rest, at.size);
        place = omega (arith, at.place, length-append front xs);
      },
    )

-- The same memory, described by an equal front and room.
pub recast :
    {front front' : Bytes} {room room' len len' : ℕ} {path : Bytes}
    → front ≡ front'
    → room ≡ room'
    → len ≡ len'
    → At front room path len
    → At front' room' path len'
recast {path = path} f r l at = record {
  rest = at.rest;
  split = at.split ∙ ap (λ xs. xs ++ at.rest) f;
  size = at.size ∙ r;
  place = sym l ∙ at.place ∙ ap length f;
}

-- A terminator that the next write overwrites.
pub step_back :
    (front xs : Bytes) (z room len : ℕ) (path : Bytes)
    → At (front ++ (xs ++ z ∷ [])) room path (len + length (xs ++ z ∷ []))
    → At (front ++ xs) (room + 1) path (len + length xs)
step_back front xs z room len path at = record {
  rest = z ∷ at.rest;
  split =
      at.split
      ∙ ap (λ ys. ys ++ at.rest) (sym (append_assoc front xs (z ∷ [])))
      ∙ append_assoc (front ++ xs) (z ∷ []) at.rest;
  size = omega (arith, at.size);
  place = omega (
    arith,
    at.place,
    length-append front (xs ++ z ∷ []),
    length-append front xs,
    length-append xs (z ∷ []),
  );
}

-- A function that writes `xs` and keeps `room` bytes, the terminator's among them.
abbrev pub Writes : Bytes → Bytes → ℕ → Option (Bytes × ℕ) → Type 0
Writes front xs room o = (r : Bytes × ℕ) × (o ≡ some r) × At (front ++ xs) room r.0 r.1

-- Running on after a step that returned.
pub then_some :
    {A B : Type 0} (f : A → Option B) {o : Option A} {a : A} {r : Option B}
    → o ≡ some a
    → f a ≡ r
    → (o >>= f) ≡ r
then_some f e g = ap (λ o. o >>= f) e ∙ g

-- Memory without room is its front.
pub At-full : (front path : Bytes) (len : ℕ) → At front 0 path len → path ≡ front
At-full front path len at = at.split ∙ ap (◌++◌ front) (empty at.rest at.size) ∙ append-nil front
