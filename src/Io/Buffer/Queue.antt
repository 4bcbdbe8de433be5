-- ===== src/Io/Buffer/Queue.antt =====
-- A buffer is a queue of bytes: bytes are popped in the order they were pushed.
use libnih.Prelude.{
  ℕ, zero, suc, ◌+◌, ◌-◌, ◌^◌, min, ◌≡◌, ◌≤◌, ◌<◌, ◌⊎◌, inl, inr, refl, sym, ap, ◌∙◌, arith, Bool,
  true, false, Option, none, some, [], ◌∷◌, ◌++◌, if_rule, take, drop, length, length-append,
  length-take, length-drop, take-append,
}
use libnih.CString.{Bytes, copy_in}
use mathlib.Core.Option as Option
use mathlib.Core.Path.{subst⁻¹}
use libnih.Io.Buffer.{Buffer, word, memory, buffer_resize, buffer_shrink, buffer_pop, buffer_push}
use libnih.Io.Buffer.Rounding.{word_small}
use libnih.Io.Buffer.Resized.{IsValid, waiting, buffer_resize-Resizes}

memory-map :
    (o : Option Bytes) (bytes : Bytes)
    → length bytes ≡ length (memory o)
    → memory (Option.map (λ b. bytes) o) ≡ bytes
memory-map none [] e = refl
memory-map none (x ∷ xs) e = ground (arith, e)
memory-map (some old) bytes e = refl

take-nil : (n : ℕ) → take {A = ℕ} n [] ≡ []
take-nil zero = refl
take-nil (suc n) = refl

take-take : (k n : ℕ) (xs : Bytes) → k ≤ n → take k (take n xs) ≡ take k xs
take-take zero n xs l = refl
take-take (suc k) zero xs l = ground (arith, l)
take-take (suc k) (suc n) [] l = refl
take-take (suc k) (suc n) (x ∷ xs) l = ap (◌∷◌ x) (take-take k n xs (omega (arith, l)))

drop-take : (n k : ℕ) (xs : Bytes) → take (k - n) (drop n xs) ≡ drop n (take k xs)
drop-take zero k xs = ap (λ m. take m xs) {y = k} (omega arith)
drop-take (suc n) zero [] = take-nil (0 - suc n)
drop-take (suc n) (suc k) [] = take-nil (suc k - suc n)
drop-take (suc n) zero (x ∷ xs) = ap (λ m. take m (drop n xs)) {y = 0} (omega arith)
drop-take (suc n) (suc k) (x ∷ xs) =
    ap (λ m. take m (drop n xs)) {y = k - n} (omega arith) ∙ drop-take n k xs

take-drop-append : (n : ℕ) (xs : Bytes) → xs ≡ take n xs ++ drop n xs
take-drop-append zero xs = refl
take-drop-append (suc n) [] = refl
take-drop-append (suc n) (x ∷ xs) = ap (◌∷◌ x) (take-drop-append n xs)

-- What copying `s` in at the end of the first `at` bytes gives.
abbrev Copied : ℕ → Bytes → Bytes → Bytes → Type 0
Copied at s bytes c = (length c ≡ length bytes) × (take (at + length s) c ≡ take at bytes ++ s)

copy_in-Copied :
    (at : ℕ) (s bytes : Bytes)
    → at + length s ≤ length bytes
    → (c : Bytes) × (copy_in at s bytes ≡ some c) × Copied at s bytes c
copy_in-Copied at s bytes room =
    let front = take at bytes ++ s in
    let rest = drop (at + length s) bytes in
    let len : length front ≡ at + length s =
      omega (arith, length-append (take at bytes) s, length-take at bytes, room) in
    (
      front ++ rest,
      ground (arith, room),
      (
        omega (arith, length-append front rest, len, length-drop (at + length s) bytes, room),
        ap (λ n. take n (front ++ rest)) (sym len) ∙ take-append front rest,
      ),
    )

-- The results of `nih_io_buffer_push` of the bytes `s`: it fails and changes nothing, or the bytes
-- wait behind those that did.
abbrev pub Pushes : Buffer → Bytes → Option (Bool × Buffer) → Type 0
Pushes b s o =
    (o ≡ some (false, b))
    ⊎ ((r : Buffer) × (o ≡ some (true, r)) × IsValid r × (waiting r ≡ waiting b ++ s))

-- The results of `nih_io_buffer_pop`: it fails and changes nothing, or the string has the first `n`
-- waiting bytes and a terminator, and the other bytes go on to wait.
abbrev pub Pops : Buffer → ℕ → Option Bytes × ℕ × Buffer → Type 0
Pops b n r =
    (r ≡ (none, n, b))
    ⊎ ((r.0 ≡ some (take n (waiting b) ++ 0 ∷ []))
        × (r.1 ≡ n)
        × IsValid r.2
        × (waiting b ≡ take n (waiting b) ++ waiting r.2))

module _ (bufsiz : ℕ) (allocates : ℕ → Bool) (junk : ℕ) (positive : 0 < bufsiz) (b : Buffer)
    (valid : IsValid b) where
  -- The buffer after its bytes have moved up, before it is resized.
  abbrev shorter : ℕ → Buffer
  shorter n = record b {
    buf =
        Option.map
          (λ bytes. take (b.len - n) (drop n (memory b.buf)) ++ drop (b.len - n) (memory b.buf))
          b.buf;
    len = b.len - n;
  }

  shorter-IsValid :
      (n : ℕ) → n ≤ b.len → IsValid (shorter n) × (waiting (shorter n) ≡ drop n (waiting b))
  shorter-IsValid n l =
      let m = memory b.buf in
      let front = take (b.len - n) (drop n m) in
      let rest = drop (b.len - n) m in
      let len : length front ≡ b.len - n = omega (
        arith,
        length-take (b.len - n) (drop n m),
        length-drop n m,
        valid.whole,
        valid.inside,
        l,
      ) in
      let total : length (front ++ rest) ≡ length m = omega (
        arith,
        length-append front rest,
        len,
        length-drop (b.len - n) m,
        valid.whole,
        valid.inside,
      ) in
      let whole = memory-map b.buf (front ++ rest) total in
      (
        record {
          whole = ap length whole ∙ total ∙ valid.whole;
          inside = omega (arith, valid.inside);
        },
        ap (take (b.len - n)) whole
            ∙ ap (λ k. take k (front ++ rest)) (sym len)
            ∙ take-append front rest
            ∙ drop-take n b.len m,
      )

  -- Shrinking a valid buffer takes the given number of bytes off the front of those that wait, and
  -- all of them when that is more than there are, and leaves it valid, whether or not its memory
  -- can be made smaller.
  pub buffer_shrink-Shrinks :
      (n : ℕ)
      → b.len + bufsiz < 2 ^ 64
      → IsValid (buffer_shrink bufsiz allocates junk b n)
        × (waiting (buffer_shrink bufsiz allocates junk b n) ≡ drop (min n b.len) (waiting b))
  unfolding buffer_shrink
  buffer_shrink-Shrinks n small =
      let k = min n b.len in
      let after = shorter-IsValid k (omega arith) in
      elim (buffer_resize-Resizes bufsiz allocates junk positive (shorter k) after.0 0
        (omega (arith, small))) [
          | inl failed ↦
              subst⁻¹ (λ s. IsValid s × (waiting s ≡ drop k (waiting b))) (ap (λ r. r.1) failed)
                after
          | inr done ↦ (done.1, done.3 ∙ after.1)
        ]

  -- `nih_io_buffer_push` of a number of bytes that the string has never writes outside the memory
  -- of a valid buffer. It fails and changes nothing, or it leaves the buffer valid with the bytes
  -- waiting behind those that did, as long as the arithmetic does not wrap around.
  pub buffer_push-Pushes :
      (str : Bytes) (len : ℕ)
      → len ≤ length str
      → b.len + len + bufsiz < 2 ^ 64
      → Pushes b (take len str) (buffer_push bufsiz allocates junk b str len)
  unfolding buffer_push
  buffer_push-Pushes str len l small =
      let r = buffer_resize bufsiz allocates junk b len in
      elim (buffer_resize-Resizes bufsiz allocates junk positive b valid len small) [
        | inl failed ↦ inl (rw failed refl)
        | inr grown ↦
            let exact : length (take len str) ≡ len = omega (arith, length-take len str, l) in
            let copied =
              copy_in-Copied r.1.len (take len str) (memory r.1.buf)
                (omega (arith, exact, grown.2, grown.4, grown.1.whole)) in
            let whole = memory-map r.1.buf copied.0 copied.2.0 in
            let total : word (r.1.len + len) ≡ r.1.len + length (take len str) =
              word_small (r.1.len + len) (omega (arith, grown.2, small)) ∙ omega (arith, exact) in
            inr (
              record r.1 { buf = Option.map (λ b. copied.0) r.1.buf; len = word (r.1.len + len) },
              ground (arith, grown.0, l, copied.1),
              record {
                whole = ap length whole ∙ copied.2.0 ∙ grown.1.whole;
                inside = omega (arith, total, exact, grown.2, grown.4);
              },
              ap (take (word (r.1.len + len))) whole
                  ∙ ap (λ n. take n copied.0) total
                  ∙ copied.2.1
                  ∙ ap (λ bytes. bytes ++ take len str) grown.3,
            )
      ]

  -- `nih_io_buffer_pop` from a valid buffer fails and changes nothing, or returns the bytes at the
  -- front of those that wait, at most as many as were asked for and ended by NUL, and leaves the
  -- buffer valid with the others waiting.
  pub buffer_pop-Pops :
      (n : ℕ)
      → b.len + bufsiz < 2 ^ 64
      → Pops b (min n b.len) (buffer_pop bufsiz allocates junk b n)
  unfolding buffer_pop
  buffer_pop-Pops n small =
      let k = min n b.len in
      let after = buffer_shrink-Shrinks k small in
      let front : take k (memory b.buf) ≡ take k (waiting b) =
        sym (take-take k b.len (memory b.buf) (omega arith)) in
      if_rule (Pops b k) (allocates (word (k + 1)))
        (λ e. inr (
          ap (λ bytes. some (bytes ++ 0 ∷ [])) front,
          refl,
          after.0,
          take-drop-append k (waiting b)
              ∙ ap (◌++◌ (take k (waiting b)))
                  (sym (after.1 ∙ ap (λ j. drop j (waiting b)) {y = k} (omega arith))),
        ))
        (λ e. inl refl)

  -- Which of the two it does is up to the allocation of the string.
  pub pop-fails :
      (n : ℕ)
      → allocates (word (min n b.len + 1)) ≡ false
      → buffer_pop bufsiz allocates junk b n ≡ (none, min n b.len, b)
  unfolding buffer_pop
  pop-fails n e = rw e refl

  pub pop-returns :
      (n : ℕ)
      → allocates (word (min n b.len + 1)) ≡ true
      → ¬ ((buffer_pop bufsiz allocates junk b n).0 ≡ none)
  unfolding buffer_pop
  pop-returns n e h = ground (arith, e, h)
