-- ===== src/Io/Buffer/Resized.antt =====
-- Resizing a buffer keeps the bytes that wait in it.
use libnih.Prelude.{
  ℕ, zero, suc, ◌+◌, ◌-◌, ◌^◌, ◌≡◌, ◌≤◌, ◌<◌, ◌⊎◌, inl, inr, refl, sym, ap, ◌∙◌, arith, Bool, true,
  false, not, [], ◌∷◌, ◌++◌, ◌==◌, ltb, if_rule, take, replicate, length, length-append,
  length-take, length-replicate,
}
use libnih.CString.{Bytes}
use libnih.Io.Buffer.{Buffer, word, memory, realloc, clear_rest, round_up, buffer_resize}
use libnih.Io.Buffer.Rounding.{word_small, round_up_lem}

-- The memory has the size that the buffer notes, and the waiting bytes are inside it.
pub record IsValid (b : Buffer) : Type 0 where
  pub whole : length (memory b.buf) ≡ b.size
  pub inside : b.len ≤ b.size

-- the bytes that wait
abbrev pub waiting : Buffer → Bytes
waiting b = take b.len (memory b.buf)

pub take-within :
    (k n : ℕ) (xs ys : Bytes) → k ≤ n → k ≤ length xs → take k (take n xs ++ ys) ≡ take k xs
take-within zero n xs ys l m = refl
take-within (suc k) zero xs ys l m = ground (arith, l)
take-within (suc k) (suc n) [] ys l m = ground (arith, m)
take-within (suc k) (suc n) (x ∷ xs) ys l m =
    ap (◌∷◌ x) (take-within k n xs ys (omega (arith, l)) (omega (arith, m)))

module _ (junk size new_size : ℕ) (old : Bytes) (whole : length old ≡ size) where
  length-realloc : length (realloc junk old new_size) ≡ new_size
  length-realloc = omega (
    arith,
    length-append (take new_size old) (replicate (new_size - length old) junk),
    length-take new_size old,
    length-replicate (new_size - length old) junk,
    whole,
  )

  length-clear_rest : length (clear_rest size new_size (realloc junk old new_size)) ≡ new_size
  length-clear_rest =
      if_rule (λ xs. length xs ≡ new_size) (ltb size new_size)
        (λ e. ground (
          arith,
          e,
          length-append (take size (realloc junk old new_size)) (replicate (new_size - size) 0),
          length-take size (realloc junk old new_size),
          length-replicate {A = ℕ} (new_size - size) 0,
          length-realloc,
        ))
        (λ e. length-realloc)

  take-clear_rest :
      (len : ℕ)
      → len ≤ size
      → len ≤ new_size
      → take len (clear_rest size new_size (realloc junk old new_size)) ≡ take len old
  take-clear_rest len l m =
      let kept =
        take-within len new_size old (replicate (new_size - length old) junk) m
          (omega (arith, l, whole)) in
      if_rule (λ xs. take len xs ≡ take len old) (ltb size new_size)
        (λ e.
          take-within len size (realloc junk old new_size) (replicate (new_size - size) 0) l
            (omega (arith, length-realloc, m))
          ∙ kept)
        (λ e. kept)

-- The results of `nih_io_buffer_resize`: the buffer is unchanged, or it is valid, has the same
-- bytes waiting, and has room for `grow` more.
abbrev pub Resizes : Buffer → ℕ → Bool × Buffer → Type 0
Resizes b grow r =
    (r ≡ (false, b))
    ⊎ ((r.0 ≡ true)
        × IsValid r.1
        × (r.1.len ≡ b.len)
        × (waiting r.1 ≡ waiting b)
        × (b.len + grow ≤ r.1.size))

module _ (bufsiz : ℕ) (allocates : ℕ → Bool) (junk : ℕ) (positive : 0 < bufsiz) (b : Buffer)
    (valid : IsValid b) where
  -- Resizing a valid buffer either fails and leaves it as it was, or keeps its waiting bytes and
  -- makes room for the number of bytes asked for, as long as the arithmetic does not wrap around.
  pub buffer_resize-Resizes :
      (grow : ℕ)
      → b.len + grow + bufsiz < 2 ^ 64
      → Resizes b grow (buffer_resize bufsiz allocates junk b grow)
  unfolding buffer_resize
  buffer_resize-Resizes grow small =
      let new_len = word (b.len + grow) in
      let same = word_small (b.len + grow) (omega (arith, small)) in
      let new_size = round_up bufsiz new_len in
      let room : 0 < new_len → new_len ≤ new_size = λ some_bytes.
        (round_up_lem bufsiz new_len positive some_bytes (omega (arith, same, small))).0 in
      if_rule (Resizes b grow) (new_len == 0)
        (λ e.
          let none_waiting : b.len ≡ 0 = ground (arith, e, same) in
          inr (
            refl,
            record { whole = refl; inside = ground (arith, e, same) },
            refl,
            ap (λ n. take n []) none_waiting ∙ sym (ap (λ n. take n (memory b.buf)) none_waiting),
            ground (arith, e, same),
          ))
        (λ e.
          if_rule (Resizes b grow) (new_size == b.size)
            (λ d.
              inr (refl, valid, refl, refl, ground (arith, d, e, same, room (ground (arith, e)))))
            (λ d.
              if_rule (Resizes b grow) (not (allocates new_size)) (λ f. inl refl)
                (λ f. inr (
                  refl,
                  record {
                    whole = length-clear_rest junk b.size new_size (memory b.buf) valid.whole;
                    inside = ground (arith, e, same, room (ground (arith, e)));
                  },
                  refl,
                  take-clear_rest junk b.size new_size (memory b.buf) valid.whole b.len valid.inside
                      (ground (arith, e, same, room (ground (arith, e)))),
                  ground (arith, e, same, room (ground (arith, e))),
                ))))
