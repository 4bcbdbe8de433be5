-- ===== src/Io/Stream/Lines.antt =====
-- `nih_io_get` takes the strings of a stream one after the other.
use libnih.Prelude.{
  ℕ, suc, ◌+◌, ◌^◌, ◌≡◌, ◌<◌, ◌⊎◌, inl, inr, Bool-cases, refl, sym, ap, ◌∙◌, arith, Bool, true,
  false, ◌||◌, Option, none, some, [], ◌∷◌, ◌++◌, ◌==◌, take, drop, length, length-append,
  take-append, drop-append, min, All,
}
use libnih.CString.{Bytes, strchr}
use libnih.Io.Buffer.{Buffer, word, buffer_pop, buffer_shrink}
use libnih.Io.Buffer.Resized.{IsValid, waiting}
use libnih.Io.Buffer.Queue.{buffer_pop-Pops, pop-fails, pop-returns, buffer_shrink-Shrinks}
use libnih.Io.Buffer.Rounding.{word_small}
use libnih.Io.Buffer.History.{length-waiting}
use libnih.Io.Stream.{Io, Kind, stream, shutdown_check, find_end, take_string, get}

-- A byte of a string, and one that ends it.
abbrev pub ends : Bytes → ℕ → Bool
ends delim c = strchr delim c || c == 0

find_end-line :
    (delim : Bytes) (i : ℕ) (line : Bytes) (d : ℕ) (rest : Bytes)
    → All (λ c. ends delim c ≡ false) line
    → ends delim d ≡ true
    → find_end delim i (line ++ d ∷ rest) ≡ some (i + length line)
unfolding find_end
find_end-line delim i [] d rest plain e = rw e (ap some (omega arith))
find_end-line delim i (c ∷ line) d rest plain e =
    rw plain.0 (find_end-line delim (suc i) line d rest plain.1 e ∙ ap some (omega arith))

find_end-none :
    (delim : Bytes) (i : ℕ) (line : Bytes)
    → All (λ c. ends delim c ≡ false) line
    → find_end delim i line ≡ none
unfolding find_end
find_end-none delim i [] plain = refl
find_end-none delim i (c ∷ line) plain = rw plain.0 (find_end-none delim (suc i) line plain.1)

shutdown_check-recv_buf : (io : Io) → (shutdown_check io).recv_buf ≡ io.recv_buf
unfolding shutdown_check
shutdown_check-recv_buf io = ground arith

-- A string taken off, if there is memory for it and its terminator, or else a failure that takes
-- nothing.
abbrev pub Takes : (ℕ → Bool) → Buffer → Bytes → Bytes → Option Bytes × Buffer × Bool → Type 0
Takes allocates buf line rest r =
    ((allocates (length line + 1) ≡ false) × (r ≡ (none, buf, true)))
    ⊎ ((allocates (length line + 1) ≡ true)
        × (r.0 ≡ some (line ++ 0 ∷ []))
        × IsValid r.1
        × (waiting r.1 ≡ rest)
        × (r.2 ≡ false))

-- What `get` does to a stream: the string and the bytes that go on to wait, or a failure.
abbrev pub Gets : (ℕ → Bool) → Io → Bytes → Bytes → Option Bytes × Io → Type 0
Gets allocates io line rest r =
    ((allocates (length line + 1) ≡ false) × (r ≡ (none, io)))
    ⊎ ((allocates (length line + 1) ≡ true)
        × (r.0 ≡ some (line ++ 0 ∷ []))
        × IsValid r.1.recv_buf
        × (waiting r.1.recv_buf ≡ rest))

module _ (bufsiz : ℕ) (allocates : ℕ → Bool) (junk : ℕ) (positive : 0 < bufsiz)
    (delim : Bytes) where
  take_string-Takes :
      (buf : Buffer) (line : Bytes) (d : ℕ) (rest : Bytes)
      → IsValid buf
      → buf.len + bufsiz < 2 ^ 64
      → waiting buf ≡ line ++ d ∷ rest
      → All (λ c. ends delim c ≡ false) line
      → ends delim d ≡ true
      → Takes allocates buf line rest (take_string bufsiz allocates junk delim buf)
  unfolding take_string
  take_string-Takes buf line d rest valid small w plain e =
      let found : find_end delim 0 (waiting buf) ≡ some (length line) =
        ap (find_end delim 0) w
        ∙ find_end-line delim 0 line d rest plain e
        ∙ ap some (omega arith) in
      let total : buf.len ≡ length line + suc (length rest) =
        omega (arith, length-waiting buf valid, ap length w, length-append line (d ∷ rest)) in
      let k : min (length line) buf.len ≡ length line = omega (arith, total) in
      let asked : word (min (length line) buf.len + 1) ≡ length line + 1 =
        ap (λ n. word (n + 1)) k ∙ word_small (length line + 1) (omega (arith, total, small)) in
      elim (Bool-cases (allocates (length line + 1))) [
        | inr e ↦
            let failed =
              pop-fails bufsiz allocates junk positive buf valid (length line)
                (ap allocates asked ∙ e) in
            let no_str : (buffer_pop bufsiz allocates junk buf (length line)).0 ≡ none =
              ap (λ (r : Option Bytes × ℕ × Buffer). r.0) failed in
            let same : (buffer_pop bufsiz allocates junk buf (length line)).2 ≡ buf =
              ap (λ (r : Option Bytes × ℕ × Buffer). r.2) failed in
            rw (take_string, found, no_str, same) (inl (e, refl))
        | inl e ↦
            elim (buffer_pop-Pops bufsiz allocates junk positive buf valid (length line) small) [
              | inl failed ↦ absurd (
                  pop-returns bufsiz allocates junk positive buf valid (length line)
                    (ap allocates asked ∙ e) (ap (λ (r : Option Bytes × ℕ × Buffer). r.0) failed))
              | inr done ↦
                  let b2 = (buffer_pop bufsiz allocates junk buf (length line)).2 in
                  let front : take (min (length line) buf.len) (waiting buf) ≡ line =
                    ap (λ n. take n (waiting buf)) k
                    ∙ ap (take (length line)) w
                    ∙ take-append line (d ∷ rest) in
                  let whole : line ++ d ∷ rest ≡ line ++ waiting b2 =
                    sym w ∙ done.3 ∙ ap (λ xs. xs ++ waiting b2) front in
                  let left : waiting b2 ≡ d ∷ rest =
                    sym (drop-append line (waiting b2))
                    ∙ ap (drop (length line)) (sym whole)
                    ∙ drop-append line (d ∷ rest) in
                  let len2 : b2.len ≡ suc (length rest) =
                    omega (arith, length-waiting b2 done.2, ap length left) in
                  let shrunk =
                    buffer_shrink-Shrinks bufsiz allocates junk positive b2 done.2 1
                      (omega (arith, small, total, len2)) in
                  let end : waiting (buffer_shrink bufsiz allocates junk b2 1) ≡ rest =
                    shrunk.1
                    ∙ ap (λ n. drop n (waiting b2)) {y = 1} (omega (arith, len2))
                    ∙ ap (drop 1) left in
                  let str : (buffer_pop bufsiz allocates junk buf (length line)).0
                      ≡ some (line ++ 0 ∷ []) =
                    done.0 ∙ ap (λ xs. some (xs ++ 0 ∷ [])) front in
                  rw (take_string, found, str) (inr (e, refl, shrunk.0, end, refl))
            ]
      ]

  -- `get`, on a stream whose waiting bytes start with a string that is ended by a delimiter or NUL,
  -- returns that string and leaves the bytes behind its end waiting, if an allocation of the size
  -- of the string and its terminator succeeds; if it does not, `get` fails and changes nothing.
  pub get-Gets :
      (io : Io) (line : Bytes) (d : ℕ) (rest : Bytes)
      → io.kind ≡ stream
      → IsValid io.recv_buf
      → io.recv_buf.len + bufsiz < 2 ^ 64
      → waiting io.recv_buf ≡ line ++ d ∷ rest
      → All (λ c. ends delim c ≡ false) line
      → ends delim d ≡ true
      → Gets allocates io line rest (get bufsiz allocates junk delim io)
  unfolding get
  get-Gets io line d rest is_stream valid small w plain e =
      elim (take_string-Takes io.recv_buf line d rest valid small w plain e) [
        | inl failed ↦
            rw (get, is_stream, failed.1)
              (inl (failed.0, ap (λ (k : Kind). (none, record io { kind = k })) is_stream))
        | inr done ↦
            rw (get, is_stream, done.4, shutdown_check-recv_buf)
              (inr (done.0, done.1, done.2, done.3))
      ]
