-- ===== src/Io/Buffer/History.antt =====
-- A buffer over any sequence of pushes and pops is a first-in first-out queue.
use libnih.Prelude.{
  ℕ, ◌+◌, ◌^◌, min, ◌≡◌, ◌≤◌, ◌<◌, inl, inr, refl, sym, ap, ◌∙◌, arith, Bool, Option, none, some,
  List, [], ◌∷◌, ◌++◌, if◌then◌else◌, take, length, length-take, length-append, take-append,
  append_assoc, ◌>>=◌, All,
}
use libnih.CString.{Bytes}
use libnih.Io.Buffer.{Buffer, memory, buffer_pop, buffer_push}
use libnih.Io.Buffer.Resized.{IsValid, waiting}
use libnih.Io.Buffer.Queue.{buffer_push-Pushes, buffer_pop-Pops}

pub data Call : Type 0 where
  push : Bytes → ℕ → Call
  pop : ℕ → Call

-- The buffer, the bytes that successful pushes have put in, and those that successful pops
-- returned.
pub record History : Type 0 where
  pub buffer : Buffer
  pub accepted : Bytes
  pub taken : Bytes

-- How many bytes the calls push, and that their strings have them.
abbrev pub total : List Call → ℕ
total [] = 0
total (push str len ∷ calls) = len + total calls
total (pop n ∷ calls) = total calls

abbrev pub Readable : Call → Type 0
Readable (push str len) = len ≤ length str
Readable (pop n) = Unit

total_cons : (c : Call) (calls : List Call) → total (c ∷ calls) ≡ total (c ∷ []) + total calls
total_cons (push str len) calls = omega arith
total_cons (pop n) calls = omega arith

pub record InOrder (h : History) : Type 0 where
  pub valid : IsValid h.buffer
  pub order : h.accepted ≡ h.taken ++ waiting h.buffer

pub length-waiting : (b : Buffer) → IsValid b → length (waiting b) ≡ b.len
length-waiting b valid = omega (arith, length-take b.len (memory b.buf), valid.whole, valid.inside)

-- What a pop that returned `o` has added to the bytes taken.
abbrev pub took : Bytes → Option Bytes → ℕ → Bytes
took taken none n = taken
took taken (some str) n = taken ++ take n str

module _ (bufsiz : ℕ) (allocates : ℕ → Bool) (junk : ℕ) where
  unfoldable pub call : Call → History → Option History
  call (push str len) h = buffer_push bufsiz allocates junk h.buffer str len >>= λ r.
      some (record h {
        buffer = r.1;
        accepted = if r.0 then h.accepted ++ take len str else h.accepted;
      })
  call (pop n) h =
      let r = buffer_pop bufsiz allocates junk h.buffer n in
      some (record h { buffer = r.2; taken = took h.taken r.0 r.1 })

  unfoldable pub run : List Call → History → Option History
  run [] h = some h
  run (c ∷ calls) h = call c h >>= run calls

  module _ (positive : 0 < bufsiz) where
    call-InOrder :
        (c : Call) (h : History) (room : ℕ)
        → InOrder h
        → Readable c
        → h.buffer.len + total (c ∷ []) + room + bufsiz < 2 ^ 64
        → (g : History) × (call c h ≡ some g) × InOrder g × (g.buffer.len + room + bufsiz < 2 ^ 64)
    unfolding call
    call-InOrder (push str len) h room ok l small =
        let b = h.buffer in
        elim (buffer_push-Pushes bufsiz allocates junk positive b ok.valid str len l
          (omega (arith, small))) [
            | inl failed ↦ (h, rw failed refl, ok, omega (arith, small))
            | inr done ↦ (
              record h { buffer = done.0; accepted = h.accepted ++ take len str },
              rw done.1 refl,
              record {
                valid = done.2;
                order =
                    ap (λ xs. xs ++ take len str) ok.order
                    ∙ append_assoc h.taken (waiting b) (take len str)
                    ∙ ap (◌++◌ h.taken) (sym done.3);
              },
              omega (
                arith,
                length-waiting done.0 done.2,
                ap length done.3,
                length-append (waiting b) (take len str),
                length-waiting b ok.valid,
                length-take len str,
                small,
              ),
            )
          ]
    call-InOrder (pop n) h room ok l small =
        let b = h.buffer in
        let k = min n b.len in
        let r = buffer_pop bufsiz allocates junk b n in
        elim (buffer_pop-Pops bufsiz allocates junk positive b ok.valid n (omega (arith, small))) [
          | inl failed ↦ (h, rw failed refl, ok, omega (arith, small))
          | inr done ↦
              let front = take k (waiting b) in
              let len : length front ≡ k =
                omega (arith, length-take k (waiting b), length-waiting b ok.valid) in
              let string : take r.1 (front ++ 0 ∷ []) ≡ front =
                ap (λ m. take m (front ++ 0 ∷ [])) (done.1 ∙ sym len)
                ∙ take-append front (0 ∷ []) in
              (
                record h { buffer = r.2; taken = h.taken ++ front },
                ap (λ t. some (record h { buffer = r.2; taken = t }))
                    (ap (λ o. took h.taken o r.1) done.0 ∙ ap (◌++◌ h.taken) string),
                record {
                  valid = done.2;
                  order =
                      ok.order
                      ∙ ap (◌++◌ h.taken) done.3
                      ∙ sym (append_assoc h.taken front (waiting r.2));
                },
                omega (
                  arith,
                  length-waiting r.2 done.2,
                  ap length done.3,
                  length-append front (waiting r.2),
                  length-waiting b ok.valid,
                  small,
                ),
              )
        ]

    -- Over any sequence of pushes and pops whose strings have the bytes that they push, from a
    -- valid buffer where the bytes put in are those taken out and then those that wait, this stays
    -- so, every call returns, and the buffer stays valid, as long as all the bytes pushed do not
    -- make the arithmetic wrap around; `BUFSIZ` is not 0.
    pub run-InOrder :
        (calls : List Call) (h : History)
        → InOrder h
        → All Readable calls
        → h.buffer.len + total calls + bufsiz < 2 ^ 64
        → (g : History) × (run calls h ≡ some g) × InOrder g
    unfolding run
    run-InOrder [] h ok l small = (h, refl, ok)
    run-InOrder (c ∷ calls) h ok l small =
        let first =
          call-InOrder c h (total calls) ok l.0 (omega (arith, total_cons c calls, small)) in
        let others = run-InOrder calls first.0 first.2 l.1 first.3 in
        (others.0, rw first.1 others.1, others.2)
