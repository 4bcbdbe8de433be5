-- ===== src/Io/Stream.antt =====
-- nih/io.c: reading from and writing to an `NihIo`, which is a stream or a queue of messages.
pub mod Lines
use libnih.Prelude.{
  ℕ, zero, suc, ◌+◌, Bool, true, false, not, ◌&&◌, ◌||◌, Option, none, some, List, [], ◌∷◌, ◌++◌,
  ◌==◌, if◌then◌else◌, ◌>>=◌, take, length,
}
use libnih.CString.{Bytes, strchr}
use libnih.Io.Buffer.{Buffer, memory, buffer_new, buffer_pop, buffer_push, buffer_shrink}

-- `NihIoType`
pub data Kind : Type 0 where
  stream : Kind
  message : Kind

-- A message is its data here. `writes` is whether the watch waits to write, and `closed` how often
-- `nih_io_closed` was called.
pub record Io : Type 0 where
  pub kind : Kind
  pub send_buf : Buffer
  pub recv_buf : Buffer
  pub send_q : List Buffer
  pub recv_q : List Buffer
  pub writes : Bool
  pub shutdown : Bool
  pub closed : ℕ

abbrev pub is_empty : List Buffer → Bool
is_empty [] = true
is_empty (m ∷ q) = false

abbrev pub is_done : Kind → Io → Bool
is_done stream io = io.send_buf.len == 0 && io.recv_buf.len == 0
is_done message io = is_empty io.send_q && is_empty io.recv_q

unfoldable pub shutdown_check : Io → Io
shutdown_check io =
    if io.shutdown && is_done io.kind io then record io { closed = io.closed + 1 } else io

unfoldable pub shutdown : Io → Io
shutdown io = shutdown_check (record io { shutdown = true })

-- `nih_unref (message, io)` of the first message, if its data is used up
abbrev pub drop_used : Buffer → List Buffer → List Buffer
drop_used m q = if m.len == 0 then q else m ∷ q

unfoldable pub read_message : Io → Option Buffer × Io
read_message io = elim io.recv_q [
  | [] ↦ (none, shutdown_check io)
  | m ∷ q ↦ (some m, shutdown_check (record io { recv_q = q }))
]

unfoldable pub send_message : Buffer → Io → Io
send_message m io = record io { send_q = io.send_q ++ m ∷ []; writes = true }

-- where the loop of `nih_io_get` finds the end of the string, from the byte `i` on
unfoldable pub find_end : Bytes → ℕ → Bytes → Option ℕ
find_end delim i [] = none
find_end delim i (c ∷ bytes) =
    if strchr delim c || c == 0 then some i else find_end delim (suc i) bytes

module _ (bufsiz : ℕ) (allocates : ℕ → Bool) (junk : ℕ) where
  -- What `nih_io_get` takes off a buffer, the buffer after it, and whether it fails.
  unfoldable pub take_string : Bytes → Buffer → Option Bytes × Buffer × Bool
  take_string delim buf = elim (find_end delim 0 (take buf.len (memory buf.buf))) [
    | none ↦ (none, buf, false)
    | some i ↦
        let popped = buffer_pop bufsiz allocates junk buf i in
        elim popped.0 [
          | none ↦ (none, popped.2, true)
          | some str ↦ (some str, buffer_shrink bufsiz allocates junk popped.2 1, false)
        ]
  ]

  unfoldable pub get : Bytes → Io → Option Bytes × Io
  get delim io = elim io.kind [
    | stream ↦
        let r = take_string delim io.recv_buf in
        let after = record io { recv_buf = r.1 } in
        (r.0, if r.2 then after else shutdown_check after)
    | message ↦ elim io.recv_q [
      | [] ↦ (none, shutdown_check io)
      | m ∷ q ↦
          let r = take_string delim m in
          (
            r.0,
            if r.2
                then record io { recv_q = r.1 ∷ q }
                else shutdown_check (record io { recv_q = drop_used r.1 q }),
          )
    ]
  ]

  -- The string with its terminator, and `*len`; the empty one may be allocated too.
  unfoldable pub read : ℕ → Io → Option Bytes × ℕ × Io
  read len io = elim io.kind [
    | stream ↦
        let r = buffer_pop bufsiz allocates junk io.recv_buf len in
        (r.0, r.1, shutdown_check (record io { recv_buf = r.2 }))
    | message ↦ elim io.recv_q [
      | [] ↦ (if allocates 1 then some (0 ∷ []) else none, 0, shutdown_check io)
      | m ∷ q ↦
          let r = buffer_pop bufsiz allocates junk m len in
          (r.0, r.1, shutdown_check (record io { recv_q = drop_used r.2 q }))
    ]
  ]

  -- `made` says whether a new message can be allocated; `false` is the result -1.
  unfoldable pub write : Bool → Bytes → ℕ → Io → Option (Bool × Io)
  write made str len io = elim io.kind [
    | stream ↦ buffer_push bufsiz allocates junk io.send_buf str len >>= λ r. some (
      r.0,
      record io { send_buf = r.1; writes = if r.0 && not (r.1.len == 0) then true else io.writes },
    )
    | message ↦ elim (buffer_new made) [
      | none ↦ some (false, io)
      | some m ↦ buffer_push bufsiz allocates junk m str len >>= λ r.
          some (r.0, if r.0 then send_message r.1 io else io)
    ]
  ]
