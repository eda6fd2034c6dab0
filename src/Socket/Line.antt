-- ===== src/Socket/Line.antt =====
-- library/src/services/services_util.c: `read_line`.
pub mod Fair
use cc_dey.Base.{
  ℕ, zero, suc, ◌+◌, ◌-◌, min, true, false, Option, none, some, List, [], ◌∷◌, ◌++◌, Bytes, length,
  take, drop, ◌==◌, if◌then◌else◌,
}
use cc_dey.Socket.{
  Timeval, Turn, Sock, Run, M, ok, err, done, blocked, failure, chunk, recv_failed, wait,
  errno_wait, advance, limit_from,
}

abbrev pub terminator : ℕ
terminator = b'\n'

-- memchr(buf, TERMINATOR, bytes_read): the offset of the first terminator.
unfoldable pub find_terminator : Bytes → Option ℕ
find_terminator [] = none
find_terminator (b ∷ bs) =
    if b == terminator
    then some 0
    else elim (find_terminator bs) [ none ↦ none | some k ↦ some (suc k) ]

-- All but the last byte: what is left of the text when `buf[-1] = '\0'` cuts it.
unfoldable pub but_last : Bytes → Bytes
but_last [] = []
but_last (b ∷ []) = []
but_last (b ∷ c ∷ bs) = b ∷ but_last (c ∷ bs)

-- What read_line gives: its return value and the bytes that it leaves before the '\0'.
pub record Line : Type 0 where
  pub count : ℕ
  pub text : Bytes

-- The loop once the buffer is full: a byte at a time until the terminator.
unfoldable pub overrun_turns : Option Timeval → List Turn → Bytes → Sock → Run Line
overrun_turns limit [] buf s = blocked
overrun_turns limit (t ∷ ts) buf s = elim (wait limit t) [
  | some c ↦ done (err c) (record (advance t ts s) { eintr = errno_wait limit t s.eintr })
  | none ↦ elim t.recv [
    | recv_failed true ↦ overrun_turns limit ts buf (record (advance t ts s) { eintr = true })
    | recv_failed false ↦ done (err failure) (record (advance t ts s) { eintr = false })
    | chunk n ↦ elim s.incoming [
      | [] ↦ done (err failure) (record (advance t ts s) { eintr = false })
      | ch ∷ rest ↦ elim (ch == terminator) [
        | true ↦
            done (ok (record { count = length buf - 1; text = but_last buf }))
              (record (advance t ts s) { incoming = rest })
        | false ↦ overrun_turns limit ts buf (record (advance t ts s) { incoming = rest })
      ]
    ]
  ]
]

-- The loop of read_line: `left` bytes of the buffer are free, and `buf` are those stored.
-- A round peeks at a chunk, and takes it up to its terminator, or whole if it holds none.
unfoldable pub line_turns : Option Timeval → List Turn → ℕ → Bytes → Sock → Run Line
line_turns limit ts zero buf s = overrun_turns limit ts buf s
line_turns limit [] (suc left) buf s = blocked
line_turns limit (t ∷ ts) (suc left) buf s = elim (wait limit t) [
  | some c ↦ done (err c) (record (advance t ts s) { eintr = errno_wait limit t s.eintr })
  | none ↦ elim t.recv [
    | recv_failed true ↦
        line_turns limit ts (suc left) buf (record (advance t ts s) { eintr = true })
    | recv_failed false ↦ done (err failure) (record (advance t ts s) { eintr = false })
    | chunk n ↦ elim s.incoming [
      | [] ↦ done (err failure) (record (advance t ts s) { eintr = false })
      | b ∷ rest ↦ elim (find_terminator (b ∷ take (min n left) rest)) [
        | some k ↦
            done
              (ok (record {
                count = length buf + (k + 1);
                text = buf ++ take k (b ∷ take (min n left) rest);
              }))
              (record (advance t ts s) { incoming = drop (k + 1) (b ∷ rest) })
        | none ↦
            line_turns limit ts (left - length (take (min n left) rest))
              (buf ++ b ∷ take (min n left) rest)
              (record (advance t ts s) { incoming = drop (min n left) rest })
      ]
    ]
  ]
]

-- A capacity of 0 is refused.
unfoldable pub read_line : ℕ → Option Timeval → M Line
unfolding line_turns
read_line zero timeout s = done (err failure) (record s { eintr = false })
read_line (suc left) timeout s = line_turns (limit_from s.clock timeout) s.turns (suc left) [] s
