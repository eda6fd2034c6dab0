-- ===== src/Socket.antt =====
-- library/src/services/services_util.c, the transport: a connected stream socket with the answers
-- of the operating system, and the loops `read_amt`, `read_line` and `send_amt`.
-- A `Turn` is one round of a receiving loop: what gettimeofday, select and recv give. The system
-- chooses the turns, so a socket carries the list of those to come; a loop that uses them up is
-- still waiting (`blocked`).
pub mod Line
pub mod Send
pub mod Fair
use cc_dey.Base.{
  ℕ, zero, suc, ◌+◌, ◌-◌, min, Bool, true, false, ◌&&◌, Option, none, some, List, [], ◌∷◌, ◌++◌,
  Bytes, length, take, drop, ltb, ◌==◌, if◌then◌else◌,
}

pub record Timeval : Type 0 where
  pub sec : ℕ
  pub usec : ℕ

-- `failed e`: the call returned -1, and `e` says whether errno is EINTR.
pub data Select : Type 0 where
  ready expired : Select
  select_failed : Bool → Select

-- `chunk n`: n + 1 bytes can be had, unless the peer's stream ends before.
pub data Recv : Type 0 where
  chunk : ℕ → Recv
  recv_failed : Bool → Recv

-- `later` is the clock when the next call of this module begins.
pub record Turn : Type 0 where
  pub now : Timeval
  pub select : Select
  pub recv : Recv
  pub later : Timeval

-- `accepted n`: the system takes up to n + 1 bytes.
pub data SendTurn : Type 0 where
  accepted : ℕ → SendTurn
  send_failed : Bool → SendTurn

-- `incoming` is all that the peer has sent and will send before it closes the connection; `eintr`
-- says whether errno is EINTR; `alloc n` says whether the heap has room for n bytes.
pub record Sock : Type 0 where
  pub incoming : Bytes
  pub turns : List Turn
  pub clock : Timeval
  pub eintr : Bool
  pub sent : Bytes
  pub sends : List SendTurn
  pub alloc : ℕ → Bool

-- -ETIMEDOUT, -ENOMEM, -EPIPE and -1.
pub data Code : Type 0 where
  timed_out no_memory closed_pipe failure : Code

pub data Reply {ℓ} (A : Type ℓ) : Type ℓ where
  ok : A → Reply A
  err : Code → Reply A

-- `fault` is an access outside an object, which C leaves undefined.
pub data Run {ℓ} (A : Type ℓ) : Type ℓ where
  done : Reply A → Sock → Run A
  blocked fault : Run A

abbrev pub M {ℓ} : Type ℓ → Type ℓ
M A = Sock → Run A

abbrev pub continue {ℓ κ} : {A : Type ℓ} {B : Type κ} → Run A → (A → M B) → Run B
continue (done (ok a) s) f = f a s
continue (done (err c) s) f = done (err c) s
continue blocked f = blocked
continue fault f = fault

infixl 5 ◌>>=◌ ◌>>◌
abbrev pub ◌>>=◌ {ℓ κ} : {A : Type ℓ} {B : Type κ} → M A → (A → M B) → M B
◌>>=◌ m f s = continue (m s) f

abbrev pub ◌>>◌ {ℓ κ} : {A : Type ℓ} {B : Type κ} → M A → M B → M B
m >> n = m >>= λ _. n

abbrev pub pure {ℓ} : {A : Type ℓ} → A → M A
pure a s = done (ok a) s

abbrev pub fail {ℓ} : {A : Type ℓ} → Code → M A
fail c s = done (err c) s

-- The caller looks at the return code itself.
abbrev pub attempt_run {ℓ} : {A : Type ℓ} → Run A → Run (Reply A)
attempt_run (done r s) = done (ok r) s
attempt_run blocked = blocked
attempt_run fault = fault

abbrev pub attempt {ℓ} : {A : Type ℓ} → M A → M (Reply A)
attempt m s = attempt_run (m s)

-- timeout_limit = now + timeout, field by field, with no carry.
unfoldable pub deadline : Timeval → Timeval → Timeval
deadline now timeout = record { sec = now.sec + timeout.sec; usec = now.usec + timeout.usec }

-- The time that is given to select: each field is what is left of that field, or 0.
unfoldable pub remaining : Timeval → Timeval → Timeval
remaining limit now = record {
  sec = if ltb now.sec limit.sec then limit.sec - now.sec else 0;
  usec = if ltb now.usec limit.usec then limit.usec - now.usec else 0;
}

is_zero : Timeval → Bool
is_zero t = t.sec == 0 && t.usec == 0

select_code : Select → Option Code
select_code ready = none
select_code expired = some timed_out
select_code (select_failed e) = some failure

-- The part of a round before the data is read; `none` means that there is something to read.
unfoldable pub wait : Option Timeval → Turn → Option Code
unfolding remaining is_zero select_code
wait none t = none
wait (some limit) t =
    if is_zero (remaining limit t.now) then some timed_out else select_code t.select

-- errno after a round that ends in `wait`.
errno_select : Select → Bool → Bool
errno_select (select_failed e) b = e
errno_select _ b = b

unfoldable pub errno_wait : Option Timeval → Turn → Bool → Bool
unfolding remaining is_zero errno_select
errno_wait none t b = b
errno_wait (some limit) t b = if is_zero (remaining limit t.now) then b else errno_select t.select b

-- A socket from which the turns before `ts` are used up.
abbrev pub advance : Turn → List Turn → Sock → Sock
advance t ts s = record s { turns = ts; clock = t.later }

-- The loop of read_amt; `got` is what the buffer holds, `count` what is still to be read.
unfoldable pub read_turns : Option Timeval → List Turn → ℕ → Bytes → Sock → Run Bytes
read_turns limit ts zero got s = done (ok got) (record s { turns = ts })
read_turns limit [] (suc count) got s = blocked
read_turns limit (t ∷ ts) (suc count) got s = elim (wait limit t) [
  | some c ↦ done (err c) (record (advance t ts s) { eintr = errno_wait limit t s.eintr })
  | none ↦ elim t.recv [
    | recv_failed true ↦
        read_turns limit ts (suc count) got (record (advance t ts s) { eintr = true })
    | recv_failed false ↦ done (err failure) (record (advance t ts s) { eintr = false })
    | chunk n ↦ elim s.incoming [
      | [] ↦ elim s.eintr [
        | true ↦ read_turns limit ts (suc count) got (advance t ts s)
        | false ↦ done (err closed_pipe) (advance t ts s)
      ]
      | b ∷ rest ↦
          read_turns limit ts (count - length (take (min n count) rest))
            (got ++ b ∷ take (min n count) rest)
            (record (advance t ts s) { incoming = drop (min n count) rest })
    ]
  ]
]

abbrev pub limit_from : Timeval → Option Timeval → Option Timeval
limit_from now none = none
limit_from now (some timeout) = some (deadline now timeout)

unfoldable pub read_amt : ℕ → Option Timeval → M Bytes
read_amt count timeout s = read_turns (limit_from s.clock timeout) s.turns count [] s
