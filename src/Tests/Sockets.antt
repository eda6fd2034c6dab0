-- ===== src/Tests/Sockets.antt =====
-- Sockets for the tests: the daemon's takes seven bytes at a time, and the client's brings three
-- and is interrupted once.
use cc_dey.Base.{
  ℕ, zero, suc, ◌≤◌, ◌≡◌, refl, ap, true, false, List, [], ◌∷◌, Bytes, length, All, arith,
}
use cc_dey.Socket.Fair.{Prompt, chunks, Fair}
use cc_dey.Socket.Send.Fair.{IsLive, room, Ready}
use cc_dey.Socket.{Timeval, ready, chunk, recv_failed, Turn, accepted, SendTurn, Sock}

abbrev pub at : ℕ → Timeval
at t = record { sec = t; usec = 0 }

abbrev turn : Turn
turn = record { now = at 100; select = ready; recv = chunk 2; later = at 100 }

abbrev interrupted : Turn
interrupted = record { now = at 100; select = ready; recv = recv_failed true; later = at 100 }

abbrev pub turns : ℕ → List Turn
turns zero = interrupted ∷ []
turns (suc n) = turn ∷ turns n

abbrev pub sends : ℕ → List SendTurn
sends zero = []
sends (suc n) = accepted 6 ∷ sends n

-- A socket that brings `bytes` and takes what is written to it.
abbrev pub socket : Bytes → Sock
socket bytes = record {
  incoming = bytes;
  turns = turns 120;
  clock = at 100;
  eintr = false;
  sent = [];
  sends = sends 120;
  alloc = λ n. true;
}

turns-Prompt : (n : ℕ) → All (Prompt 100 10) (turns n)
turns-Prompt zero =
    (record { is_ready = refl; live = refl; after = omega arith; before = omega arith }, tt)
turns-Prompt (suc n) = (
  record { is_ready = refl; live = tt; after = omega arith; before = omega arith },
  turns-Prompt n,
)

chunks-turns : (n : ℕ) → chunks (turns n) ≡ n
chunks-turns zero = refl
chunks-turns (suc n) = ap suc (chunks-turns n)

sends-IsLive : (n : ℕ) → All IsLive (sends n)
sends-IsLive zero = tt
sends-IsLive (suc n) = (tt, sends-IsLive n)

room-sends : (n : ℕ) → room (sends n) ≡ n
room-sends zero = refl
room-sends (suc n) = ap suc (room-sends n)

pub socket-Fair : (bytes : Bytes) → length bytes ≤ 120 → Fair 100 10 (socket bytes)
socket-Fair bytes h = record {
  started = omega arith;
  prompt = turns-Prompt 120;
  enough = omega (arith, chunks-turns 120);
}

pub socket-Ready : (count : ℕ) (bytes : Bytes) → count ≤ 120 → Ready count (socket bytes)
socket-Ready count bytes h = record {
  live = sends-IsLive 120;
  enough = omega (arith, room-sends 120);
}
