-- ===== src/Socket/Send/Fair.antt =====
-- Sending on a socket that takes bytes, in pieces of any size.
use cc_dey.Base.{
  ℕ, suc, ◌+◌, ◌≤◌, ◌≡◌, refl, sym, ap, ◌∙◌, List, [], ◌∷◌, ◌++◌, append_assoc, append-nil, Bytes,
  length, take, drop, All, arith, length-drop, take-append-drop,
}
use cc_dey.Socket.{SendTurn, accepted, send_failed, Sock, M, ok, done, ◌>>◌}
use cc_dey.Socket.Send.{send_turns, send_amt, write_turn, write_byte}

-- The last write of a blob is not made again after an interruption, so there is none.
abbrev pub IsLive : SendTurn → Type 0
IsLive (accepted n) = Unit
IsLive (send_failed e) = ⊥

-- The calls that take bytes.
abbrev pub room : List SendTurn → ℕ
room [] = 0
room (accepted n ∷ ts) = suc (room ts)
room (send_failed e ∷ ts) = room ts

-- The system will take `count` bytes or more.
pub record Ready (count : ℕ) (s : Sock) : Type 0 where
  pub live : All IsLive s.sends
  pub enough : count ≤ room s.sends

-- Only what concerns sending differs.
pub record Quiet (s s' : Sock) : Type 0 where
  pub incoming : s'.incoming ≡ s.incoming
  pub turns : s'.turns ≡ s.turns
  pub clock : s'.clock ≡ s.clock
  pub alloc : s'.alloc ≡ s.alloc

-- `m` succeeds and sends exactly `bytes`; `extra` more can be sent behind it.
pub record Emits (m : M (Unit {0})) (bytes : Bytes) (extra : ℕ) (s : Sock) : Type 0 where
  pub last : Sock
  pub runs : m s ≡ done (ok tt) last
  pub sent : last.sent ≡ s.sent ++ bytes
  pub ready : Ready extra last
  pub quiet : Quiet s last

abbrev Sent : List SendTurn → Bytes → ℕ → Sock → Type 0
Sent ts bytes extra s =
    (s' : Sock) × (send_turns ts bytes s ≡ done (ok tt) s')
    × (s'.sent ≡ s.sent ++ bytes)
    × Ready extra s'
    × Quiet s s'

send_turns-Sent :
    (ts : List SendTurn) (bytes : Bytes) (extra : ℕ) (s : Sock)
    → All IsLive ts
    → length bytes + extra ≤ room ts
    → Sent ts bytes extra s
unfolding send_turns
send_turns-Sent [] [] extra s l h = (
  record s { sends = [] },
  refl,
  sym (append-nil s.sent),
  record { live = tt; enough = omega arith },
  record { incoming = refl; turns = refl; clock = refl; alloc = refl },
)
send_turns-Sent (t ∷ ts) [] extra s l h = (
  record s { sends = t ∷ ts },
  refl,
  sym (append-nil s.sent),
  record { live = l; enough = omega arith },
  record { incoming = refl; turns = refl; clock = refl; alloc = refl },
)
send_turns-Sent [] (b ∷ bs) extra s l h = absurd (omega arith)
send_turns-Sent (accepted n ∷ ts) (b ∷ bs) extra s (_, l) h =
    let s₁ : Sock = record s { sends = ts; sent = s.sent ++ b ∷ take n bs } in
    let (s', runs, sent, ready, quiet) =
      send_turns-Sent ts (drop n bs) extra s₁ l (omega (arith, length-drop n bs)) in
    (
      s',
      runs,
      sent
          ∙ append_assoc s.sent (b ∷ take n bs) (drop n bs)
          ∙ ap (λ l. s.sent ++ b ∷ l) (take-append-drop n bs),
      ready,
      record {
        incoming = quiet.incoming;
        turns = quiet.turns;
        clock = quiet.clock;
        alloc = quiet.alloc;
      },
    )
send_turns-Sent (send_failed e ∷ ts) (b ∷ bs) extra s (l, _) h = absurd l

-- On a socket that has a call for each byte at least, each of which succeeds and takes a byte or
-- more, send_amt sends the whole buffer, in order, and changes nothing else.
pub send_amt-Emits :
    (bytes : Bytes) (extra : ℕ) (s : Sock)
    → Ready (length bytes + extra) s
    → Emits (send_amt bytes) bytes extra s
unfolding send_amt
send_amt-Emits bytes extra s r =
    let (s', runs, sent, ready, quiet) = send_turns-Sent s.sends bytes extra s r.live r.enough in
    record { last = s'; runs = runs; sent = sent; ready = ready; quiet = quiet }

pub Emits-then :
    (m n : M (Unit {0})) (xs ys : Bytes) (extra : ℕ) (s : Sock)
    → (e : Emits m xs (length ys + extra) s) → Emits n ys extra e.last
    → Emits (m >> n) (xs ++ ys) extra s
Emits-then m n xs ys extra s e f = record {
  last = f.last;
  runs = rw e.runs f.runs;
  sent = f.sent ∙ ap (λ l. l ++ ys) e.sent ∙ append_assoc s.sent xs ys;
  ready = f.ready;
  quiet = record {
    incoming = f.quiet.incoming ∙ e.quiet.incoming;
    turns = f.quiet.turns ∙ e.quiet.turns;
    clock = f.quiet.clock ∙ e.quiet.clock;
    alloc = f.quiet.alloc ∙ e.quiet.alloc;
  };
}

write_turn-Sent :
    (ts : List SendTurn) (b extra : ℕ) (s : Sock)
    → All IsLive ts
    → suc extra ≤ room ts
    → (s' : Sock) × (write_turn ts b s ≡ done (ok tt) s')
      × (s'.sent ≡ s.sent ++ b ∷ [])
      × Ready extra s'
      × Quiet s s'
unfolding write_turn
write_turn-Sent [] b extra s l h = absurd (omega arith)
write_turn-Sent (send_failed e ∷ ts) b extra s (l, _) h = absurd l
write_turn-Sent (accepted n ∷ ts) b extra s (_, l) h = (
  record s { sends = ts; sent = s.sent ++ b ∷ [] },
  refl,
  refl,
  record { live = l; enough = omega arith },
  record { incoming = refl; turns = refl; clock = refl; alloc = refl },
)

pub write_byte-Emits :
    (b extra : ℕ) (s : Sock) → Ready (suc extra) s → Emits (write_byte b) (b ∷ []) extra s
unfolding write_byte
write_byte-Emits b extra s r =
    let (s', runs, sent, ready, quiet) = write_turn-Sent s.sends b extra s r.live r.enough in
    record { last = s'; runs = runs; sent = sent; ready = ready; quiet = quiet }
