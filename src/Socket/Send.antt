-- ===== src/Socket/Send.antt =====
-- library/src/services/services_util.c: `send_amt`, and the final write of `send_blob`.
-- `send` is never asked for nothing here, so it takes at least one byte when it succeeds.
pub mod Fair
use cc_dey.Base.{ℕ, true, false, List, [], ◌∷◌, ◌++◌, Bytes, take, drop}
use cc_dey.Socket.{SendTurn, accepted, send_failed, Sock, Run, M, ok, err, done, blocked, failure}

unfoldable pub send_turns : List SendTurn → Bytes → Sock → Run (Unit {0})
send_turns ts [] s = done (ok tt) (record s { sends = ts })
send_turns [] (b ∷ bs) s = blocked
send_turns (accepted n ∷ ts) (b ∷ bs) s =
    send_turns ts (drop n bs) (record s { sends = ts; sent = s.sent ++ b ∷ take n bs })
send_turns (send_failed true ∷ ts) (b ∷ bs) s =
    send_turns ts (b ∷ bs) (record s { sends = ts; eintr = true })
send_turns (send_failed false ∷ ts) (b ∷ bs) s =
    done (err failure) (record s { sends = ts; eintr = false })

unfoldable pub send_amt : Bytes → M (Unit {0})
send_amt bytes s = send_turns s.sends bytes s

-- write(fd, &terminator, 1) == 1: no second attempt is made.
unfoldable pub write_turn : List SendTurn → ℕ → Sock → Run (Unit {0})
write_turn [] b s = blocked
write_turn (accepted n ∷ ts) b s = done (ok tt) (record s { sends = ts; sent = s.sent ++ b ∷ [] })
write_turn (send_failed e ∷ ts) b s = done (err failure) (record s { sends = ts; eintr = e })

unfoldable pub write_byte : ℕ → M (Unit {0})
write_byte b s = write_turn s.sends b s
