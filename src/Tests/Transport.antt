-- ===== src/Tests/Transport.antt =====
-- Tests of the loops that receive and send.
use cc_dey.Base.{◌∷◌, ◌≡◌, ◌++◌, Bytes, refl, some, none, [], codes, arith}
use cc_dey.Socket.{read_amt, fault}
use cc_dey.Wire.{separator, dt_string, recv_blob}
use cc_dey.Wire.Grammar.{integer_frame}
use cc_dey.Wire.Overflow.{max_length, recv_blob-overflow}
use cc_dey.Decimal.{decimal, digits}
use cc_dey.Socket.Fair.{Gives, read_amt-Gives}
use cc_dey.Socket.Line.{read_line}
use cc_dey.Socket.Line.Fair.{read_line-Gives}
use cc_dey.Socket.Send.{send_amt}
use cc_dey.Socket.Send.Fair.{Emits, send_amt-Emits}
use cc_dey.Tests.Sockets.{at, socket, socket-Fair, socket-Ready}

read_amt-Gives_example :
    Gives 100 10
      (read_amt 5 (some (at 10)))
      (socket (codes "hello world"))
      (codes "hello")
      (codes " world")
read_amt-Gives_example =
    read_amt-Gives 100 10 (codes "hello") (codes " world") (some (at 10))
      (socket (codes "hello world")) (socket-Fair (codes "hello world") (omega arith)) (omega arith)
      refl

read_line-Gives_example :
    Gives 100 10
      (read_line 16 (some (at 10)))
      (socket (codes "i:42\nrest"))
      (record { count = 5; text = codes "i:42" })
      (codes "rest")
read_line-Gives_example =
    read_line-Gives 100 10 15 (codes "i:42") (codes "rest") (some (at 10))
      (socket (codes "i:42\nrest")) (socket-Fair (codes "i:42\nrest") (omega arith)) (omega arith)
      refl (omega arith, (omega arith, (omega arith, (omega arith, tt)))) (omega arith)

send_amt-Emits_example : Emits (send_amt (codes "hello world")) (codes "hello world") 20 (socket [])
send_amt-Emits_example =
    send_amt-Emits (codes "hello world") 20 (socket []) (socket-Ready _ [] (omega arith))

abbrev huge : Bytes
huge = b's' ∷ separator ∷ integer_frame max_length ++ codes "data"

recv_blob-overflow_example : recv_blob dt_string none (socket huge) ≡ fault
unfolding integer_frame decimal digits
recv_blob-overflow_example =
    recv_blob-overflow 100 10 b's' (codes "data") none (socket huge) tt
      (socket-Fair huge (omega arith)) (λ n. refl) refl
