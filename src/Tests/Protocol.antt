-- ===== src/Tests/Protocol.antt =====
-- Tests of the protocol between client and daemon.
use cc_dey.Base.{◌≡◌, refl, some, [], Bytes, codes, arith}
use cc_dey.CommError
use cc_dey.Socket.Fair.{Gives}
use cc_dey.Wire.{
  send_error_codes, write_blob, send_end_of_response, c_string, write_uint32, send_blob,
  integer_text,
}
use cc_dey.Wire.Grammar.{integer_frame, error_codes_frame, blob_frame}
use cc_dey.Decimal.{decimal, digits}
use cc_dey.Socket.Send.{send_amt, send_turns, write_byte, write_turn}
use cc_dey.Client.{parse_cccsd_response}
use cc_dey.Client.Response.{outgoing, parse-send_error_codes}
use cc_dey.Tests.Sockets.{socket, socket-Fair, socket-Ready}

abbrev msg : Bytes
msg = codes "Bad request"

abbrev wire : Bytes
wire = outgoing (send_error_codes msg 5 18 0 (socket []))

wire_text : wire ≡ codes "i:2\ni:5\ni:18\ni:0\nb:i:11\nBad request\ni:0\n"
unfolding send_error_codes write_uint32 c_string send_blob integer_text decimal digits send_amt
    send_turns write_byte write_turn write_blob send_end_of_response
wire_text = refl

parse-send_error_codes_example :
    Gives 100 10
      (parse_cccsd_response 10)
      (socket wire)
      (
        CommError.from_cloud,
        record { srv_err = 5; ccapi_err = 18; cccs_err = 0; hint = some (c_string msg) },
      )
      (integer_frame 0)
unfolding c_string error_codes_frame integer_frame blob_frame decimal digits
parse-send_error_codes_example =
    parse-send_error_codes 100 10 10 0 msg 5 18 0 (socket []) (socket wire) (omega arith)
      (omega arith) (omega arith) (omega arith) refl (socket-Ready _ [] (omega arith)) refl
      (socket-Fair wire (rw wire_text (omega arith))) (λ n. refl) (omega arith)
