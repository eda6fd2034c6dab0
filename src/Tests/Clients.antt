-- ===== src/Tests/Clients.antt =====
-- Tests of the requests that a client makes.
use cc_dey.Base.{◌≡◌, refl, some, Bytes, codes, arith}
use cc_dey.CommError
use cc_dey.Socket.{Sock, done, ok}
use cc_dey.Wire.{c_string}
use cc_dey.Wire.Grammar.{integer_frame, error_codes_frame, blob_frame}
use cc_dey.Decimal.{decimal, digits}
use cc_dey.Client.Upload.{
  Upload, upload_type, or_empty, metrics_binary, send_dp_data, ran, is_invalid,
}
use cc_dey.Client.Upload.Frame.{upload_frame, data_frame, string_frame, stream_frame}
use cc_dey.Client.Upload.Codes.{send_dp_data-answered}
use cc_dey.Client.Registration.{register_dr, action_tag, is_unknown, send_data_request_data}
use cc_dey.Client.Registration.Codes.{request_frame, send_data_request_data-answered}
use cc_dey.Tests.Sockets.{socket, socket-Fair, socket-Ready}

abbrev point : Upload
point = metrics_binary (some (codes "22.5")) (some (codes "temp"))

-- The daemon answers that the server refused: error 3 of the server, with its marker.
abbrev refusal : Bytes
refusal = error_codes_frame (codes "no") 3 0 CommError.srv_error

send_dp_data-answered_example :
    (s' : Sock) × (send_dp_data point 10 (some (socket refusal))
      ≡ ran (done (ok (CommError.from_cloud, record { code = 3; hint = some (codes "no") })) s'))
    × (s'.sent ≡ upload_frame point)
unfolding c_string error_codes_frame integer_frame blob_frame decimal digits upload_frame data_frame
    string_frame stream_frame is_invalid or_empty upload_type
send_dp_data-answered_example =
    send_dp_data-answered 100 10 10 0 point (codes "no") 3 0 CommError.srv_error (socket refusal)
      refl (omega arith, omega arith) (omega arith) (omega arith) (omega arith) (omega arith)
      (socket-Ready _ refusal (omega arith)) refl (socket-Fair refusal (omega arith)) (λ n. refl)
      (omega arith)

send_data_request_data-answered_example :
    (s' : Sock) × (send_data_request_data register_dr 4000 (codes "led") 10 (some (socket refusal))
      ≡ ran (
          done
            (ok (
              CommError.from_cloud,
              record { code = CommError.srv_error; hint = some (codes "no") },
            ))
            s'))
    × (s'.sent ≡ request_frame register_dr 4000 (codes "led"))
unfolding c_string error_codes_frame integer_frame blob_frame decimal digits request_frame
    string_frame action_tag is_unknown
send_data_request_data-answered_example =
    send_data_request_data-answered 100 10 10 0 4000 register_dr (codes "led") (codes "no") 3 0
      CommError.srv_error (socket refusal) refl (omega arith) (omega arith) (omega arith)
      (omega arith) (omega arith) (socket-Ready _ refusal (omega arith)) refl
      (socket-Fair refusal (omega arith)) (λ n. refl) (omega arith)
