-- ===== src/Tests/Daemons.antt =====
-- Tests of the daemon's handlers.
use cc_dey.Base.{◌≡◌, refl, some, none, [], ◌∷◌, ◌++◌, Bytes, codes, arith}
use cc_dey.Socket.{Sock, done, ok}
use cc_dey.Wire.{c_string}
use cc_dey.Wire.Grammar.{integer_frame, error_codes_frame, blob_frame}
use cc_dey.Decimal.{decimal, digits}
use cc_dey.Client.Upload.{Upload, upload_type, or_empty, metrics_binary, is_invalid}
use cc_dey.Client.Upload.Frame.{data_frame, string_frame, stream_frame}
use cc_dey.Daemon.Upload.{Answer, Cloud, handle_datapoint_file_upload, with_hint, server_error}
use cc_dey.Daemon.Upload.Received.{posted}
use cc_dey.Daemon.Upload.Served.{failure_frame, handle_upload-accepted, handle_upload-refused}
use cc_dey.Tests.Sockets.{socket, socket-Fair, socket-Ready}

abbrev point : Upload
point = metrics_binary (some (codes "22.5")) (some (codes "temp"))

-- A cloud that gives one answer, and a backlog that stores all.
abbrev cloud : Answer → Cloud
cloud a = record { send = λ p. a; store = λ p e. 0; message = λ p e. codes "Cloud error" }

abbrev taken : Cloud
taken = cloud (record { error = 0; hint = []; server = none })

abbrev refused : Cloud
refused = cloud (record { error = 19; hint = codes "full"; server = some 4 })

abbrev request : Bytes
request = integer_frame (upload_type point) ++ (data_frame point ++ (integer_frame 0 ++ []))

handle_upload-accepted_example :
    (s' : Sock) × (handle_datapoint_file_upload taken 2 (socket request)
      ≡ done (ok (0, posted point ∷ [])) s')
    × (s'.sent ≡ integer_frame 0)
    × (s'.incoming ≡ [])
unfolding integer_frame blob_frame decimal digits data_frame string_frame stream_frame c_string
    or_empty upload_type is_invalid
handle_upload-accepted_example =
    handle_upload-accepted taken 100 10 0 0 point [] (socket request) (omega arith) refl
      (omega arith, omega arith) refl (socket-Fair request (omega arith)) (λ n. refl)
      (socket-Ready _ request (omega arith)) refl refl

handle_upload-refused_example :
    (s' : Sock) × (handle_datapoint_file_upload refused 1 (socket request)
      ≡ done (ok (1, posted point ∷ [])) s')
    × (s'.sent ≡ failure_frame refused (posted point))
unfolding integer_frame blob_frame decimal digits data_frame string_frame stream_frame c_string
    or_empty upload_type is_invalid with_hint server_error error_codes_frame
handle_upload-refused_example =
    handle_upload-refused refused 100 10 0 0 point (integer_frame 0 ++ []) (socket request)
      (omega arith) refl (omega arith, omega arith) refl (socket-Fair request (omega arith))
      (λ n. refl) (omega arith) (socket-Ready _ request (omega arith)) (omega arith)
