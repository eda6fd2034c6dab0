-- ===== src/Client/Response.antt =====
-- What the client makes of each response of the daemon.
use cc_dey.Base.{
  ℕ, ◌+◌, ◌<◌, ◌≡◌, refl, sym, ap, ◌∙◌, true, Option, some, [], ◌++◌, append-nil, append_assoc,
  Bytes, length, arith, subst,
}
use cc_dey.CommError
use cc_dey.Socket.{Timeval, Sock, Run, M, ok, done, ◌>>=◌, pure, attempt}
use cc_dey.Socket.Fair.{Fair, Patient, Gives}
use cc_dey.Socket.Send.Fair.{Ready, Emits}
use cc_dey.Wire.{
  dt_blob, u32_mod, c_string, read_uint32, read_blob, resp_end_of_message, resp_error,
  resp_errorcode, send_ok, send_error, send_error_codes,
}
use cc_dey.Wire.Grammar.{integer_frame, blob_frame, error_frame, error_codes_frame}
use cc_dey.Wire.Read.{
  Reads, Reads-bind, Reads-attempt, Reads-pure, Reads-still, read_uint32-Reads, recv_blob-Reads,
}
use cc_dey.Wire.Write.{send_ok-Writes, send_error-Writes, send_error_codes-Writes}
use cc_dey.Client.{
  SrvResp, no_error, client_timeout, fetched, read_error, after_message, read_message, or_return,
  with_srv, with_ccapi, read_codes, on_code, parse_cccsd_response,
}

module _ (window : ℕ) (limit : Option Timeval) (patient : Patient window limit) where
  read_error-Reads :
      (value : ℕ)
      → value < u32_mod
      → Reads (read_error limit) window (integer_frame value) (fetched value)
  unfolding read_error
  read_error-Reads value h =
      Reads-pure window (attempt (read_uint32 limit)) _ (integer_frame value) (ok value) (
        Reads-attempt window (read_uint32 limit) (integer_frame value) value
          (read_uint32-Reads window value limit patient h))

  read_message-Reads :
      (resp : SrvResp) (msg : Bytes)
      → length msg + 1 < u32_mod
      → Reads
          (read_message limit resp)
          window
          (blob_frame dt_blob msg)
          (CommError.from_cloud, record resp { hint = some msg })
  unfolding read_message read_blob
  read_message-Reads resp msg h =
      Reads-pure window (attempt (read_blob limit)) (after_message resp) (blob_frame dt_blob msg)
        (ok msg)
        (Reads-attempt window (read_blob limit) (blob_frame dt_blob msg) msg
          (recv_blob-Reads window dt_blob msg limit patient h))

  -- The answer to RESP_ERRORCODE: all three codes and the message.
  read_codes-Reads :
      (msg : Bytes) (srv ccapi cccs : ℕ)
      → srv < u32_mod
      → ccapi < u32_mod
      → cccs < u32_mod
      → length msg + 1 < u32_mod
      → Reads
          (read_codes limit)
          window
          (integer_frame srv
            ++ (integer_frame ccapi ++ (integer_frame cccs ++ blob_frame dt_blob msg)))
          (
            CommError.from_cloud,
            record { srv_err = srv; ccapi_err = ccapi; cccs_err = cccs; hint = some msg },
          )
  unfolding read_codes
  read_codes-Reads msg srv ccapi cccs hs ha hc hm =
      Reads-bind window (read_error limit) _ (integer_frame srv) _ (fetched srv) _
        (read_error-Reads srv hs)
        (Reads-bind window (read_error limit) _ (integer_frame ccapi) _ (fetched ccapi) _
          (read_error-Reads ccapi ha)
          (Reads-bind window (read_error limit) _ (integer_frame cccs) _ (fetched cccs) _
            (read_error-Reads cccs hc)
            (read_message-Reads (record (with_ccapi ccapi (with_srv srv)) { cccs_err = cccs }) msg
              hm)))

  on_code-Reads :
      (value : ℕ) (rest : Bytes) (out : ℕ × SrvResp)
      → value < u32_mod
      → Reads (on_code limit value) window rest out
      → Reads
          (do code ← read_error limit; or_return no_error (on_code limit) code)
          window
          (integer_frame value ++ rest)
          out
  unfolding or_return
  on_code-Reads value rest out h r =
      Reads-bind window (read_error limit) _ (integer_frame value) rest (fetched value) out
        (read_error-Reads value h) r

  ok-Reads : Reads (on_code limit resp_end_of_message) window [] (CommError.none, no_error)
  unfolding on_code
  ok-Reads =
      Reads-still window (pure (CommError.none, no_error)) (CommError.none, no_error)
        (λ s roomy. refl)

module _ (window timeout : ℕ) (patient : Patient window (client_timeout timeout)) where
  parse-ok :
      Reads (parse_cccsd_response timeout) window (integer_frame 0) (CommError.none, no_error)
  unfolding parse_cccsd_response
  parse-ok =
      subst (λ l. Reads (parse_cccsd_response timeout) window l (CommError.none, no_error))
        (append-nil (integer_frame 0))
        (on_code-Reads window (client_timeout timeout) patient 0 [] (CommError.none, no_error)
          (omega arith) (ok-Reads window (client_timeout timeout) patient))

  parse-error :
      (msg : Bytes)
      → length msg + 1 < u32_mod
      → Reads
          (parse_cccsd_response timeout)
          window
          (integer_frame resp_error ++ blob_frame dt_blob msg)
          (
            CommError.from_cloud,
            record {
              srv_err = 255;
              ccapi_err = 0;
              cccs_err = CommError.srv_error;
              hint = some msg;
            },
          )
  unfolding parse_cccsd_response on_code
  parse-error msg h =
      on_code-Reads window (client_timeout timeout) patient resp_error (blob_frame dt_blob msg) _
        (omega arith)
        (read_message-Reads window (client_timeout timeout) patient
          (record no_error { srv_err = 255; cccs_err = CommError.srv_error }) msg h)

  pub parse-error_codes :
      (msg : Bytes) (srv ccapi cccs : ℕ)
      → srv < u32_mod
      → ccapi < u32_mod
      → cccs < u32_mod
      → length msg + 1 < u32_mod
      → Reads
          (parse_cccsd_response timeout)
          window
          (integer_frame resp_errorcode
            ++ (integer_frame srv
                ++ (integer_frame ccapi ++ (integer_frame cccs ++ blob_frame dt_blob msg))))
          (
            CommError.from_cloud,
            record { srv_err = srv; ccapi_err = ccapi; cccs_err = cccs; hint = some msg },
          )
  unfolding parse_cccsd_response on_code
  parse-error_codes msg srv ccapi cccs hs ha hc hm =
      on_code-Reads window (client_timeout timeout) patient resp_errorcode _ _ (omega arith)
        (read_codes-Reads window (client_timeout timeout) patient msg srv ccapi cccs hs ha hc hm)

-- What has been sent when a run is over.
abbrev pub outgoing : Run (Unit {0}) → Bytes
outgoing run = elim run [ done r s ↦ s.sent | _ ↦ [] ]

outgoing-Emits :
    (m : M (Unit {0})) (bytes : Bytes) (extra : ℕ) (d : Sock)
    → Emits m bytes extra d
    → d.sent ≡ []
    → outgoing (m d) ≡ bytes
outgoing-Emits m bytes extra d e h = rw e.runs (e.sent ∙ ap (λ l. l ++ bytes) h)

-- The parts of a response of the daemon, told from its end marker.
pub error_codes_frame-append :
    (msg : Bytes) (srv ccapi cccs : ℕ)
    → error_codes_frame msg srv ccapi cccs
      ≡ (integer_frame resp_errorcode
          ++ (integer_frame srv
              ++ (integer_frame ccapi ++ (integer_frame cccs ++ blob_frame dt_blob msg))))
        ++ integer_frame 0
unfolding error_codes_frame
error_codes_frame-append msg srv ccapi cccs = simp append_assoc

error_frame-append :
    (msg : Bytes)
    → error_frame msg ≡ (integer_frame resp_error ++ blob_frame dt_blob msg) ++ integer_frame 0
unfolding error_frame
error_frame-append msg = simp append_assoc

-- The two programs agree on the protocol: what the client parses of what `send_error_codes` wrote
-- is exactly the three codes and the message, and one end marker is left unread. The codes have
-- 32 bits, as has the length of the message with its terminator. The daemon's socket `d` has sent
-- nothing yet and takes the response, in pieces of any size; the client's socket `c` is fair (it
-- brings what `d` has sent in other pieces, with interruptions, within the time limit), and its
-- heap has room.
pub parse-send_error_codes :
    (base window timeout extra : ℕ) (msg : Bytes) (srv ccapi cccs : ℕ) (d c : Sock)
    → srv < u32_mod
    → ccapi < u32_mod
    → cccs < u32_mod
    → length (c_string msg) + 1 < u32_mod
    → d.sent ≡ []
    → Ready (length (error_codes_frame (c_string msg) srv ccapi cccs) + extra) d
    → c.incoming ≡ outgoing (send_error_codes msg srv ccapi cccs d)
    → Fair base window c
    → ((n : ℕ) → c.alloc n ≡ true)
    → Patient window (client_timeout timeout)
    → Gives base window
        (parse_cccsd_response timeout)
        c
        (
          CommError.from_cloud,
          record { srv_err = srv; ccapi_err = ccapi; cccs_err = cccs; hint = some (c_string msg) },
        )
        (integer_frame 0)
parse-send_error_codes base window timeout extra msg srv ccapi cccs d c hs ha hc hm empty ready
      in_eq fair roomy patient =
    parse-error_codes window timeout patient (c_string msg) srv ccapi cccs hs ha hc hm base
      (integer_frame 0) c fair roomy
      (in_eq
        ∙ outgoing-Emits (send_error_codes msg srv ccapi cccs) _ extra d
            (send_error_codes-Writes msg srv ccapi cccs (omega arith) extra d ready) empty
        ∙ error_codes_frame-append (c_string msg) srv ccapi cccs)

-- What the client parses of what `send_error` wrote is the server code 255, the marker of a
-- server error, and the message as the hint; one end marker is left unread. The length of the
-- message with its terminator has 32 bits. The daemon's socket `d` has sent nothing yet and takes
-- the response, in pieces of any size; the client's socket `c` is fair (it brings what `d` has
-- sent in other pieces, with interruptions, within the time limit), and its heap has room.
pub parse-send_error :
    (base window timeout extra : ℕ) (msg : Bytes) (d c : Sock)
    → length (c_string msg) + 1 < u32_mod
    → d.sent ≡ []
    → Ready (length (error_frame (c_string msg)) + extra) d
    → c.incoming ≡ outgoing (send_error msg d)
    → Fair base window c
    → ((n : ℕ) → c.alloc n ≡ true)
    → Patient window (client_timeout timeout)
    → Gives base window
        (parse_cccsd_response timeout)
        c
        (
          CommError.from_cloud,
          record {
            srv_err = 255;
            ccapi_err = 0;
            cccs_err = CommError.srv_error;
            hint = some (c_string msg);
          },
        )
        (integer_frame 0)
parse-send_error base window timeout extra msg d c hm empty ready in_eq fair roomy patient =
    parse-error window timeout patient (c_string msg) hm base (integer_frame 0) c fair roomy (
      in_eq
      ∙ outgoing-Emits (send_error msg) _ extra d
          (send_error-Writes msg (omega arith) extra d ready) empty
      ∙ error_frame-append (c_string msg))

-- What the client parses of what `send_ok` wrote is that there is no error, and nothing is left
-- unread. The daemon's socket `d` has sent nothing yet and takes the response, in pieces of any
-- size; the client's socket `c` is fair (it brings what `d` has sent in other pieces, with
-- interruptions, within the time limit), and its heap has room.
pub parse-send_ok :
    (base window timeout extra : ℕ) (d c : Sock)
    → d.sent ≡ []
    → Ready (length (integer_frame 0) + extra) d
    → c.incoming ≡ outgoing (send_ok d)
    → Fair base window c
    → ((n : ℕ) → c.alloc n ≡ true)
    → Patient window (client_timeout timeout)
    → Gives base window (parse_cccsd_response timeout) c (CommError.none, no_error) []
parse-send_ok base window timeout extra d c empty ready in_eq fair roomy patient =
    parse-ok window timeout patient base [] c fair roomy (
      in_eq
      ∙ outgoing-Emits send_ok (integer_frame 0) extra d (send_ok-Writes extra d ready) empty
      ∙ sym (append-nil (integer_frame 0)))
