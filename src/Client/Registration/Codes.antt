-- ===== src/Client/Registration/Codes.antt =====
-- What the caller of a registration is given, and what goes over the wire for it.
use cc_dey.Base.{ℕ, ◌+◌, ◌<◌, ◌≡◌, ap, ◌∙◌, true, false, some, ◌++◌, Bytes, length, arith}
use cc_dey.CommError
use cc_dey.Socket.{Sock, ok, done, continue, pure, attempt_run}
use cc_dey.Socket.Fair.{Fair, Patient}
use cc_dey.Socket.Send.Fair.{Ready, Emits}
use cc_dey.Wire.{u32_mod, c_string, write_string, write_uint32}
use cc_dey.Wire.Grammar.{integer_frame, error_codes_frame}
use cc_dey.Wire.Write.{Writes, Writes-then, write_uint32-Writes}
use cc_dey.Client.{client_timeout}
use cc_dey.Client.Response.{parse-error_codes, error_codes_frame-append}
use cc_dey.Client.Upload.{ran}
use cc_dey.Client.Upload.Frame.{string_frame, write_string-Writes}
use cc_dey.Client.Upload.Codes.{Fair-Quiet}
use cc_dey.Client.Registration.{
  Action, register_dr, unregister_dr, unknown, action_tag, write_registration, conclude,
  parse_registered, is_unknown, send_data_request_data,
}

-- The bytes of a request.
unfoldable pub request_frame : Action → ℕ → Bytes → Bytes
request_frame type port target =
    string_frame (action_tag type)
    ++ (integer_frame port ++ (string_frame target ++ integer_frame 0))

action_tag-short : (type : Action) → length (c_string (action_tag type)) < u32_mod
unfolding action_tag c_string
action_tag-short register_dr = omega arith
action_tag-short unregister_dr = omega arith
action_tag-short unknown = omega arith

write_registration-Writes :
    (type : Action) (port : ℕ) (target : Bytes)
    → length (c_string target) < u32_mod
    → Writes (write_registration type port target) (request_frame type port target)
unfolding write_registration request_frame
write_registration-Writes type port target h =
    Writes-then (write_string (action_tag type)) _ _ _
      (write_string-Writes (action_tag type) (action_tag-short type))
      (Writes-then (write_uint32 port) _ _ _ (write_uint32-Writes port) (
        Writes-then (write_string target) _ _ _ (write_string-Writes target h)
          (write_uint32-Writes 0)))

-- A registration or its removal, on a connection that takes the whole request and brings the
-- three codes and the message of `send_error_codes`: the tag, the port, the target and the end
-- are on the wire as the grammar says, and the caller gets the daemon's third code, whatever the
-- other two are. The codes and lengths have 32 bits, the socket is fair and within the time
-- limit, and the heap has room.
pub send_data_request_data-answered :
    (base window timeout extra port : ℕ) (type : Action) (target msg : Bytes) (srv ccapi cccs : ℕ)
    (c : Sock)
    → is_unknown type ≡ false
    → length (c_string target) < u32_mod
    → srv < u32_mod
    → ccapi < u32_mod
    → cccs < u32_mod
    → length msg + 1 < u32_mod
    → Ready (length (request_frame type port target) + extra) c
    → c.incoming ≡ error_codes_frame msg srv ccapi cccs
    → Fair base window c
    → ((n : ℕ) → c.alloc n ≡ true)
    → Patient window (client_timeout timeout)
    → (s' : Sock) × (send_data_request_data type port target timeout (some c)
        ≡ ran (done (ok (CommError.from_cloud, record { code = cccs; hint = some msg })) s'))
      × (s'.sent ≡ c.sent ++ request_frame type port target)
unfolding send_data_request_data parse_registered conclude
send_data_request_data-answered base window timeout extra port type target msg srv ccapi cccs c
      known ht hs ha hc hm ready e fair roomy patient =
    let emits : Emits (write_registration type port target) (request_frame type port target) extra
        c =
      write_registration-Writes type port target ht extra c ready in
    let g =
      parse-error_codes window timeout patient msg srv ccapi cccs hs ha hc hm base (integer_frame 0)
        emits.last (Fair-Quiet emits.quiet fair) (λ n. rw emits.quiet.alloc (roomy n))
        (emits.quiet.incoming ∙ e ∙ error_codes_frame-append msg srv ccapi cccs) in
    (
      g.last,
      rw (known, send_data_request_data)
          (ap (λ x. ran (continue (attempt_run x) (parse_registered timeout))) emits.runs
            ∙ ap (λ r. ran (continue r (λ p. pure (conclude p.0 p.1)))) g.runs),
      g.took.sent ∙ emits.sent,
    )
