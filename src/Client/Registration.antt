-- ===== src/Client/Registration.antt =====
-- library/src/services-client/cccs_data_request.c: `send_data_request_data`, which asks the daemon
-- to register or unregister a target. The listening thread and the callbacks are not
-- modelled.
pub mod Codes
use cc_dey.Base.{ℕ, Bool, true, false, Option, none, some, Bytes, codes}
use cc_dey.CommError
use cc_dey.Socket.{Sock, Reply, M, ok, err, ◌>>=◌, ◌>>◌, pure, attempt}
use cc_dey.Wire.{write_uint32, write_string}
use cc_dey.Client.{SrvResp, no_error, parse_cccsd_response}
use cc_dey.Client.Upload.{Resp, Call, refused, ran}

-- dreq_action_type_t
pub data Action : Type 0 where
  register_dr unregister_dr unknown : Action

-- req_action_type_tags
unfoldable pub action_tag : Action → Bytes
action_tag register_dr = codes "register_devicerequest"
action_tag unregister_dr = codes "unregister_devicerequest"
action_tag unknown = codes "unknown"

-- The request; the port, an int, is written as a uint32_t.
unfoldable pub write_registration : Action → ℕ → Bytes → M (Unit {0})
unfolding action_tag
write_registration type port target = do
  write_string (action_tag type)
  write_uint32 port
  write_string target
  write_uint32 0

-- resp->code is the third code alone, whatever the others are.
unfoldable pub conclude : ℕ → SrvResp → ℕ × Resp
conclude ret r = (ret, record { code = r.cccs_err; hint = r.hint })

unfoldable pub parse_registered : ℕ → Reply (Unit {0}) → M (ℕ × Resp)
unfolding conclude
parse_registered timeout (err c) = pure (conclude CommError.bad_response no_error)
parse_registered timeout (ok _) = do (ret, r) ← parse_cccsd_response timeout; pure (conclude ret r)

unfoldable pub is_unknown : Action → Bool
is_unknown unknown = true
is_unknown _ = false

-- `connect` is what connect_cccsd gives.
unfoldable pub send_data_request_data : Action → ℕ → Bytes → ℕ → Option Sock → Call
unfolding parse_registered is_unknown
send_data_request_data type port target timeout connect = elim (is_unknown type) [
  | true ↦ refused (conclude CommError.invalid_argument no_error)
  | false ↦ elim connect [
    | none ↦ refused (conclude CommError.unable_to_connect no_error)
    | some s ↦ ran (
        (do
          written ← attempt (write_registration type port target)
          parse_registered timeout written)
          s)
  ]
]
