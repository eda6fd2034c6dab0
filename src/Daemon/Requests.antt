-- ===== src/Daemon/Requests.antt =====
-- library/src/services/service_data_request.c: `read_request` and the handlers that register and
-- unregister a data request. inet_pton is a parameter: the address, or `none` for 0.
pub mod Served
use cc_dey.Base.{
  ℕ, ◌+◌, ◌*◌, ◌/◌, ◌%◌, Bool, true, false, Option, none, some, List, [], ◌∷◌, ◌++◌, Bytes, codes,
  ◌==◌, if◌then◌else◌,
}
use cc_dey.Socket.{
  Sock, Code, timed_out, no_memory, closed_pipe, failure, Reply, ok, err, Run, M, ◌>>=◌, ◌>>◌, pure,
  attempt,
}
use cc_dey.Wire.{c_string, read_uint32, read_string, send_error, send_ok}
use cc_dey.Registry.{
  Recipient, Request, Table, Ccapi, Registered, receive_error_none, to_user_error_msg,
  register_data_request, unregister_target,
}
use cc_dey.Daemon.Upload.{read_limit}

-- A failed read of a text: nothing is sent on a closed connection.
unfoldable pub complain_text : Bytes → Code → M (Reply (Unit {0}))
complain_text what timed_out = attempt (send_error (codes "Timeout reading " ++ what))
complain_text what no_memory =
    attempt (send_error (codes "Failed to read " ++ (what ++ codes ": Out of memory")))
complain_text what closed_pipe = pure (ok tt)
complain_text what failure = attempt (send_error (codes "Failed to read " ++ what))

-- A failed read of a number.
unfoldable pub complain_number : Bytes → Code → M (Reply (Unit {0}))
complain_number what timed_out = attempt (send_error (codes "Timeout reading " ++ what))
complain_number what _ = attempt (send_error (codes "Failed to read " ++ what))

-- htons on a little-endian machine, of the low 16 bits.
unfoldable pub htons : ℕ → ℕ
htons port = port % 256 * 256 + port / 256 % 256

-- An end marker that is not 0 is complained of, but the request stands, since `ret` is 0.
unfoldable pub take_end : Request → Reply ℕ → M (Option Request)
unfolding complain_number
take_end r (err c) = do complain_number (codes "message end") c; pure none
take_end r (ok end) =
    if end == 0
    then pure (some r)
    else (do attempt (send_error (codes "Failed to read message end")); pure (some r))

unfoldable pub take_target : Recipient → Reply Bytes → M (Option Request)
unfolding complain_text take_end
take_target to (err c) = do complain_text (codes "target") c; pure none
take_target to (ok t) = do
  end ← attempt (read_uint32 read_limit)
  take_end (record { recipient = to; target = c_string t }) end

unfoldable pub take_port : Recipient → Reply ℕ → M (Option Request)
unfolding complain_number take_target htons
take_port to (err c) = do complain_number (codes "port") c; pure none
take_port to (ok port) = do
  t ← attempt (read_string read_limit)
  take_target (record to { port = htons port }) t

unfoldable pub read_port : Recipient → M (Option Request)
unfolding take_port
read_port to = do port ← attempt (read_uint32 read_limit); take_port to port

abbrev pub af_inet : ℕ
af_inet = 2

unfoldable pub take_ip : (Bytes → Option ℕ) → Recipient → Reply Bytes → M (Option Request)
unfolding complain_text read_port
take_ip inet_pton to (err c) = do complain_text (codes "IP") c; pure none
take_ip inet_pton to (ok ip) = elim (inet_pton (c_string ip)) [
  | none ↦ do attempt (send_error (codes "Invalid IP")); pure none
  | some a ↦ read_port (record to { family = af_inet; addr = a })
]

unfoldable pub read_request : (Bytes → Option ℕ) → Bool → Recipient → M (Option Request)
unfolding take_ip read_port
read_request inet_pton expect_ip to =
    if expect_ip
    then (do ip ← attempt (read_string read_limit); take_ip inet_pton to ip)
    else read_port to

-- send_error for each message, whatever becomes of it.
unfoldable pub send_errors : List Bytes → M (Unit {0})
send_errors [] = pure tt
send_errors (m ∷ ms) = do attempt (send_error m); send_errors ms

module _ (ccapi : Ccapi) where
  open ccapi use {State}

  -- What a handler returns (`none` is -1), and what it leaves.
  pub record Handled : Type 0 where
    pub result : Option ℕ
    pub ccapi_state : State
    pub table : Table

  unfoldable pub confirm : Bool → State → Table → M Handled
  confirm true c t = do
    attempt send_ok
    pure (record { result = some 0; ccapi_state = c; table = t })
  confirm false c t = pure (record { result = none; ccapi_state = c; table = t })

  unfoldable pub answer_registered : Registered × State → M Handled
  unfolding send_errors confirm
  answer_registered (d, c) = do send_errors d.messages; confirm d.result c d.table

  unfoldable pub on_register : State → Table → Option Request → M Handled
  unfolding answer_registered
  on_register c t none = pure (record { result = none; ccapi_state = c; table = t })
  on_register c t (some r) = λ s. answer_registered (register_data_request ccapi s.alloc r c t) s

  unfoldable pub answer_unregistered : ℕ × (State × Table) → M Handled
  answer_unregistered (status, (c, t)) =
      if status == receive_error_none
      then (do attempt send_ok; pure (record { result = some 0; ccapi_state = c; table = t }))
      else (do
        attempt (send_error (to_user_error_msg ccapi status))
        pure (record { result = some status; ccapi_state = c; table = t }))

  unfoldable pub on_unregister : State → Table → Option Request → M Handled
  unfolding answer_unregistered
  on_unregister c t none = pure (record { result = none; ccapi_state = c; table = t })
  on_unregister c t (some r) = answer_unregistered (unregister_target ccapi r.target c t)

  module _ (inet_pton : Bytes → Option ℕ) where
    unfoldable pub handle_register : State → Table → Bool → Recipient → M Handled
    unfolding on_register
    handle_register c t expect_ip to = do r ← read_request inet_pton expect_ip to; on_register c t r

    unfoldable pub handle_unregister : State → Table → Bool → Recipient → M Handled
    unfolding on_unregister
    handle_unregister c t expect_ip to = do
      r ← read_request inet_pton expect_ip to
      on_unregister c t r

    -- AF_INET and htonl(INADDR_LOOPBACK) on a little-endian machine.
    abbrev pub loopback : Recipient
    loopback = record { family = af_inet; port = 0; addr = 0x0100007f }

    -- A recipient that read_request fills.
    abbrev pub unset : Recipient
    unset = record { family = 0; port = 0; addr = 0 }

    unfoldable pub handle_register_data_request : State → Table → M Handled
    unfolding handle_register
    handle_register_data_request c t = handle_register c t false loopback

    unfoldable pub handle_register_data_request_ipv4 : State → Table → M Handled
    unfolding handle_register
    handle_register_data_request_ipv4 c t = handle_register c t true unset

    unfoldable pub handle_unregister_data_request : State → Table → M Handled
    unfolding handle_unregister
    handle_unregister_data_request c t = handle_unregister c t false loopback

    unfoldable pub handle_unregister_data_request_ipv4 : State → Table → M Handled
    unfolding handle_unregister
    handle_unregister_data_request_ipv4 c t = handle_unregister c t true unset
