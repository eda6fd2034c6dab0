-- ===== src/Client/Upload.antt =====
-- library/src/services-client/cccs_datapoints.c: `send_dp_data_type` and `send_dp_data`, and
-- `cccs_set_maintenance_status`, which ends in the same way.
pub mod Frame
pub mod Codes
use cc_dey.Base.{
  ℕ, Bool, true, false, ◌||◌, Option, none, some, [], ◌∷◌, Bytes, codes, ◌==◌, if◌then◌else◌,
}
use cc_dey.CommError
use cc_dey.Socket.{Sock, Reply, Run, M, ok, err, done, ◌>>=◌, ◌>>◌, pure, attempt}
use cc_dey.Wire.{write_uint32, write_string, write_blob}
use cc_dey.Client.{SrvResp, no_error, parse_cccsd_response}

-- cccs_resp_t
pub record Resp : Type 0 where
  pub code : ℕ
  pub hint : Option Bytes

-- What is uploaded; `none` is a NULL pointer. The first argument is the data or the path, the
-- second the stream id.
pub data Upload : Type 0 where
  metrics path_metrics : Option Bytes → Upload
  path_binary metrics_binary : Option Bytes → Option Bytes → Upload

-- upload_datapoint_file_t
unfoldable pub upload_type : Upload → ℕ
upload_type (metrics d) = 1
upload_type (path_metrics p) = 3
upload_type (path_binary p s) = 4
upload_type (metrics_binary d s) = 5

abbrev pub upload_terminate : ℕ
upload_terminate = 0

abbrev pub tag_dp_file_request : Bytes
tag_dp_file_request = codes "upload_1_dp"

abbrev pub tag_mnt_request : Bytes
tag_mnt_request = codes "mnt_request"

is_null : Option Bytes → Bool
is_null none = true
is_null (some d) = false

-- !data || !length
unfoldable pub no_data : Option Bytes → Bool
no_data none = true
no_data (some []) = true
no_data (some (b ∷ bs)) = false

-- !path || *path == '\0'
no_path : Option Bytes → Bool
no_path none = true
no_path (some []) = true
no_path (some (b ∷ bs)) = b == 0

-- The uploads that are refused. An empty path of binary data is only logged.
unfoldable pub is_invalid : Upload → Bool
unfolding is_null no_data no_path
is_invalid (metrics d) = no_data d
is_invalid (path_metrics p) = no_path p
is_invalid (path_binary p s) = is_null p || is_null s
is_invalid (metrics_binary d s) = no_data d || is_null s

unfoldable pub or_empty : Option Bytes → Bytes
or_empty none = []
or_empty (some d) = d

-- stream_id != NULL && write_string(fd, stream_id)
unfoldable pub write_stream_id : Option Bytes → M (Unit {0})
write_stream_id none = pure tt
write_stream_id (some s) = write_string s

unfoldable pub write_data : Upload → M (Unit {0})
unfolding or_empty
write_data (metrics d) = write_blob (or_empty d)
write_data (path_metrics p) = write_string (or_empty p)
write_data (path_binary p s) = do write_string (or_empty p); write_stream_id s
write_data (metrics_binary d s) = do write_blob (or_empty d); write_stream_id s

unfoldable pub send_dp_data_type : Upload → M (Unit {0})
send_dp_data_type u = do
  write_string tag_dp_file_request
  write_uint32 (upload_type u)
  write_data u
  write_uint32 upload_terminate

-- The switch on `cccs_resp.cccs_err` at the end of both functions.
unfoldable pub resp_code : SrvResp → ℕ
resp_code r =
    if r.cccs_err == CommError.none
    then 0
    else if r.cccs_err == CommError.ccapi_error
    then r.ccapi_err
    else if r.cccs_err == CommError.srv_error
    then r.srv_err
    else r.cccs_err

unfoldable pub finish : ℕ → SrvResp → ℕ × Resp
unfolding resp_code
finish ret r = (ret, record { code = resp_code r; hint = r.hint })

-- After the request is written, or could not be.
unfoldable pub parse_after : ℕ → Reply (Unit {0}) → M (ℕ × Resp)
unfolding finish
parse_after timeout (err c) = pure (finish CommError.bad_response no_error)
parse_after timeout (ok _) = do (ret, r) ← parse_cccsd_response timeout; pure (finish ret r)

unfoldable pub exchange : M (Unit {0}) → ℕ → M (ℕ × Resp)
unfolding parse_after
exchange request timeout = do written ← attempt request; parse_after timeout written

-- What a call returns, and the connection that it used, if it could connect.
pub data Call : Type 0 where
  refused : ℕ × Resp → Call
  ran : Run (ℕ × Resp) → Call

-- `connect` is what connect_cccsd gives.
unfoldable pub send_dp_data : Upload → ℕ → Option Sock → Call
unfolding exchange is_invalid
send_dp_data u timeout connect =
    if is_invalid u then refused (finish CommError.invalid_argument no_error) else elim connect [
      | none ↦ refused (finish CommError.unable_to_connect no_error)
      | some s ↦ ran (exchange (send_dp_data_type u) timeout s)
    ]

unfoldable pub cccs_send_dp_csv_file : Option Bytes → ℕ → Option Sock → Call
cccs_send_dp_csv_file path timeout connect = send_dp_data (path_metrics path) timeout connect

unfoldable pub cccs_send_dp_binary_file : Option Bytes → Option Bytes → ℕ → Option Sock → Call
cccs_send_dp_binary_file path stream_id timeout connect =
    send_dp_data (path_binary path stream_id) timeout connect

unfoldable pub cccs_send_binary_dp_tout : Option Bytes → Option Bytes → ℕ → Option Sock → Call
cccs_send_binary_dp_tout stream_id data_bytes timeout connect =
    send_dp_data (metrics_binary data_bytes stream_id) timeout connect

-- CCCS_DP_WAIT_FOREVER is 0.
unfoldable pub cccs_send_binary_dp : Option Bytes → Option Bytes → Option Sock → Call
unfolding cccs_send_binary_dp_tout
cccs_send_binary_dp stream_id data_bytes connect =
    cccs_send_binary_dp_tout stream_id data_bytes 0 connect

unfoldable pub mnt_request : Bool → M (Unit {0})
mnt_request status = do
  write_string tag_mnt_request
  write_uint32 (if status then 1 else 0)
  write_uint32 0

unfoldable pub cccs_set_maintenance_status : Bool → ℕ → Option Sock → Call
unfolding exchange
cccs_set_maintenance_status status timeout connect = elim connect [
  | none ↦ refused (finish CommError.unable_to_connect no_error)
  | some s ↦ ran (exchange (mnt_request status) timeout s)
]
