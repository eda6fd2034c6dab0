-- ===== src/Client.antt =====
-- library/src/services-client: cccs_services.c (`read_error`, `parse_cccsd_response`) and the upload
-- of data points in cccs_datapoints.c (`send_dp_data_type`, `send_dp_data`), with
-- `cccs_set_maintenance_status`. An int that a read fills is given by the 32 bits received.
pub mod Response
pub mod Upload
pub mod Registration
pub mod Requests
use cc_dey.Base.{
  ℕ, zero, suc, ◌+◌, Bool, true, false, not, ◌&&◌, ◌||◌, Option, none, some, List, [], ◌∷◌, ◌++◌,
  Bytes, codes, length, ltb, ◌==◌, if◌then◌else◌,
}
use cc_dey.Socket.{
  Timeval, Sock, Reply, Run, M, ok, err, done, blocked, fault, timed_out, no_memory, closed_pipe,
  failure, ◌>>=◌, ◌>>◌, pure, attempt,
}
use cc_dey.CommError
use cc_dey.Wire.{
  c_string, read_uint32, read_blob, write_uint32, write_string, write_blob, resp_end_of_message,
  resp_error, resp_errorcode,
}

-- cccs_srv_resp_t
pub record SrvResp : Type 0 where
  pub srv_err : ℕ
  pub ccapi_err : ℕ
  pub cccs_err : ℕ
  pub hint : Option Bytes

abbrev pub no_error : SrvResp
no_error = record { srv_err = 0; ccapi_err = 0; cccs_err = 0; hint = none }

-- Only a timeout above 0 is a time limit.
abbrev pub client_timeout : ℕ → Option Timeval
client_timeout zero = none
client_timeout (suc t) = some (record { sec = suc t; usec = 0 })

-- What read_error gives: the number read and 0, or a code to return.
pub data Fetched : Type 0 where
  fetched : ℕ → Fetched
  not_fetched : ℕ → Fetched

fetch_code : Reply ℕ → Fetched
fetch_code (ok value) = fetched value
fetch_code (err timed_out) = not_fetched CommError.read_timeout
fetch_code (err _) = not_fetched CommError.bad_response

unfoldable pub read_error : Option Timeval → M Fetched
unfolding fetch_code
read_error timeout = do r ← attempt (read_uint32 timeout); pure (fetch_code r)

-- The error of read_blob at the end of a response.
message_code : Reply Bytes → Option ℕ
message_code (ok msg) = none
message_code (err timed_out) = some CommError.read_timeout
message_code (err closed_pipe) = some CommError.unable_to_connect
message_code (err _) = some CommError.bad_response

message_of : Reply Bytes → Option Bytes
message_of (ok msg) = some msg
message_of (err c) = none

unfoldable pub after_message : SrvResp → Reply Bytes → ℕ × SrvResp
unfolding message_code message_of
after_message resp r = elim (message_code r) [
  | none ↦ (CommError.from_cloud, record resp { hint = message_of r })
  | some c ↦ (c, record resp { cccs_err = c })
]

unfoldable pub read_message : Option Timeval → SrvResp → M (ℕ × SrvResp)
unfolding after_message
read_message timeout resp = do r ← attempt (read_blob timeout); pure (after_message resp r)

-- `ret = read_error(..); if (ret) { resp->cccs_err = ret; return ret; }`, and what follows.
unfoldable pub or_return : SrvResp → (ℕ → M (ℕ × SrvResp)) → Fetched → M (ℕ × SrvResp)
or_return resp next (fetched value) = next value
or_return resp next (not_fetched c) = pure (c, record resp { cccs_err = c })

abbrev pub with_srv : ℕ → SrvResp
with_srv srv = record no_error {
  srv_err = srv;
  cccs_err = if srv == 0 then 0 else CommError.srv_error;
}

abbrev pub with_ccapi : ℕ → SrvResp → SrvResp
with_ccapi ccapi resp = record resp {
  ccapi_err = ccapi;
  cccs_err = if ccapi == 0 then resp.cccs_err else CommError.ccapi_error;
}

-- The three codes of RESP_ERRORCODE. The third is read into `cccs_err` itself.
unfoldable pub read_codes : Option Timeval → M (ℕ × SrvResp)
unfolding or_return
read_codes timeout = do
  srv_code ← read_error timeout
  or_return no_error
      (λ srv. do
        ccapi_code ← read_error timeout
        or_return (with_srv srv)
            (λ ccapi. do
              cccs_code ← read_error timeout
              or_return (with_ccapi ccapi (with_srv srv))
                  (λ cccs.
                    read_message timeout
                      (record (with_ccapi ccapi (with_srv srv)) { cccs_err = cccs }))
                  cccs_code)
            ccapi_code)
      srv_code

unfoldable pub on_code : Option Timeval → ℕ → M (ℕ × SrvResp)
on_code timeout code =
    if code == resp_end_of_message
    then pure (CommError.none, no_error)
    else if code == resp_errorcode
    then read_codes timeout
    else if code == resp_error
    then read_message timeout (record no_error { srv_err = 255; cccs_err = CommError.srv_error })
    else pure (CommError.bad_response, record no_error { cccs_err = CommError.bad_response })

-- `timeout` is in seconds. Where a read fails, only the fields that callers look at are given.
unfoldable pub parse_cccsd_response : ℕ → M (ℕ × SrvResp)
unfolding on_code or_return
parse_cccsd_response timeout = do
  code ← read_error (client_timeout timeout)
  or_return no_error (on_code (client_timeout timeout)) code
