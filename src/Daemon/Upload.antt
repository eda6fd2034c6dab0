-- ===== src/Daemon/Upload.antt =====
-- library/src/services/service_dp_upload.c: `handle_datapoint_file_upload`, with
-- `upload_datapoint_file` and `upload_binary_datapoint`. The cloud (CCAPI) and the storing of what
-- could not be sent come by an interface.
pub mod Received
pub mod Served
use cc_dey.Base.{
  ℕ, zero, suc, ◌&&◌, ◌||◌, Option, none, some, List, [], ◌∷◌, ◌++◌, Bytes, codes, ltb, ◌==◌,
  if◌then◌else◌,
}
use cc_dey.CommError
use cc_dey.Socket.{
  Timeval, Code, timed_out, no_memory, closed_pipe, failure, Reply, ok, err, M, blocked, ◌>>=◌,
  ◌>>◌, pure, attempt,
}
use cc_dey.Wire.{c_string, read_uint32, read_string, read_blob, send_error_codes, send_ok}

-- A transfer to the cloud, as the type of the record asks for it; a path or a stream id is a text.
pub data Posted : Type 0 where
  events metrics path_metrics : Bytes → Posted
  path_binary metrics_binary : Bytes → Bytes → Posted

-- The answer of the cloud: the error (0 for success), the hint, and the error that the server
-- gave, if it is known.
pub record Answer : Type 0 where
  pub error : ℕ
  pub hint : Bytes
  pub server : Option ℕ

-- `store` is what dp_process_send_dp_error returns for a transfer and its error; `message` is the
-- text that cc_error_msg.c has for the error of such a transfer.
pub record Cloud : Type 0 where
  pub send : Posted → Answer
  pub store : Posted → ℕ → ℕ
  pub message : Posted → ℕ → Bytes

-- SOCKET_READ_TIMEOUT_SEC
abbrev pub read_limit : Option Timeval
read_limit = some (record { sec = 75; usec = 0 })

-- A failed read of a value, by what could not be read: nothing is sent on a closed connection.
unfoldable pub complain : Bytes → Code → M (Reply (Unit {0}))
complain what timed_out =
    attempt (send_error_codes (codes "Timeout reading " ++ what) 0 0 CommError.read_timeout)
complain what no_memory = attempt (
    send_error_codes (codes "Failed to read " ++ (what ++ codes ": Out of memory")) 0 0
      CommError.out_of_memory)
complain what closed_pipe = pure (ok tt)
complain what failure =
    attempt (send_error_codes (codes "Failed to read " ++ what) 0 0 CommError.read_error)

-- The type is read with no case of its own for a closed connection.
unfoldable pub complain_type : Code → M (Reply (Unit {0}))
complain_type timed_out =
    attempt (send_error_codes (codes "Timeout reading data type") 0 0 CommError.read_timeout)
complain_type _ =
    attempt (send_error_codes (codes "Failed to read data type") 0 0 CommError.read_error)

-- A record that was read, or the end of the handler, which then returns 1.
pub data Taken : Type 0 where
  taken : Posted → Taken
  not_taken : Taken

give_up : Bytes → Code → M Taken
unfolding complain
give_up what c = do complain what c; pure not_taken

-- The stream id, for the two types of binary data.
unfoldable pub take_stream_id : (Bytes → Posted) → Reply Bytes → M Taken
unfolding give_up
take_stream_id make (ok s) = pure (taken (make (c_string s)))
take_stream_id make (err c) = give_up (codes "data point stream id") c

unfoldable pub read_stream_id : (Bytes → Posted) → M Taken
unfolding take_stream_id
read_stream_id make = do s ← attempt (read_string read_limit); take_stream_id make s

unfoldable pub take_path : ℕ → Reply Bytes → M Taken
unfolding give_up read_stream_id
take_path type (err c) = give_up (codes "data point file path") c
take_path type (ok p) =
    if type == 4
    then read_stream_id (path_binary (c_string p))
    else pure (taken (path_metrics (c_string p)))

unfoldable pub take_blob : ℕ → Reply Bytes → M Taken
unfolding give_up read_stream_id
take_blob type (err c) = give_up (codes "data point data") c
take_blob type (ok b) =
    if type == 5
    then read_stream_id (metrics_binary b)
    else if type == 2
    then pure (taken (events b))
    else pure (taken (metrics b))

unfoldable pub read_posted : ℕ → M Taken
unfolding take_path take_blob
read_posted type =
    if type == 3 || type == 4
    then (do p ← attempt (read_string read_limit); take_path type p)
    else (do b ← attempt (read_blob read_limit); take_blob type b)

-- "%s, %s" with the hint, if there is one; asprintf is taken to find room for it.
unfoldable pub with_hint : Bytes → Bytes → Bytes
with_hint msg [] = msg
with_hint msg (h ∷ hs) = if h == 0 then msg else msg ++ (codes ", " ++ h ∷ hs)

-- 255 stands for a server error that is not known.
unfoldable pub server_error : Option ℕ → ℕ
server_error none = 255
server_error (some e) = e

-- What one round of the handler's loop comes to: a value to return, and what was posted.
pub data Round : Type 0 where
  again : Posted → Round
  return : ℕ → List Posted → Round

module _ (cloud : Cloud) where
  -- The transfer, what is stored if it fails, and the response to the client.
  unfoldable pub respond : Posted → M Round
  unfolding with_hint server_error
  respond p =
      let answer = cloud.send p in
      let cccs = cloud.store p answer.error in
      if answer.error == 0 && cccs == 0 then (do attempt send_ok; pure (again p)) else (do
        attempt (
            send_error_codes (with_hint (cloud.message p answer.error) answer.hint)
              (server_error answer.server) answer.error
              (if cccs == 0 then 0 else CommError.unable_to_store))
        pure (return 1 (p ∷ [])))

  unfoldable pub on_taken : Taken → M Round
  unfolding respond
  on_taken not_taken = pure (return 1 [])
  on_taken (taken p) = respond p

  unfoldable pub on_type : Reply ℕ → M Round
  unfolding complain_type
  on_type (err c) = do complain_type c; pure (return 1 [])
  on_type (ok type) =
      if type == 0
      then pure (return 0 [])
      else if ltb 5 type
      then (do
        attempt (send_error_codes (codes "Invalid data type") 0 0 CommError.bad_response)
        pure (return 1 []))
      else (do t ← read_posted type; on_taken t)

  unfoldable pub upload_round : M Round
  upload_round = do type ← attempt (read_uint32 read_limit); on_type type

  -- while (1): what the handler returns, and all that it posted. A loop that has used up its fuel
  -- is still running.
  unfoldable pub handle_datapoint_file_upload : ℕ → M (ℕ × List Posted)
  handle_datapoint_file_upload zero s = blocked
  handle_datapoint_file_upload (suc fuel) s =
      (upload_round >>= λ r. elim r [
        | return v ps ↦ pure (v, ps)
        | again p ↦ do (v, ps) ← handle_datapoint_file_upload fuel; pure (v, p ∷ ps)
      ])
        s
