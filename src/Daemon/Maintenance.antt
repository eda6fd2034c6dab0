-- ===== src/Daemon/Maintenance.antt =====
-- library/src/services/service_dp_upload.c: `handle_maintenance_request` and
-- `send_datapoint_maintenance`. CCAPI and the CSV generator come by an interface.
use cc_dey.Base.{ℕ, Bool, true, false, none, [], ◌++◌, Bytes, codes, ◌==◌, if◌then◌else◌}
use cc_dey.CommError
use cc_dey.Socket.{Code, timed_out, Reply, ok, err, M, ◌>>=◌, ◌>>◌, pure, attempt}
use cc_dey.Wire.{read_uint32, send_error_codes, send_ok}
use cc_dey.Daemon.Upload.{Answer, metrics, Cloud, read_limit, with_hint, server_error}

-- `collect` is what the three calls on the collection and the CSV generator come to for a value:
-- an error of CCAPI (`data_error`), no data (`not_generated`), or the data.
pub data Collected : Type 0 where
  data_error : ℕ → Collected
  not_generated : Collected
  collected : Bytes → Collected

pub record Points : Type 0 where
  pub collect : Bytes → Collected
  pub dp_insufficient_memory : ℕ
  pub insufficient_memory : ℕ
  pub lock_failed : ℕ

module _ (cloud : Cloud) (points : Points) where
  -- sprintf(dp_value, "{\"status\": %s}", status_str)
  unfoldable pub status_value : Bool → Bytes
  status_value status =
      codes "{\"status\": " ++ ((if status then codes "true" else codes "false") ++ codes "}")

  -- The error, with the hint and the server's error that came with it.
  unfoldable pub maintenance_answer : Collected → Answer
  maintenance_answer (data_error e) = record {
    error =
        if e == points.dp_insufficient_memory
        then points.insufficient_memory
        else points.lock_failed;
    hint = [];
    server = none;
  }
  maintenance_answer not_generated = record {
    error = points.insufficient_memory;
    hint = [];
    server = none;
  }
  maintenance_answer (collected csv) = cloud.send (metrics csv)

  unfoldable pub answer_maintenance : Answer → M ℕ
  answer_maintenance a = if a.error == 0 then (do attempt send_ok; pure a.error) else (do
    attempt (
        send_error_codes (with_hint (cloud.message (metrics []) a.error) a.hint)
          (server_error a.server) a.error 0)
    pure a.error)

  unfoldable pub send_datapoint_maintenance : Bool → M ℕ
  unfolding status_value maintenance_answer answer_maintenance
  send_datapoint_maintenance status =
      answer_maintenance (maintenance_answer (points.collect (status_value status)))

  -- A status that could not be read is complained of, and the end is read all the same; `status`
  -- is then what the variable held before.
  unfoldable pub complain_maintenance : Bytes → Code → M (Reply (Unit {0}))
  complain_maintenance what timed_out =
      attempt (send_error_codes (codes "Timeout reading " ++ what) 0 0 CommError.read_timeout)
  complain_maintenance what _ =
      attempt (send_error_codes (codes "Failed to read " ++ what) 0 0 CommError.read_error)

  unfoldable pub take_status : ℕ → Reply ℕ → M ℕ
  unfolding complain_maintenance
  take_status before (ok status) = pure status
  take_status before (err c) = do complain_maintenance (codes "maintenance status") c; pure before

  unfoldable pub take_mark : ℕ → Reply ℕ → M ℕ
  unfolding complain_maintenance send_datapoint_maintenance
  take_mark status (err c) = do complain_maintenance (codes "message end") c; pure 1
  take_mark status (ok end) =
      if end == 0 then send_datapoint_maintenance (if status == 0 then false else true) else (do
        attempt (send_error_codes (codes "Failed to read message end") 0 0 CommError.read_error)
        send_datapoint_maintenance (if status == 0 then false else true))

  -- `before` is the content of the uninitialised `mnt_status`.
  unfoldable pub handle_maintenance_request : ℕ → M ℕ
  unfolding take_status take_mark
  handle_maintenance_request before = do
    read ← attempt (read_uint32 read_limit)
    status ← take_status before read
    end ← attempt (read_uint32 read_limit)
    take_mark status end
