-- ===== src/Backlog/Store.antt =====
-- library/src/_cc_datapoints.c: how data points that could not be sent get into the backlog.
pub mod Stored
pub mod Slash
use cc_dey.Base.{
  ℕ, zero, suc, ◌+◌, ◌*◌, ◌/◌, ◌%◌, Bool, true, false, ◌||◌, ◌&&◌, not, Option, none, some, List,
  [], ◌∷◌, ◌++◌, Bytes, codes, length, ltb, leb, eq_bytes, ◌==◌, if◌then◌else◌,
}
use cc_dey.Decimal.{digits}
use cc_dey.Socket.{Timeval}
use cc_dey.Backlog.{
  Result, value, looping, fault, Node, regular, folder, Entries, no_entry, entry, Calls, in_dir,
  delete, check_backlog_size,
}
use cc_dey.Backlog.Directory.{
  strip_slashes, ends_in_slash, at_slash, before_name, lookup, place, make_dir, mkpath, discard,
  is_folder, in_directory, at_node, at_path, split_path,
}
use cc_dey.Backlog.Copy.{
  Effect, no_file, file, not_opened, removed, not_over, Io, cp_file, write_buffer_to_file,
}

-- "%03ld" of the milliseconds.
unfoldable pub three_digits : ℕ → Bytes
three_digits n =
    if ltb n 1000
    then (b'0' + n / 100) ∷ (b'0' + n / 10 % 10) ∷ (b'0' + n % 10) ∷ []
    else digits 19 n

-- The calls of the system in one operation on the backlog: `now` is what gettimeofday gives,
-- `mkdir` says which directories can be made below the backlog's, and `base_made` whether mkpath
-- makes that of the backlog.
pub record Sys : Type 0 where
  pub calls : Calls
  pub io : Io
  pub now : Timeval
  pub mkdir : Bytes → Bool
  pub base_made : Bool

abbrev pub file_metrics : ℕ
file_metrics = 1

abbrev pub file_events : ℕ
file_events = 2

abbrev pub file_path_metrics : ℕ
file_path_metrics = 3

abbrev pub file_path_binary : ℕ
file_path_binary = 4

abbrev pub file_metrics_binary : ℕ
file_metrics_binary = 5

unfoldable pub dp_get_backlog_dir : (ℕ → Bool) → Option Bytes → Option Bytes
dp_get_backlog_dir alloc none = none
dp_get_backlog_dir alloc (some []) = none
dp_get_backlog_dir alloc (some (b ∷ bs)) =
    let out_dir = (b ∷ bs) ++ codes "/cccs/" in
    if alloc (length out_dir + 1) then some out_dir else none

-- The name of a backlog file, as DP_FILE_NAME_OUTPUT_FORMAT prints it.
unfoldable pub file_name : ℕ → Bytes → Timeval → Bytes
unfolding three_digits
file_name type stream_id now =
    digits 19 now.sec
    ++ three_digits (now.usec / 1000)
    ++ (b'_' ∷ (if type == file_path_binary || type == file_metrics_binary then stream_id else []))

-- The path, behind that of the backlog directory.
unfoldable pub dp_get_backlog_file_path : (ℕ → Bool) → ℕ → Bytes → Bytes → Timeval → Option Bytes
unfolding file_name
dp_get_backlog_file_path alloc type stream_id out_dir now =
    let name = file_name type stream_id now in
    if alloc (length out_dir + length name + 1) then some name else none

-- Where there is a directory of that name, the file cannot be opened.
unfoldable pub io_at : Io → Bool → Io
io_at io is_dir = record io { opens = λ path. not is_dir && io.opens path }

-- The switch on the type.
unfoldable pub write_file : Io → ℕ → Bytes → Bytes → Bool → Effect
unfolding io_at
write_file io type buff out_file is_dir =
    if type == file_events || type == file_metrics || type == file_metrics_binary
    then write_buffer_to_file (io_at io is_dir) out_file buff
    else if type == file_path_metrics || type == file_path_binary
    then cp_file (io_at io is_dir) buff out_file
    else no_file

unfoldable pub present : Option (ℕ × Entries) → Result (ℕ × Option Entries)
present none = looping
present (some (ret, entries)) = value (ret, some entries)

unfoldable pub write_below :
    Sys
    → ℕ
    → Bytes
    → Bytes
    → Bytes
    → List Bytes × Bytes
    → Bool × Entries
    → Result (ℕ × Option Entries)
unfolding write_file present at_slash ends_in_slash
write_below sys type buff dir out_file (dirs, name) (false, entries) = value (1, some entries)
write_below sys type buff dir out_file (dirs, name) (true, entries) = present (
    at_path (at_slash (ends_in_slash out_file) (write_file sys.io type buff (dir ++ out_file))) dirs
      name entries)

-- mkpath, on the backlog directory and below it, as far as dirname goes.
unfoldable pub store_in :
    Sys → ℕ → Bytes → Bytes → Bytes → Option Entries → Result (ℕ × Option Entries)
unfolding write_below mkpath split_path strip_slashes
store_in sys type buff dir out_file none =
    let path = split_path [] (strip_slashes out_file) in
    if sys.base_made
    then write_below sys type buff dir out_file path (mkpath sys.mkdir path.0 no_entry)
    else value (1, none)
store_in sys type buff dir out_file (some entries) =
    let path = split_path [] (strip_slashes out_file) in
    write_below sys type buff dir out_file path (mkpath sys.mkdir path.0 entries)

unfoldable pub store_dp :
    Sys → ℕ → Bytes → Bytes → Bytes → Option Entries → Result (ℕ × Option Entries)
unfolding store_in dp_get_backlog_file_path
store_dp sys type buff stream_id backlog_dir entries =
    elim (dp_get_backlog_file_path sys.calls.alloc type stream_id backlog_dir sys.now) [
      | none ↦ value (1, entries)
      | some out_file ↦
          if sys.calls.alloc (length backlog_dir + length out_file + 1)
          then store_in sys type buff backlog_dir out_file entries
          else value (1, entries)
    ]

-- The codes of ccapi_send_error_t or ccapi_dp_b_error_t after which the data are kept.
pub record Kept : Type 0 where
  pub transport_not_started : ℕ
  pub lock_failed : ℕ
  pub initiate_action_failed : ℕ
  pub status_cancel : ℕ
  pub status_timeout : ℕ
  pub status_session_error : ℕ
  pub response_bad_request : ℕ
  pub response_unavailable : ℕ
  pub response_cloud_error : ℕ

unfoldable pub is_kept : Kept → ℕ → Bool
is_kept c error =
    error == c.transport_not_started
    || error == c.lock_failed
    || error == c.initiate_action_failed
    || error == c.status_cancel
    || error == c.status_timeout
    || error == c.status_session_error
    || error == c.response_bad_request
    || error == c.response_unavailable
    || error == c.response_cloud_error

unfoldable pub after_check :
    Sys → ℕ → Bytes → Bytes → Bytes → Result (ℕ × Option Entries) → Result (ℕ × Option Entries)
unfolding store_dp
after_check sys type buff stream_id dir looping = looping
after_check sys type buff stream_id dir fault = fault
after_check sys type buff stream_id dir (value (ret, entries)) =
    if ret == 0 then store_dp sys type buff stream_id dir entries else value (1, entries)

unfoldable pub keep :
    ℕ → Sys → ℕ → Bytes → Bytes → ℕ → Option Bytes → Option Entries → Result (ℕ × Option Entries)
unfolding after_check
keep fuel sys type buff stream_id backlog_kb none entries = value (1, entries)
keep fuel sys type buff stream_id backlog_kb (some dir) entries =
    after_check sys type buff stream_id dir
      (check_backlog_size sys.calls fuel (some dir) backlog_kb entries)

unfoldable pub no_backlog : Option Bytes → Bool
no_backlog none = true
no_backlog (some []) = true
no_backlog (some (b ∷ bs)) = false

-- The result, and the backlog directory; The test is on `error`
-- in place of `type`, as in the code.
unfoldable pub dp_process_send_dp_error :
    Kept
    → Kept
    → ℕ
    → Sys
    → ℕ
    → ℕ
    → Bytes
    → Bytes
    → Option Bytes
    → ℕ
    → Option Entries
    → Result (ℕ × Option Entries)
unfolding is_kept keep no_backlog
dp_process_send_dp_error dp_b send fuel sys type error buff stream_id backlog_dir_path backlog_kb
      entries =
    let errors = if error == file_metrics_binary || error == file_path_binary then dp_b else send in
    if no_backlog backlog_dir_path || backlog_kb == 0
    then value (0, entries)
    else if is_kept errors error
    then keep fuel sys type buff stream_id backlog_kb
        (dp_get_backlog_dir sys.calls.alloc backlog_dir_path) entries
    else value (0, entries)
