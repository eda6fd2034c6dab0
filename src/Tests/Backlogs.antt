-- ===== src/Tests/Backlogs.antt =====
-- Runs on a backlog directory.
use cc_dey.Base.{
  ℕ, ◌+◌, ◌*◌, ◌≡◌, ◌≢◌, ◌≤◌, refl, true, false, some, [], ◌∷◌, ◌++◌, Bytes, codes, length, ◌⊎◌,
  arith, if◌then◌else◌, ◌==◌,
}
use cc_dey.Base.Lists.{eq_bytes}
use cc_dey.Decimal.{digits}
use cc_dey.Socket.{Timeval}
use cc_dey.Backlog.{
  value, next_file, in_dir, regular, folder, Entries, no_entry, entry, Calls, check_backlog_size,
  dp_get_next_store_dp_file,
}
use cc_dey.Backlog.Trim.{
  weight, files, without_oldest, Distinct, Slack, Works, Trimmed, check_backlog_size-Trimmed,
}
use cc_dey.Backlog.Copy.{file, Io, no_text, cp_file}
use cc_dey.Backlog.Copy.Whole.{whole, cp_file-whole, cp_file-short}
use cc_dey.Backlog.Directory.{lookup, place, base_name}
use cc_dey.Backlog.Store.{
  three_digits, Sys, file_name, store_dp, Kept, is_kept, dp_process_send_dp_error, file_metrics,
  file_metrics_binary,
}
use cc_dey.Backlog.Store.Stored.{named, dp_process_send_dp_error-stores}
use cc_dey.Backlog.Store.Slash.{store_dp-slash}
use cc_dey.Backlog.Send.{
  Uploader, stream_of, upload_file, dp_send_stored_data, dp_send_stored_data-oldest,
  stream_of-file_name,
}

abbrev pub calls : Calls
calls = record {
  opens = λ p. true;
  stats = λ p. true;
  removes = λ p. true;
  alloc = λ n. true;
  usable = λ n. n + 8;
  garbage_regular = false;
}

pub works : Works calls
works = record { opens = λ p. refl; stats = λ p. refl; removes = λ p. refl; alloc = λ n. refl }

-- Two files, and a subdirectory with one.
abbrev pub stored : Entries
stored = entry (codes "1700000000123_") (regular (codes "old")) (
    entry (codes "1700000000124_") (folder (entry (codes "x") (regular (codes "in")) no_entry))
      (entry (codes "1700000000125_t") (regular (codes "new")) no_entry))

pub distinct : Distinct stored
unfolding eq_bytes
distinct = ((refl, (refl, tt)), ((refl, tt), (tt, tt)))

-- A heap whose blocks have eight bytes more than they are allocated for.
pub slack : Slack calls (codes "/b/cccs/") stored
slack = (omega arith, (omega arith, (omega arith, tt)))

check_backlog_size-Trimmed_example :
    (r : ℕ × Entries) × (check_backlog_size calls 3 (some (codes "/b/cccs/")) 1 (some stored)
      ≡ value (r.0, some r.1))
    × Trimmed (1 * 1024) stored r
unfolding files weight
check_backlog_size-Trimmed_example =
    check_backlog_size-Trimmed calls works b'/' (codes "b/cccs/") 1 3 stored (omega arith)
      (omega arith) distinct slack (omega arith)

abbrev pub short_writes : Io
short_writes = record {
  input = λ p. some (codes "abcd");
  opens = λ p. true;
  sized = true;
  reads = some 2048 ∷ [];
  writes = some 3 ∷ (some 3 ∷ []);
  fwrite_count = λ b. length b;
}

abbrev pub whole_writes : Io
whole_writes = record short_writes { writes = some 2048 ∷ [] }

cp_file-short_example :
    cp_file short_writes (codes "in") (codes "out") ≡ file (codes "abc" ++ codes "a") true
unfolding no_text
cp_file-short_example =
    cp_file-short short_writes (codes "in") (codes "out") (codes "abcd") 2048 3 3 [] []
      (record { named = refl; target = refl; input = refl; opens = refl; sized = refl }) refl refl
      (omega arith) (omega arith) (omega arith) (omega arith)

cp_file-whole_example : cp_file whole_writes (codes "in") (codes "out") ≡ file (codes "abcd") true
unfolding no_text whole
cp_file-whole_example =
    cp_file-whole whole_writes (codes "in") (codes "out") (codes "abcd") 2048 1
      (record { named = refl; target = refl; input = refl; opens = refl; sized = refl }) refl refl
      (omega arith) (omega arith)

abbrev taking_all : Uploader
taking_all = record { send_file = λ p. 0; binary_send_file = λ p s. 0 }

dp_send_stored_data-oldest_example :
    ((files stored ≡ 0)
      × (dp_send_stored_data calls taking_all (some (codes "/b")) (some stored)
          ≡ value (some 0, some stored)))
    ⊎ ((files stored ≢ 0)
        × (name : Bytes) × (dp_get_next_store_dp_file calls (some (codes "/b/cccs/")) (some stored)
            ≡ next_file name)
        × (dp_send_stored_data calls taking_all (some (codes "/b")) (some stored)
            ≡ value (
                if upload_file taking_all (codes "/b/cccs/") name == 0
                then (some 0, some (without_oldest stored))
                else (some (upload_file taking_all (codes "/b/cccs/") name), some stored))))
dp_send_stored_data-oldest_example =
    dp_send_stored_data-oldest calls taking_all b'/' (codes "b") stored works distinct slack

abbrev pub noon : Timeval
noon = record { sec = 1700000000; usec = 5000 }

stream_of-file_name_example :
    stream_of (base_name (in_dir (codes "/b/cccs/") (file_name 5 (codes "t") noon)))
    ≡ some (codes "t")
stream_of-file_name_example =
    stream_of-file_name (codes "/b/cccs/") 5 (codes "t") noon (omega arith) (omega arith) (refl, tt)

abbrev pub sys : Sys
sys = record { calls = calls; io = whole_writes; now = noon; mkdir = λ p. true; base_made = true }

abbrev pub kept : Kept
kept = record {
  transport_not_started = 2;
  lock_failed = 12;
  initiate_action_failed = 13;
  status_cancel = 14;
  status_timeout = 15;
  status_session_error = 16;
  response_bad_request = 17;
  response_unavailable = 18;
  response_cloud_error = 19;
}

store_dp-slash_example :
    (left : Entries) × (store_dp sys file_metrics_binary
        (codes "data")
        (codes "room/t")
        (codes "/b/cccs/")
        (some stored)
      ≡ value (0, some left))
    × (lookup (named noon (codes "room")) left
        ≡ some (folder (entry (codes "t") (regular (codes "data")) no_entry)))
    × (dp_get_next_store_dp_file calls (some (codes "/b/cccs/")) (some left)
        ≡ dp_get_next_store_dp_file calls (some (codes "/b/cccs/")) (some stored))
unfolding lookup digits three_digits eq_bytes
store_dp-slash_example =
    store_dp-slash sys works (λ p. refl) b'/' (codes "b/cccs/") refl b'd' (codes "ata")
      (codes "room/t") (codes "room") b't' [] stored refl (refl, (refl, (refl, (refl, tt))))
      (refl, tt) (omega arith) slack refl refl refl

dp_process_send_dp_error-stores_example :
    (r : ℕ × Entries) × Trimmed (1 * 1024) stored r
    × (((left : Entries) × (dp_process_send_dp_error kept kept 3 sys file_metrics 15
              (codes "csv")
              []
              (some (codes "/b"))
              1
              (some stored)
            ≡ value (0, some left))
          × (left ≡ place (file_name file_metrics [] noon) (regular (codes "csv")) r.1)
          × (lookup (file_name file_metrics [] noon) left ≡ some (regular (codes "csv")))
          × (weight left ≤ 1 * 1024 + length (codes "csv")))
        ⊎ ((r.0 ≡ 1)
            × (dp_process_send_dp_error kept kept 3 sys file_metrics 15
                  (codes "csv")
                  []
                  (some (codes "/b"))
                  1
                  (some stored)
                ≡ value (1, some r.1))))
unfolding lookup digits three_digits eq_bytes file_name files weight is_kept
dp_process_send_dp_error-stores_example =
    dp_process_send_dp_error-stores kept kept 3 15 1 b'/' (codes "b") sys b'c' (codes "sv") stored
      works (λ p. refl) refl refl refl refl (omega arith) (omega arith) distinct slack (omega arith)
      refl
