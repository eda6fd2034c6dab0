-- ===== src/Monitor/Samples.antt =====
-- library/src/cc_system_monitor.c, `send_system_monitor_samples`: the samples are sent, or go to the
-- backlog.
pub mod Lossless
use cc_dey.Base.{
  ℕ, zero, suc, ◌*◌, Bool, true, false, Option, none, some, List, [], ◌∷◌, Bytes, ltb, ◌==◌,
  if◌then◌else◌,
}
use cc_dey.Csv.Number.{Floats}
use cc_dey.Csv.Generator.Fields.{Scratch}
use cc_dey.Client.Upload.{or_empty}
use cc_dey.Collection.{
  Collection, Csv, csv, Generation, unfinished, null_read, or_garbage,
  dp_generate_csv_from_collection, dp_remove_from_collection, dp_max_number_per_request,
}
use cc_dey.Backlog.{Result, value, looping, fault, Entries}
use cc_dey.Backlog.Store.{Sys, Kept, dp_process_send_dp_error, file_metrics}

abbrev pub sm_max_dp_in_collection : ℕ
sm_max_dp_in_collection = dp_max_number_per_request * 5

-- The settings that are read, and the codes of CCAPI: `send_data` is what ccapi_send_data gives.
pub record Config : Type 0 where
  pub data_backlog_path : Option Bytes
  pub data_backlog_kb : ℕ
  pub dp_b : Kept
  pub send : Kept
  pub send_data : Bytes → ℕ

module _ (floats : Floats) where
  -- The collection and the backlog directory; or a call that is not over; or a read through NULL or a
  -- write behind a block.
  pub data Sampled : Type 0 where
    sampled : Collection floats → Option Entries → Sampled
    sampling stopped : Sampled

  unfoldable pub on_stored : Collection floats → ℕ → Result (ℕ × Option Entries) → Sampled
  on_stored c n_dp looping = sampling
  on_stored c n_dp fault = stopped
  on_stored c n_dp (value (zero, dir)) = sampled (dp_remove_from_collection floats c n_dp).1 dir
  on_stored c n_dp (value (suc ret, dir)) = sampled c dir

  -- After ccapi_send_data, with its code `ret`.
  unfoldable pub on_sent :
      Config → ℕ → Sys → ℕ → Collection floats → Option Entries → ℕ → Bytes → ℕ → Sampled
  unfolding on_stored
  on_sent cfg fuel sys count c dir n_dp text ret =
      if ret == 0
      then sampled (dp_remove_from_collection floats c n_dp).1 dir
      else if ltb count dp_max_number_per_request
      then sampled c dir
      else on_stored c n_dp (
          dp_process_send_dp_error cfg.dp_b cfg.send fuel sys file_metrics ret text []
            cfg.data_backlog_path cfg.data_backlog_kb dir)

  unfoldable pub on_generated :
      Config → ℕ → Sys → ℕ → ℕ → Collection floats → Option Entries → Generation floats → Sampled
  unfolding on_sent or_garbage or_empty
  on_generated cfg fuel sys garbage count c dir unfinished = sampling
  on_generated cfg fuel sys garbage count c dir null_read = stopped
  on_generated cfg fuel sys garbage count c dir (csv d) =
      if ltb 0 d.size
      then on_sent cfg fuel sys count c dir (or_garbage floats garbage d.n_dp) (or_empty d.buffer)
          (cfg.send_data (or_empty d.buffer))
      else sampled c dir

  -- Where there are enough points: `count` is what CCAPI says is in the collection.
  unfoldable pub send_samples :
      Config
      → ℕ
      → ℕ
      → (ℕ → Bool)
      → Scratch
      → Sys
      → ℕ
      → ℕ
      → ℕ
      → Collection floats
      → Option Entries
      → Sampled
  unfolding on_generated
  send_samples cfg fuel spin alloc g sys garbage n_samples_to_send count c dir =
      if ltb count n_samples_to_send
      then sampled c dir
      else on_generated cfg fuel sys garbage count c dir
          (dp_generate_csv_from_collection floats fuel spin alloc g c dp_max_number_per_request)

  -- The loop that limits the collection: `points` and `remove_older` are calls of CCAPI.
  unfoldable pub limit_collection :
      ℕ
      → (Collection floats → ℕ)
      → (Collection floats → Collection floats)
      → Collection floats
      → Option (Collection floats)
  limit_collection zero points remove_older c = none
  limit_collection (suc fuel) points remove_older c =
      let rest = limit_collection fuel points remove_older (remove_older c) in
      if ltb sm_max_dp_in_collection (points c) then rest else some c
