-- ===== src/Collection.antt =====
-- library/src/_cc_datapoints.c and library/src/services-client/cccs_datapoints.c: a collection of
-- data points, its CSV, and how it is sent. The list of cccs_dp_data_stream_t and the one of
-- connector_data_stream_t that chain_collection_ccfsm_data_streams makes of it are one list.
pub mod Taken
pub mod Request
pub mod Sent
use cc_dey.Base.{
  ℕ, zero, suc, ◌+◌, ◌-◌, ◌%◌, ◌^◌, Bool, true, false, ◌||◌, not, Option, none, some, List, [], ◌∷◌,
  Bytes, length, ltb, ◌==◌, if◌then◌else◌,
}
use cc_dey.CommError
use cc_dey.Socket.{Sock, Reply, Run, ok, err, done, blocked, fault}
use cc_dey.Csv.{Buffer}
use cc_dey.Csv.Number.{Floats}
use cc_dey.Csv.Point.{Point, Stream}
use cc_dey.Csv.Machine.{csv_data, Process}
use cc_dey.Csv.Generator.{Generated, generated, failed, generate_dp_csv}
use cc_dey.Csv.Generator.Fields.{Scratch}
use cc_dey.Csv.Generator.Sheet.{before}
use cc_dey.Client.Upload.{Resp, metrics, Call, refused, ran, send_dp_data}

abbrev pub dp_max_number_per_request : ℕ
dp_max_number_per_request = 250

-- BUFSIZ of <stdio.h>.
abbrev pub bufsiz : ℕ
bufsiz = 8192

-- (size_t)-1
abbrev pub size_error : ℕ
size_error = 2 ^ 64 - 1

-- What dp_generate_csv_from_collection leaves: what it returns, the buffer (`none` is NULL), and
-- n_dp (`none` if it is not written).
pub record Csv : Type 0 where
  pub size : ℕ
  pub buffer : Option Bytes
  pub n_dp : Option ℕ

module _ (floats : Floats) where
  -- cccs_dp_collection_t, less its lock.
  pub record Collection : Type 0 where
    pub streams : List (Stream floats)
    pub dp_count : ℕ

  -- The outcome of a generation that may not be over, or may read the stream list through NULL.
  pub data Generation : Type 0 where
    csv : Csv → Generation
    unfinished null_read : Generation

  csv_of : Generated floats → Csv
  csv_of (generated b n) = record { size = length b.bytes; buffer = some b.bytes; n_dp = some n }
  csv_of failed = record { size = size_error; buffer = none; n_dp = some 0 }

  csv_or_unfinished : Option (Generated floats) → Generation
  unfolding csv_of
  csv_or_unfinished none = unfinished
  csv_or_unfinished (some r) = csv (csv_of r)

  unfoldable pub limit_dp : Collection → ℕ → ℕ
  limit_dp c max_dp = if ltb c.dp_count max_dp then c.dp_count else max_dp

  generate_from : ℕ → ℕ → (ℕ → Bool) → Scratch → List (Stream floats) → ℕ → Generation
  unfolding csv_or_unfinished
  generate_from fuel spin alloc g [] max_dp = null_read
  generate_from fuel spin alloc g (s ∷ later) max_dp =
      if alloc bufsiz
      then csv_or_unfinished (
          generate_dp_csv floats fuel spin max_dp 0 (before floats later s s.points g)
            (record { bytes = []; available = bufsiz; alloc = alloc }))
      else csv (record { size = size_error; buffer = none; n_dp = none })

  -- `g` is what the members that are not initialised hold.
  unfoldable pub dp_generate_csv_from_collection :
      ℕ → ℕ → (ℕ → Bool) → Scratch → Collection → ℕ → Generation
  unfolding generate_from limit_dp
  dp_generate_csv_from_collection fuel spin alloc g c max_dp =
      generate_from fuel spin alloc g c.streams (limit_dp c max_dp)

  -- collection->dp_count -= 1, an uint32_t.
  unfoldable pub decrement : ℕ → ℕ
  decrement n = (n + 2 ^ 32 - 1) % 2 ^ 32

  -- What the loop of dp_remove_from_collection leaves.
  pub record Removed : Type 0 where
    pub streams : List (Stream floats)
    pub dp_count : ℕ
    pub removed : ℕ

  unfoldable pub in_front : Stream floats → Removed → Removed
  in_front s r = record r { streams = s ∷ r.streams }

  unfoldable pub one_more : Removed → Removed
  one_more r = record r { removed = r.removed + 1 }

  -- The loop: `n` points are still to be removed, `points` are those of the current stream `s`.
  -- Where they are used up, the loop goes on with those of the next stream.
  unfoldable pub remove_loop :
      ℕ → ℕ → Stream floats → List (Point floats) → List (Stream floats) → Removed
  unfolding in_front one_more decrement
  remove_loop zero count s points later = record {
    streams = record s { points = points } ∷ later;
    dp_count = count;
    removed = 0;
  }
  remove_loop (suc n) count s [] later = record {
    streams = record s { points = [] } ∷ later;
    dp_count = count;
    removed = 0;
  }
  remove_loop (suc n) count s (x ∷ y ∷ points) later =
      one_more (remove_loop n (decrement count) s (y ∷ points) later)
  remove_loop (suc n) count s (x ∷ []) [] = record {
    streams = record s { points = [] } ∷ [];
    dp_count = decrement count;
    removed = 1;
  }
  remove_loop (suc n) count s (x ∷ []) (s' ∷ later) =
      one_more
        (in_front (record s { points = [] }) (remove_loop n (decrement count) s' s'.points later))

  unfoldable pub remove_from : ℕ → ℕ → List (Stream floats) → Removed
  unfolding remove_loop
  remove_from n count [] = record { streams = []; dp_count = count; removed = 0 }
  remove_from n count (s ∷ later) = remove_loop (if n == 0 then count else n) count s s.points later

  -- The number of points removed, and the collection.
  unfoldable pub dp_remove_from_collection : Collection → ℕ → ℕ × Collection
  unfolding remove_from
  dp_remove_from_collection c n_to_remove =
      let r = remove_from n_to_remove c.dp_count c.streams in
      (r.removed, record { streams = r.streams; dp_count = r.dp_count })

  -- What dp_send_collection comes to: its result, the response and the collection; or a call that
  -- is not over.
  pub data Outcome : Type 0 where
    returned : ℕ → Resp → Collection → Outcome
    rejected : ℕ → Resp → Outcome
    pending crashed : Outcome

  -- ret == CCCS_SEND_ERROR_NONE || resp->code != CCCS_SEND_ERROR_UNABLE_TO_STORE_DP
  unfoldable pub is_settled : ℕ → Resp → Bool
  is_settled ret r = ret == CommError.none || not (r.code == CommError.unable_to_store)

  unfoldable pub after_send : Collection → ℕ → ℕ × Resp → Outcome
  unfolding is_settled
  after_send c dp_to_rm (ret, r) =
      returned ret r (if is_settled ret r then (dp_remove_from_collection c dp_to_rm).1 else c)

  unfoldable pub on_call : Collection → ℕ → Call → Outcome
  unfolding after_send
  on_call c dp_to_rm (refused r) = after_send c dp_to_rm r
  on_call c dp_to_rm (ran (done (ok r) s)) = after_send c dp_to_rm r
  on_call c dp_to_rm (ran (done (err e) s)) = pending
  on_call c dp_to_rm (ran blocked) = pending
  on_call c dp_to_rm (ran fault) = crashed

  unfoldable pub or_garbage : ℕ → Option ℕ → ℕ
  or_garbage garbage none = garbage
  or_garbage garbage (some n) = n

  -- A response without a hint.
  abbrev pub code_only : ℕ → Resp
  code_only code = record { code = code; hint = none }

  -- `garbage` is what dp_to_rm holds before it is written.
  unfoldable pub send_csv : ℕ → Collection → ℕ → Option Sock → Csv → Outcome
  unfolding on_call or_garbage
  send_csv garbage c timeout connect d =
      if ltb 0 d.size
      then on_call c (or_garbage garbage d.n_dp) (send_dp_data (metrics d.buffer) timeout connect)
      else returned CommError.invalid_argument (code_only CommError.invalid_argument) c

  unfoldable pub send_generation : ℕ → Collection → ℕ → Option Sock → Generation → Outcome
  unfolding send_csv
  send_generation garbage c timeout connect (csv d) = send_csv garbage c timeout connect d
  send_generation garbage c timeout connect unfinished = pending
  send_generation garbage c timeout connect null_read = crashed

  -- lock_release(collection->lock) != 0
  unfoldable pub release : Bool → Outcome → Outcome
  release true o = o
  release false (returned ret r c) =
      returned (if ret == CommError.none then CommError.lock else ret) r c
  release false (rejected ret r) = rejected ret r
  release false pending = pending
  release false crashed = crashed

  unfoldable pub has_no_stream : List (Stream floats) → Bool
  has_no_stream [] = true
  has_no_stream (s ∷ later) = false

  unfoldable pub send_locked :
      ℕ → ℕ → (ℕ → Bool) → Scratch → ℕ → Bool → Collection → ℕ → Option Sock → Outcome
  unfolding send_generation release
  send_locked fuel spin alloc g garbage released c timeout connect = release released (
      send_generation garbage c timeout connect
        (dp_generate_csv_from_collection fuel spin alloc g c dp_max_number_per_request))

  -- `acquired` and `released` are what the calls of the lock give; a NULL collection is `none`.
  unfoldable pub dp_send_collection :
      ℕ → ℕ → (ℕ → Bool) → Scratch → ℕ → Bool → Bool → Option Collection → ℕ → Option Sock → Outcome
  unfolding send_locked has_no_stream
  dp_send_collection fuel spin alloc g garbage acquired released none timeout connect =
      rejected CommError.invalid_argument (code_only CommError.invalid_argument)
  dp_send_collection fuel spin alloc g garbage acquired released (some c) timeout connect =
      if has_no_stream c.streams
      then returned CommError.invalid_argument (code_only CommError.invalid_argument) c
      else if acquired
      then send_locked fuel spin alloc g garbage released c timeout connect
      else returned CommError.lock (code_only CommError.lock) c
