-- ===== src/Csv/Generator.antt =====
-- library/src/services-client/dp_csv_generator.c: the loop that writes data points as lines of CSV,
-- on the functions of Csv.Machine.
pub mod Text
pub mod Fields
pub mod Coordinates
pub mod Rounds
pub mod Fragments
pub mod Places
pub mod Triple
pub mod Line
pub mod Sheet
use cc_dey.Base.{
  ℕ, zero, suc, ◌+◌, ◌%◌, ◌^◌, Bool, true, false, ◌&&◌, ◌||◌, Option, none, some, List, [], ◌∷◌,
  Bytes, codes, ℤ, ltb, ◌==◌, if◌then◌else◌,
}
use cc_dey.Csv.{Buffer, put_character}
use cc_dey.Csv.Number.{
  Floats, IntInfo, DoubleInfo, process_integer, init_int_info, process_double, init_double_info,
}
use cc_dey.Csv.Quoted.{StringInfo, init_string_info, process_string, quote}
use cc_dey.Csv.Point.{
  PointType, integer, long, float, double, string, binary, json, geojson, Native, PointData,
  Location, PointTime, Quality, Point, Stream, ignore,
}
use cc_dey.Csv.Machine.{
  Field, LocationState, Process, Ran, TimeState, advance_location, after_coordinate, csv_data,
  csv_description, csv_finished, csv_forward_to, csv_location, csv_quality, csv_stream_id, csv_time,
  csv_type, csv_unit, fraction_state, init_coordinate, init_coordinate_text, init_data,
  init_elevation, init_latitude, init_longitude, init_native, location_native, location_text,
  milliseconds, next_location, next_time, process_csv_data, process_csv_location,
  process_csv_quality, process_csv_time, put_1st_comma, put_2nd_comma, put_elevation, put_latitude,
  put_leading_quote, put_location, put_longitude, put_trailing_quote, run_data, run_double,
  run_integer, run_native, run_string, seconds, start_fraction, start_integer, start_location,
  start_string, type_name,
}

module _ (floats : Floats) where
  open floats use {F}

  -- One round of the loop of generate_dp_csv: it goes on, or gives up because the heap is full, or
  -- has not come back from process_double.
  pub data Round : Type 0 where
    going : Process floats → Buffer → Round
    broken spinning : Round

  -- terminate_csv_field, once the field is done.
  unfoldable pub terminate_csv_field : Field → Process floats → Buffer → Round
  terminate_csv_field next p b =
      let (written, b') = put_character b',' b in
      if written then going (record p { init = false; field = next }) b' else broken

  unfoldable pub end_field : Field → Ran floats → Round
  unfolding terminate_csv_field
  end_field next none = spinning
  end_field next (some (done, (p, b))) = if done then terminate_csv_field next p b else going p b

  -- csv_finished has no comma before it.
  unfoldable pub end_string_field : Field → Ran floats → Round
  unfolding terminate_csv_field
  end_string_field next none = spinning
  end_string_field csv_finished (some (done, (p, b))) =
      if done then going (record p { init = false; field = csv_finished }) b else going p b
  end_string_field next (some (done, (p, b))) =
      if done then terminate_csv_field next p b else going p b

  unfoldable pub string_field : Field → Option Bytes → Process floats → Buffer → Round
  unfolding end_string_field start_string run_string
  string_field next s p b = end_string_field next (run_string floats (start_string floats s p) b)

  -- The next point is the first of the next stream, where the current one has no more.
  unfoldable pub next_point :
      List (Point floats) → List (Stream floats) → Process floats → Process floats
  next_point (x ∷ xs) later p = record p { points = x ∷ xs; field = csv_data; init = false }
  next_point [] [] p = record p { points = []; field = csv_data; init = false }
  next_point [] (s ∷ later) p = record p {
    stream = s;
    later = later;
    points = s.points;
    field = csv_data;
    init = false;
  }

  unfoldable pub end_line : List (Point floats) → Process floats → Buffer → Round
  unfolding next_point
  end_line rest p b =
      let (written, b') = put_character b'\n' b in
      if written then going (next_point rest p.later p) b' else broken

  unfoldable pub on_field :
      Field → ℕ → Point floats → List (Point floats) → Process floats → Buffer → Round
  unfolding process_csv_quality string_field end_line end_field
  on_field csv_data spin x rest p b =
      end_field csv_time (process_csv_data floats spin x.element p b)
  on_field csv_time spin x rest p b = end_field csv_quality (process_csv_time floats x.time p b)
  on_field csv_quality spin x rest p b =
      end_field csv_description (process_csv_quality floats x.quality p b)
  on_field csv_description spin x rest p b = string_field csv_location x.description p b
  on_field csv_location spin x rest p b =
      end_field csv_type (process_csv_location floats spin x.location p b)
  on_field csv_type spin x rest p b = string_field csv_unit (some (type_name p.stream.type)) p b
  on_field csv_unit spin x rest p b = string_field csv_forward_to p.stream.unit p b
  on_field csv_forward_to spin x rest p b = string_field csv_stream_id p.stream.forward_to p b
  on_field csv_stream_id spin x rest p b = string_field csv_finished p.stream.stream_id p b
  on_field csv_finished spin x rest p b = end_line rest p b

  -- What generate_dp_csv comes to: the buffer and `n_included`, or the error, where the buffer is
  -- freed, (size_t)-1 is returned and n_included is 0.
  pub data Generated : Type 0 where
    generated : Buffer → ℕ → Generated
    failed : Generated

  unfoldable pub is_finished : Field → ℕ
  is_finished csv_finished = 1
  is_finished _ = 0

  -- The loop. `none` means that it is still running. `n` is counted up without a bound, and given
  -- out as the unsigned int it is; it stays below `max_dp` where it is compared.
  unfoldable pub generate_dp_csv : ℕ → ℕ → ℕ → ℕ → Process floats → Buffer → Option Generated
  unfolding on_field is_finished
  generate_dp_csv zero spin max_dp n p b = none
  generate_dp_csv (suc fuel) spin max_dp n p b = elim p.points [
    | [] ↦ some (generated b (n % 2 ^ 32))
    | x ∷ rest ↦ elim (max_dp == 0 || ltb n max_dp) [
      | false ↦ some (generated b (n % 2 ^ 32))
      | true ↦ elim (on_field p.field spin x rest p b) [
        | going p' b' ↦ generate_dp_csv fuel spin max_dp (n + is_finished p.field) p' b'
        | broken ↦ some failed
        | spinning ↦ none
      ]
    ]
  ]
