-- ===== src/Csv/Machine.antt =====
-- library/src/services-client/dp_csv_generator.c: the state of the CSV generator, and the functions
-- that write a field. Csv.Generator has the loop on top of them.
use cc_dey.Base.{ℕ, Bool, true, false, Option, none, some, List, Bytes, codes, ℤ, if◌then◌else◌}
use cc_dey.Csv.{Buffer, put_character}
use cc_dey.Csv.Number.{
  Floats, IntInfo, DoubleInfo, process_integer, init_int_info, process_double, init_double_info,
}
use cc_dey.Csv.Quoted.{StringInfo, init_string_info, process_string, quote}
use cc_dey.Csv.Point.{
  PointType, integer, long, float, double, string, binary, json, geojson, Native, PointData,
  Location, PointTime, Quality, Point, Stream,
}

-- csv_field_t
pub data Field : Type 0 where
  csv_data csv_time csv_quality csv_description csv_location csv_type csv_unit csv_forward_to :
      Field
  csv_stream_id csv_finished : Field

-- location_state_t
pub data LocationState : Type 0 where
  put_leading_quote init_latitude put_latitude put_1st_comma init_longitude put_longitude :
      LocationState
  put_2nd_comma init_elevation put_elevation put_trailing_quote finish : LocationState

-- location++
unfoldable pub next_location : LocationState → LocationState
next_location put_leading_quote = init_latitude
next_location init_latitude = put_latitude
next_location put_latitude = put_1st_comma
next_location put_1st_comma = init_longitude
next_location init_longitude = put_longitude
next_location put_longitude = put_2nd_comma
next_location put_2nd_comma = init_elevation
next_location init_elevation = put_elevation
next_location put_elevation = put_trailing_quote
next_location put_trailing_quote = finish
next_location finish = finish

-- time_epoch_frac_state_t
pub data TimeState : Type 0 where
  seconds milliseconds finish : TimeState

unfoldable pub next_time : TimeState → TimeState
next_time seconds = milliseconds
next_time milliseconds = finish
next_time finish = finish

unfoldable pub type_name : PointType → Bytes
type_name integer = codes "INTEGER"
type_name long = codes "LONG"
type_name float = codes "FLOAT"
type_name double = codes "DOUBLE"
type_name string = codes "STRING"
type_name binary = codes "BINARY"
type_name json = codes "JSON"
type_name geojson = codes "GEOJSON"

module _ (floats : Floats) where
  open floats use {F}

  -- csv_process_data_t. `stream` and `later` are the current stream and those behind it, `points`
  -- the current point and those behind it; a NULL current point is the empty list. The members of
  -- the unions are fields of their own.
  pub record Process : Type 0 where
    pub stream : Stream floats
    pub later : List (Stream floats)
    pub points : List (Point floats)
    pub field : Field
    pub init : Bool
    pub intg : IntInfo
    pub dbl : DoubleInfo
    pub str : StringInfo
    pub location : LocationState
    pub time : TimeState

  -- What a function on the state gives: whether it is done, and what it leaves. `none` stands for
  -- a loop of process_double that is still running.
  abbrev pub Ran : Type 0
  Ran = Option (Bool × (Process × Buffer))

  unfoldable pub run_integer : Process → Buffer → Ran
  run_integer p b =
      let (done, (i, b')) = process_integer p.intg b in some (done, (record p { intg = i }, b'))

  unfoldable pub run_string : Process → Buffer → Ran
  run_string p b =
      let (done, (i, b')) = process_string p.str b in some (done, (record p { str = i }, b'))

  unfoldable pub run_double : ℕ → Process → Buffer → Ran
  run_double spin p b = elim (process_double spin p.dbl b) [
    | none ↦ none
    | some (done, r) ↦ some (done, (record p { dbl = r.0 }, r.1))
  ]

  -- The two switches of process_csv_data: what is initialised, and what is run.
  unfoldable pub init_native : PointType → Native floats → Process → Process
  init_native integer n p = record p { intg = init_int_info n.int_value 10 }
  init_native long n p = record p { intg = init_int_info n.long_value 10 }
  init_native float n p = record p { dbl = init_double_info floats n.float_value }
  init_native double n p = record p { dbl = init_double_info floats n.double_value }
  init_native string n p = record p { str = init_string_info n.string_value }
  init_native binary n p = record p { str = init_string_info n.string_value }
  init_native json n p = record p { str = init_string_info n.string_value }
  init_native geojson n p = record p { str = init_string_info n.string_value }

  unfoldable pub init_data : PointData floats → Process → Process
  unfolding init_native
  init_data (PointData.text s) p = record p { str = init_string_info s }
  init_data (PointData.native n) p = init_native p.stream.type n p

  unfoldable pub run_native : PointType → ℕ → Process → Buffer → Ran
  unfolding run_integer run_double run_string
  run_native integer spin p b = run_integer p b
  run_native long spin p b = run_integer p b
  run_native float spin p b = run_double spin p b
  run_native double spin p b = run_double spin p b
  run_native string spin p b = run_string p b
  run_native binary spin p b = run_string p b
  run_native json spin p b = run_string p b
  run_native geojson spin p b = run_string p b

  unfoldable pub run_data : PointType → PointData floats → ℕ → Process → Buffer → Ran
  unfolding run_native
  run_data type (PointData.text s) spin p b = run_string p b
  run_data type (PointData.native n) spin p b = run_native type spin p b

  unfoldable pub process_csv_data : ℕ → PointData floats → Process → Buffer → Ran
  unfolding init_data run_data
  process_csv_data spin d p b =
      run_data p.stream.type d spin (if p.init then p else init_data d (record p { init = true })) b

  -- A state that writes one character. 2 is stored in a bool, so a failed write reads as done.
  unfoldable pub put_location : ℕ → Process → Buffer → Ran
  put_location c p b =
      let (written, b') = put_character c b in
      if written
      then some (false, (record p { location = next_location p.location }, b'))
      else some (true, (p, b'))

  unfoldable pub advance_location : Process → Buffer → Ran
  advance_location p b = some (false, (record p { location = next_location p.location }, b))

  unfoldable pub init_coordinate : F → Process → Process
  init_coordinate v p = record p { dbl = init_double_info floats v }

  unfoldable pub init_coordinate_text : Option Bytes → Process → Process
  init_coordinate_text s p = record p {
    str = record (init_string_info s) { quotes_needed = false };
  }

  -- `location++` once the field is done; the state itself is not done by that.
  unfoldable pub after_coordinate : Ran → Ran
  after_coordinate none = none
  after_coordinate (some (done, (p, b))) =
      if done
      then some (false, (record p { location = next_location p.location }, b))
      else some (false, (p, b))

  -- The states that both kinds of location share, and the three values of each kind.
  unfoldable pub location_native : LocationState → ℕ → F → F → F → Process → Buffer → Ran
  unfolding put_location advance_location init_coordinate after_coordinate run_double
  location_native put_leading_quote spin x y z p b = put_location quote p b
  location_native init_latitude spin x y z p b = advance_location (init_coordinate x p) b
  location_native put_latitude spin x y z p b = after_coordinate (run_double spin p b)
  location_native put_1st_comma spin x y z p b = put_location b',' p b
  location_native init_longitude spin x y z p b = advance_location (init_coordinate y p) b
  location_native put_longitude spin x y z p b = after_coordinate (run_double spin p b)
  location_native put_2nd_comma spin x y z p b = put_location b',' p b
  location_native init_elevation spin x y z p b = advance_location (init_coordinate z p) b
  location_native put_elevation spin x y z p b = after_coordinate (run_double spin p b)
  location_native put_trailing_quote spin x y z p b = put_location quote p b
  location_native finish spin x y z p b = some (true, (p, b))

  unfoldable pub location_text :
      LocationState → Option Bytes → Option Bytes → Option Bytes → Process → Buffer → Ran
  unfolding put_location advance_location init_coordinate_text after_coordinate run_string
  location_text put_leading_quote x y z p b = put_location quote p b
  location_text init_latitude x y z p b = advance_location (init_coordinate_text x p) b
  location_text put_latitude x y z p b = after_coordinate (run_string p b)
  location_text put_1st_comma x y z p b = put_location b',' p b
  location_text init_longitude x y z p b = advance_location (init_coordinate_text y p) b
  location_text put_longitude x y z p b = after_coordinate (run_string p b)
  location_text put_2nd_comma x y z p b = put_location b',' p b
  location_text init_elevation x y z p b = advance_location (init_coordinate_text z p) b
  location_text put_elevation x y z p b = after_coordinate (run_string p b)
  location_text put_trailing_quote x y z p b = put_location quote p b
  location_text finish x y z p b = some (true, (p, b))

  -- if (!init) { init = true; location = LOCATION_STATE_PUT_LEADING_QUOTE; }
  unfoldable pub start_location : Process → Process
  start_location p = if p.init then p else record p { init = true; location = put_leading_quote }

  unfoldable pub process_csv_location : ℕ → Location floats → Process → Buffer → Ran
  unfolding location_native location_text start_location
  process_csv_location spin Location.ignore p b = some (true, (p, b))
  process_csv_location spin (Location.text x y z) p b =
      location_text (start_location p).location x y z (start_location p) b
  process_csv_location spin (Location.native x y z) p b =
      location_native (start_location p).location spin x y z (start_location p) b

  -- The two states of a fractional time that print, and the one that ends it.
  unfoldable pub fraction_state : TimeState → ℤ → Process → Buffer → Ran
  fraction_state finish ms p b = some (true, (p, b))
  fraction_state _ ms p b =
      let (done, (i, b')) = process_integer p.intg b in
      if done
      then some (
        false,
        (
          record p { intg = record (init_int_info ms 10) { figures = 3 }; time = next_time p.time },
          b',
        ),
      )
      else some (false, (record p { intg = i }, b'))

  unfoldable pub start_fraction : ℤ → Process → Process
  start_fraction s p =
      if p.init then p else record p { init = true; intg = init_int_info s 10; time = seconds }

  unfoldable pub start_integer : ℤ → Process → Process
  start_integer z p = if p.init then p else record p { init = true; intg = init_int_info z 10 }

  unfoldable pub start_string : Option Bytes → Process → Process
  start_string s p = if p.init then p else record p { init = true; str = init_string_info s }

  unfoldable pub process_csv_time : PointTime floats → Process → Buffer → Ran
  unfolding fraction_state start_fraction start_integer start_string run_integer run_string
  process_csv_time PointTime.cloud p b = some (true, (p, b))
  process_csv_time (PointTime.local_epoch_fractional s ms) p b =
      fraction_state (start_fraction s p).time ms (start_fraction s p) b
  process_csv_time (PointTime.local_epoch_whole ms) p b = run_integer (start_integer ms p) b
  process_csv_time (PointTime.local_iso8601 s) p b = run_string (start_string s p) b

  unfoldable pub process_csv_quality : Quality floats → Process → Buffer → Ran
  unfolding start_integer run_integer
  process_csv_quality Quality.ignore p b = some (true, (p, b))
  process_csv_quality (Quality.native q) p b = run_integer (start_integer q p) b
