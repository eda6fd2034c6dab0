-- ===== src/Csv/Generator/Text.antt =====
-- The text of a data point in the CSV: nine fields with commas between them, and a newline.
use cc_dey.Base.{false, ◌<◌, ◌^◌, some, [], ◌∷◌, ◌++◌, Bytes, ℤ, nat_abs, is_negative}
use cc_dey.Csv.Number.{Floats, init_double_info}
use cc_dey.Csv.Number.Print.{sign, ciphers, int_text, double_text}
use cc_dey.Csv.Quoted.{quote}
use cc_dey.Csv.Quoted.Print.{string_text, enclosed}
use cc_dey.Csv.Point.{
  PointType, integer, long, float, double, string, binary, json, geojson, Native, PointData,
  Location, PointTime, Quality, Point, Stream,
}
use cc_dey.Csv.Machine.{type_name}

module _ (floats : Floats) where
  open floats use {F}

  unfoldable pub native_text : PointType → Native floats → Bytes
  native_text integer n = int_text n.int_value
  native_text long n = int_text n.long_value
  native_text float n = double_text (init_double_info floats n.float_value)
  native_text double n = double_text (init_double_info floats n.double_value)
  native_text string n = string_text n.string_value
  native_text binary n = string_text n.string_value
  native_text json n = string_text n.string_value
  native_text geojson n = string_text n.string_value

  unfoldable pub data_text : PointType → PointData floats → Bytes
  unfolding native_text
  data_text type (PointData.text s) = string_text s
  data_text type (PointData.native n) = native_text type n

  -- Milliseconds have three figures.
  unfoldable pub milliseconds_text : ℤ → Bytes
  unfolding sign
  milliseconds_text ms = sign (is_negative ms) ++ ciphers 3 (nat_abs ms)

  unfoldable pub time_text : PointTime floats → Bytes
  unfolding milliseconds_text
  time_text PointTime.cloud = []
  time_text (PointTime.local_epoch_fractional s ms) = int_text s ++ milliseconds_text ms
  time_text (PointTime.local_epoch_whole ms) = int_text ms
  time_text (PointTime.local_iso8601 s) = string_text s

  unfoldable pub quality_text : Quality floats → Bytes
  quality_text Quality.ignore = []
  quality_text (Quality.native q) = int_text q

  -- A location is one field in quotes.
  unfoldable pub triple_text : Bytes → Bytes → Bytes → Bytes
  triple_text x y z = quote ∷ (x ++ (b',' ∷ (y ++ (b',' ∷ (z ++ (quote ∷ []))))))

  unfoldable pub location_text_of : Location floats → Bytes
  unfolding triple_text
  location_text_of Location.ignore = []
  location_text_of (Location.text x y z) =
      triple_text (enclosed false x) (enclosed false y) (enclosed false z)
  location_text_of (Location.native x y z) =
      triple_text (double_text (init_double_info floats x))
        (double_text (init_double_info floats y)) (double_text (init_double_info floats z))

  unfoldable pub then_comma : Bytes → Bytes → Bytes
  then_comma s rest = s ++ (b',' ∷ rest)

  unfoldable pub line_text : Stream floats → Point floats → Bytes
  unfolding data_text time_text quality_text location_text_of then_comma
  line_text s x = then_comma (data_text s.type x.element) (
      then_comma (time_text x.time) (
        then_comma (quality_text x.quality) (
          then_comma (string_text x.description) (
            then_comma (location_text_of x.location) (
              then_comma (string_text (some (type_name s.type))) (
                then_comma (string_text s.unit) (
                  then_comma (string_text s.forward_to)
                    (string_text s.stream_id ++ b'\n' ∷ []))))))))

  -- The integers that are printed have 64 bits.
  abbrev pub Small : ℤ → Type 0
  Small z = nat_abs z < 2 ^ 64

  abbrev NativeFits : PointType → Native floats → Type 0
  NativeFits integer n = Small n.int_value
  NativeFits long n = Small n.long_value
  NativeFits _ n = Unit

  abbrev pub DataFits : PointType → PointData floats → Type 0
  DataFits type (PointData.text s) = Unit
  DataFits type (PointData.native n) = NativeFits type n

  abbrev pub TimeFits : PointTime floats → Type 0
  TimeFits PointTime.cloud = Unit
  TimeFits (PointTime.local_epoch_fractional s ms) = Small s
  TimeFits (PointTime.local_epoch_whole ms) = Small ms
  TimeFits (PointTime.local_iso8601 s) = Unit

  abbrev pub QualityFits : Quality floats → Type 0
  QualityFits Quality.ignore = Unit
  QualityFits (Quality.native q) = Small q

  abbrev pub Fits : PointType → Point floats → Type 0
  Fits type x = DataFits type x.element × TimeFits x.time × QualityFits x.quality
