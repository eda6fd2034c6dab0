-- ===== src/Tests/Sheets.antt =====
-- Runs of the CSV generator. A number with a fraction is a sign and a count of half millionths.
use cc_dey.Base.{
  ℕ, ◌+◌, ◌-◌, ◌*◌, ◌/◌, ◌%◌, ◌^◌, ◌≡◌, refl, Bool, true, false, not, none, some, List, [], ◌∷◌,
  ◌++◌, codes, length, ℤ, pos, negsuc, ltb, if◌then◌else◌, arith,
}
use cc_dey.Csv.{Buffer}
use cc_dey.Decimal.{digits}
use cc_dey.Csv.Generator.Text.{line_text}
use cc_dey.Csv.Number.{
  divide_times, Floats, init_int_info, init_double_info, process_integer, process_double,
}
use cc_dey.Csv.Number.Print.{
  ciphers, double_text, info_text, printed, extend, int_text, process_integer-int_text,
}
use cc_dey.Csv.Number.Full.{process_integer-Full, process_double-Full}
use cc_dey.Csv.Quoted.{
  is_special, character_needs_escaping, init_string_info, process_string, string_needs_quotes,
}
use cc_dey.Csv.Quoted.Print.{string_text, final_info, process_string-string_text}
use cc_dey.Csv.Point.{
  integer, double, Native, PointData, Location, PointTime, Quality, Point, Stream,
}
use cc_dey.Csv.Machine.{type_name, put_leading_quote, seconds}
use cc_dey.Csv.Generator.{generated, generate_dp_csv}
use cc_dey.Csv.Generator.Fields.{Scratch}
use cc_dey.Csv.Generator.Sheet.{sheet, limited, lines_text, before, generate_dp_csv-lines_text}
use cc_dey.Csv.Read.{read_field, read_field-string_text}

abbrev unit_value : ℕ
unit_value = 2000000

-- The sum of a signed count and a difference of counts.
signed : ℕ → ℕ → Bool × ℕ
signed up down = if ltb up down then (true, down - up) else (false, up - down)

pub add : ℕ → ℕ → Bool × ℕ → Bool × ℕ
unfolding signed
add up down (true, m) = signed up (m + down)
add up down (false, m) = signed (m + up) down

pub whole_part : Bool × ℕ → ℤ
whole_part (false, m) = pos (m / unit_value)
whole_part (true, m) = if ltb m unit_value then pos 0 else negsuc (m / unit_value - 1)

pub less_long : Bool × ℕ → ℤ → Bool × ℕ
unfolding add
less_long v (pos k) = add 0 (k * unit_value) v
less_long v (negsuc k) = add ((k + 1) * unit_value) 0 v

abbrev pub half_millionths : Floats
half_millionths = record {
  F = Bool × ℕ;
  is_nonnegative = λ v. not v.0;
  is_below_zero = λ v. v.0;
  negate = λ v. (not v.0, v.1);
  truncate = whole_part;
  minus_long = less_long;
  times_million = λ v. (v.0, v.1 * 1000000);
  plus_half = add 1000000 0;
  minus_half = add 0 1000000;
}

abbrev pub no_value : Native half_millionths
no_value = record {
  int_value = pos 0;
  long_value = pos 0;
  float_value = (false, 0);
  double_value = (false, 0);
  string_value = none;
}

abbrev pub counted : Point half_millionths
counted = record {
  element = PointData.native (record no_value { int_value = negsuc 41 });
  time = PointTime.local_epoch_fractional (pos 1700000000) (pos 7);
  quality = Quality.native (pos 3);
  description = some (codes "a \"b\"");
  location = Location.native (false, 3000000) (true, 500000) (false, 0);
}

abbrev pub worded : Point half_millionths
worded = record {
  element = PointData.text (some (codes "on"));
  time = PointTime.cloud;
  quality = Quality.ignore;
  description = none;
  location = Location.text (some (codes "1.5")) (some (codes "2")) none;
}

abbrev pub temperature : Stream half_millionths
temperature = record {
  stream_id = some (codes "t");
  unit = some (codes "C");
  forward_to = none;
  type = integer;
  points = counted ∷ (worded ∷ []);
}

abbrev pub pressure : Stream half_millionths
pressure = record {
  stream_id = some (codes "p");
  unit = none;
  forward_to = none;
  type = double;
  points =
      record worded {
        element = PointData.native (record no_value { double_value = (true, 5000000) });
      }
      ∷ [];
}

abbrev pub scratch : Scratch
scratch = record {
  intg = init_int_info (pos 9) 10;
  dbl = init_double_info half_millionths (false, 9);
  str = init_string_info none;
  location = put_leading_quote;
  time = seconds;
}

abbrev empty_buffer : Buffer
empty_buffer = record { bytes = []; available = 4; alloc = λ n. true }

abbrev full_buffer : Buffer
full_buffer = record { bytes = codes "x"; available = 0; alloc = λ n. false }

abbrev all_points : List (Stream half_millionths × Point half_millionths)
all_points =
    limited half_millionths 0 (sheet half_millionths (pressure ∷ []) temperature temperature.points)

lines :
    lines_text half_millionths all_points
    ≡ codes "-42,1700000000007,3,\"a \\\"b\\\"\",\"1.500000,-0.250000,0.000000\",INTEGER,C,,t\n"
      ++ (codes "on,,,,\"1.5,2,\",INTEGER,C,,t\n" ++ codes "-2.500000,,,,\"1.5,2,\",DOUBLE,,,p\n")
unfolding limited sheet lines_text line_text int_text digits ciphers divide_times string_text
    is_special character_needs_escaping double_text info_text init_double_info whole_part less_long
    type_name
lines = refl

generate_dp_csv-lines_text_example :
    generate_dp_csv half_millionths 100 1 0 0
      (before half_millionths (pressure ∷ []) temperature temperature.points scratch)
      empty_buffer
    ≡ some (
        generated
          (extend (lines_text half_millionths all_points) empty_buffer)
          (length all_points % 2 ^ 32))
unfolding limited sheet
generate_dp_csv-lines_text_example =
    generate_dp_csv-lines_text half_millionths 100 0 0 (pressure ∷ []) temperature scratch
      empty_buffer (omega arith)
      ((omega arith, omega arith, omega arith), ((tt, tt, tt), ((tt, tt, tt), tt))) (λ n. refl)

read_field-string_text_example :
    read_field (string_text (some (codes "a,\"b\\")) ++ (b',' ∷ codes "rest"))
    ≡ some (codes "a,\"b\\", b',' ∷ codes "rest")
read_field-string_text_example = read_field-string_text (codes "a,\"b\\") (codes "rest")

process_integer-int_text_example :
    process_integer (init_int_info (negsuc 41) 10) empty_buffer
    ≡ (true, (printed (init_int_info (negsuc 41) 10), extend (int_text (negsuc 41)) empty_buffer))
process_integer-int_text_example =
    process_integer-int_text (negsuc 41) empty_buffer (omega arith) (λ n. refl)

process_string-string_text_example :
    process_string (init_string_info (some (codes "a b"))) empty_buffer ≡ (
      true,
      (
        final_info (string_needs_quotes (some (codes "a b"))) (some (codes "a b")),
        extend (string_text (some (codes "a b"))) empty_buffer,
      ),
    )
process_string-string_text_example =
    process_string-string_text (some (codes "a b")) empty_buffer (λ n. refl)

process_integer-Full_example : process_integer (init_int_info (pos 42) 10) full_buffer ≡ (
    if (init_int_info (pos 42) 10).negative
    then (false, (init_int_info (pos 42) 10, full_buffer))
    else (true, (printed (init_int_info (pos 42) 10), full_buffer)))
process_integer-Full_example =
    process_integer-Full (init_int_info (pos 42) 10) full_buffer refl (λ n. refl)

process_double-Full_example :
    process_double 1000 (init_double_info half_millionths (true, 3000000)) full_buffer ≡ none
unfolding init_double_info
process_double-Full_example =
    process_double-Full 1000 (init_double_info half_millionths (true, 3000000)) full_buffer refl
      refl (λ n. refl)
