-- ===== src/Csv/Number.antt =====
-- library/src/services-client/stringify_tools.c: integers and doubles. There are no floating-point
-- numbers here: their type and the operations that the source uses come by an interface.
pub mod Print
pub mod Full
use cc_dey.Base.{
  ℕ, zero, suc, ◌+◌, ◌-◌, ◌/◌, ◌%◌, Bool, true, false, Option, none, some, ℤ, pos, nat_abs,
  is_negative, ltb, if◌then◌else◌,
}
use cc_dey.Csv.{Buffer, put_character}

-- int_info_t
pub record IntInfo : Type 0 where
  pub value : ℕ
  pub figures : ℕ
  pub negative : Bool
  pub base : ℕ

-- while ((value /= 10) >= 1) length++;
unfoldable pub count_loop : ℕ → ℕ → ℕ
count_loop zero value = 1
count_loop (suc fuel) value =
    let more = suc (count_loop fuel (value / 10)) in if ltb (value / 10) 1 then 1 else more

-- A uint64_t has at most 20 figures.
unfoldable pub count_int_ciphers : ℕ → ℕ
unfolding count_loop
count_int_ciphers value = count_loop 19 value

-- for (i = 0; i < times; i++) number /= base;
unfoldable pub divide_times : ℕ → ℕ → ℕ → ℕ
divide_times zero number base = number
divide_times (suc times) number base = divide_times times (number / base) base

unfoldable pub get_next_cipher : ℕ → ℕ → ℕ → ℕ
unfolding divide_times
get_next_cipher number cipher_order base = divide_times (cipher_order - 1) number base % base

unfoldable pub cipher_character : ℕ → ℕ
cipher_character cipher = if ltb cipher 10 then b'0' + cipher else b'A' + cipher - 10

-- The loop over the figures. What put_character returns is overwritten by the next round, and by
-- the test behind the loop.
unfoldable pub put_figures : ℕ → IntInfo → Buffer → Buffer
unfolding cipher_character
put_figures zero i b = b
put_figures (suc figures) i b =
    put_figures figures i
      (put_character (cipher_character (get_next_cipher i.value (suc figures) i.base)) b).1

put_all : IntInfo → Buffer → Bool × (IntInfo × Buffer)
unfolding put_figures
put_all i b = (true, (record i { figures = 0; negative = false }, put_figures i.figures i b))

-- Whether it is done, and what it leaves.
unfoldable pub process_integer : IntInfo → Buffer → Bool × (IntInfo × Buffer)
unfolding put_all
process_integer i b =
    if i.negative
    then (let (written, b') = put_character b'-' b in
        if written then put_all i b' else (false, (i, b')))
    else put_all i b

-- The absolute value of INT64_MIN is taken to be 2^63, as the conversion to uint64_t gives it.
unfoldable pub init_int_info : ℤ → ℕ → IntInfo
unfolding count_int_ciphers
init_int_info value base = record {
  value = nat_abs value;
  figures = count_int_ciphers (nat_abs value);
  negative = is_negative value;
  base = base;
}

-- double_info_t
pub record DoubleInfo : Type 0 where
  pub integer : IntInfo
  pub fractional : IntInfo
  pub point_set : Bool

-- The rest of a round of process_double, once the integer part is done: whether the loop is left,
-- and with which result.
unfoldable pub put_fraction : DoubleInfo → Buffer → Bool × (Bool × (DoubleInfo × Buffer))
unfolding process_integer
put_fraction d b =
    let (done, (f, b')) = process_integer d.fractional b in
    (done, (done, (record d { fractional = f }, b')))

unfoldable pub put_point : DoubleInfo → Buffer → Bool × (Bool × (DoubleInfo × Buffer))
unfolding put_fraction
put_point d b =
    if d.point_set
    then put_fraction d b
    else (let (written, b') = put_character b'.' b in
        if written
        then put_fraction (record d { point_set = true }) b'
        else (true, (false, (d, b'))))

unfoldable pub double_round : DoubleInfo → Buffer → Bool × (Bool × (DoubleInfo × Buffer))
unfolding process_integer put_point
double_round d b =
    let (done, (i, b')) = process_integer d.integer b in
    if done
    then put_point (record d { integer = i }) b'
    else (false, (false, (record d { integer = i }, b')))

-- The loop of process_double; `none` means that it is still running.
unfoldable pub process_double : ℕ → DoubleInfo → Buffer → Option (Bool × (DoubleInfo × Buffer))
unfolding double_round
process_double zero d b = none
process_double (suc fuel) d b =
    let again = process_double fuel (double_round d b).1.1.0 (double_round d b).1.1.1 in
    if (double_round d b).0 then some (double_round d b).1 else again

-- The operations on double that init_double_info uses; `truncate` is the conversion to long, and
-- a NaN is neither nonnegative nor below zero.
pub record Floats : Type 1 where
  pub F : Type 0
  pub is_nonnegative : F → Bool
  pub is_below_zero : F → Bool
  pub negate : F → F
  pub truncate : F → ℤ
  pub minus_long : F → ℤ → F
  pub times_million : F → F
  pub plus_half : F → F
  pub minus_half : F → F

module _ (floats : Floats) where
  open floats use {
    F, is_nonnegative, is_below_zero, negate, truncate, minus_long, times_million, plus_half,
    minus_half,
  }

  unfoldable pub double_to_long_rounded : F → ℤ
  double_to_long_rounded d =
      if is_nonnegative d then truncate (plus_half d) else truncate (minus_half d)

  unfoldable pub absolute_value : F → F
  absolute_value value = if is_nonnegative value then value else negate value

  unfoldable pub fractional_part : F → ℤ
  unfolding double_to_long_rounded absolute_value
  fractional_part value =
      double_to_long_rounded
        (times_million (minus_long (absolute_value value) (truncate (absolute_value value))))

  unfoldable pub init_double_info : F → DoubleInfo
  unfolding fractional_part init_int_info
  init_double_info value = record {
    integer =
        if is_below_zero value
        then (record (init_int_info (truncate (absolute_value value)) 10) { negative = true })
        else init_int_info (truncate (absolute_value value)) 10;
    fractional = record (init_int_info (fractional_part value) 10) { figures = 6 };
    point_set = false;
  }
