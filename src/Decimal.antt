-- ===== src/Decimal.antt =====
-- The C library calls of library/src/services/services_util.c on numbers: the "%u" of snprintf,
-- and strtoul in base 10, where unsigned long has 64 bits.
pub mod RoundTrip
use cc_dey.Base.{
  ℕ, zero, suc, ◌+◌, ◌-◌, ◌*◌, ◌/◌, ◌%◌, ◌^◌, Bool, true, false, not, ◌&&◌, ◌||◌, List, [], ◌∷◌,
  ◌++◌, Bytes, ltb, leb, ◌==◌, if◌then◌else◌,
}

-- The decimal digits of n, at most `fuel + 1` of them.
unfoldable pub digits : ℕ → ℕ → Bytes
digits zero n = (b'0' + n) ∷ []
digits (suc fuel) n =
    let more = digits fuel (n / 10) ++ (b'0' + n % 10) ∷ [] in
    if ltb n 10 then (b'0' + n) ∷ [] else more

-- "%u" of an unsigned int of 32 bits, which has at most ten digits.
unfoldable pub decimal : ℕ → Bytes
decimal n = digits 9 n

unfoldable pub is_space : ℕ → Bool
is_space c = c == 0x20 || leb 0x09 c && leb c 0x0d

unfoldable pub is_digit : ℕ → Bool
is_digit c = leb b'0' c && leb c b'9'

abbrev pub ulong_max : ℕ
ulong_max = 2 ^ 64 - 1

pub record Parsed : Type 0 where
  pub value : ℕ
  pub rest : Bytes

unfoldable pub skip_spaces : Bytes → Bytes
skip_spaces [] = []
skip_spaces (c ∷ s) = if is_space c then skip_spaces s else c ∷ s

-- The digits, and where they end.
unfoldable pub scan : ℕ → Bytes → Parsed
scan n [] = record { value = n; rest = [] }
scan n (c ∷ s) =
    let more = scan (n * 10 + (c - b'0')) s in
    if is_digit c then more else record { value = n; rest = c ∷ s }

-- The value is cut at ULONG_MAX; behind a minus sign it is negated modulo 2^64.
unfoldable pub signed_value : Bool → ℕ → ℕ
signed_value negative n =
    if ltb ulong_max n then ulong_max else if negative then (2 ^ 64 - n) % 2 ^ 64 else n

unfoldable pub after_sign : Bool → Bytes → Bytes → Parsed
after_sign negative whole [] = record { value = 0; rest = whole }
after_sign negative whole (c ∷ s) =
    if is_digit c
    then (record {
      value = signed_value negative (scan 0 (c ∷ s)).value;
      rest = (scan 0 (c ∷ s)).rest;
    })
    else record { value = 0; rest = whole }

unfoldable pub take_sign : Bytes → Bytes → Parsed
take_sign whole [] = record { value = 0; rest = whole }
take_sign whole (c ∷ s) =
    if c == b'-'
    then after_sign true whole s
    else if c == b'+'
    then after_sign false whole s
    else after_sign false whole (c ∷ s)

-- strtoul(text, &end, 10): the value, and the text from `end`, which is all of it if no digit
-- was found.
unfoldable pub strtoul : Bytes → Parsed
strtoul text = take_sign text (skip_spaces text)
