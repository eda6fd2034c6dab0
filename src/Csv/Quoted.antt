-- ===== src/Csv/Quoted.antt =====
-- library/src/services-client/stringify_tools.c: strings, in quotes and with escapes where they
-- need them. A string is the list of its bytes before the '\0'; `none` is a NULL pointer.
pub mod Print
use cc_dey.Base.{
  ℕ, Bool, true, false, not, ◌&&◌, ◌||◌, Option, none, some, [], ◌∷◌, Bytes, ◌==◌, if◌then◌else◌,
}
use cc_dey.Csv.{Buffer, put_character}

-- string_info_t, with the bits of `quotes_info`; `next_char` is the text from that character on.
pub record StringInfo : Type 0 where
  pub next_char : Option Bytes
  pub quotes_needed : Bool
  pub leading_put : Bool
  pub trailing_put : Bool
  pub escape : Bool

abbrev pub quote : ℕ
quote = b'"'

abbrev pub backslash : ℕ
backslash = 92

unfoldable pub character_needs_escaping : ℕ → Bool
character_needs_escaping c = c == backslash || c == quote

-- strchr("\"\\, \t\r\n", c) != NULL, for a byte of a string.
unfoldable pub is_special : ℕ → Bool
is_special c =
    c == quote || (c == backslash || (c == b',' || (c == b' ' || (c == 9 || (c == 13 || c == 10)))))

unfoldable pub needs_quotes : Bytes → Bool
needs_quotes [] = false
needs_quotes (c ∷ s) = is_special c || needs_quotes s

unfoldable pub string_needs_quotes : Option Bytes → Bool
unfolding needs_quotes
string_needs_quotes none = false
string_needs_quotes (some s) = needs_quotes s

unfoldable pub init_string_info : Option Bytes → StringInfo
unfolding string_needs_quotes
init_string_info s = record {
  next_char = s;
  quotes_needed = string_needs_quotes s;
  leading_put = false;
  trailing_put = false;
  escape = false;
}

-- What the loop over the characters leaves: whether it got to the end, the rest of the string, and
-- the escape flag.
pub record Scanned : Type 0 where
  pub at_end : Bool
  pub rest : Bytes
  pub escape : Bool
  pub buffer : Buffer

-- The loop. A character that needs it is written behind a backslash; the flag says that the
-- backslash is written.
unfoldable pub put_string : Bytes → Bool → Buffer → Scanned
put_string [] escape b = record { at_end = true; rest = []; escape = escape; buffer = b }
put_string (c ∷ s) escape b = elim (not escape && character_needs_escaping c) [
  | true ↦
      let (escaped, b₁) = put_character backslash b in
      let (written, b₂) = put_character c b₁ in
      elim escaped [
        | false ↦ record { at_end = false; rest = c ∷ s; escape = true; buffer = b₁ }
        | true ↦ elim written [
          | false ↦ record { at_end = false; rest = c ∷ s; escape = true; buffer = b₂ }
          | true ↦ put_string s false b₂
        ]
      ]
  | false ↦
      let (written, b₁) = put_character c b in
      elim written [
        | false ↦ record { at_end = false; rest = c ∷ s; escape = escape; buffer = b₁ }
        | true ↦ put_string s false b₁
      ]
]

-- The leading quote; where it cannot be written, the code goes on.
put_leading : StringInfo → Buffer → StringInfo × Buffer
put_leading i b =
    if i.quotes_needed && not i.leading_put
    then (let (written, b') = put_character quote b in (record i { leading_put = written }, b'))
    else (i, b)

-- What stands behind the loop.
put_trailing : StringInfo → Buffer → Bool × (StringInfo × Buffer)
put_trailing i b =
    if i.quotes_needed && not i.trailing_put
    then (let (written, b') = put_character quote b in
        (written, (record i { trailing_put = written }, b')))
    else (true, (i, b))

after_scan : StringInfo → Scanned → Bool × (StringInfo × Buffer)
unfolding put_trailing
after_scan i r =
    let i' = record i { next_char = some r.rest; escape = r.escape } in
    if r.at_end then put_trailing i' r.buffer else (false, (i', r.buffer))

after_leading : Bytes → StringInfo × Buffer → Bool × (StringInfo × Buffer)
unfolding put_string after_scan
after_leading s (i, b) = after_scan i (put_string s i.escape b)

process_from : Option Bytes → StringInfo → Buffer → Bool × (StringInfo × Buffer)
unfolding put_leading after_leading
process_from none i b = (true, (i, b))
process_from (some s) i b = after_leading s (put_leading i b)

unfoldable pub process_string : StringInfo → Buffer → Bool × (StringInfo × Buffer)
unfolding process_from
process_string i b = process_from i.next_char i b
