-- ===== src/Csv/Quoted/Print.antt =====
-- The text of a string in the CSV.
use cc_dey.Base.{
  ◌≡◌, refl, sym, ap, ◌∙◌, Bool, true, false, Option, none, some, [], ◌∷◌, ◌++◌, Bytes, arith,
  if◌then◌else◌,
}
use cc_dey.Csv.{Buffer}
use cc_dey.Csv.Number.Print.{extend, extend-extend, extend-nil, Roomy, put_character-Roomy}
use cc_dey.Csv.Quoted.{
  StringInfo, quote, backslash, character_needs_escaping, string_needs_quotes, put_string,
  put_leading, put_trailing, after_scan, after_leading, process_from, process_string,
  init_string_info,
}

unfoldable pub escaped : Bytes → Bytes
escaped [] = []
escaped (c ∷ s) = if character_needs_escaping c then backslash ∷ (c ∷ escaped s) else c ∷ escaped s

pub enclose : Bool → Bytes → Bytes
enclose true s = quote ∷ (s ++ quote ∷ [])
enclose false s = s

-- What is printed of a string, with quotes or not.
unfoldable pub enclosed : Bool → Option Bytes → Bytes
unfolding escaped enclose
enclosed needed none = []
enclosed needed (some s) = enclose needed (escaped s)

-- What is printed of a string.
unfoldable pub string_text : Option Bytes → Bytes
unfolding enclosed string_needs_quotes
string_text s = enclosed (string_needs_quotes s) s

put_string-Roomy :
    (s : Bytes) (b : Buffer)
    → Roomy b
    → put_string s false b
      ≡ record { at_end = true; rest = []; escape = false; buffer = extend (escaped s) b }
unfolding put_string escaped
put_string-Roomy [] b h =
    ap (λ x. record { at_end = true; rest = []; escape = false; buffer = x }) (sym (extend-nil b))
put_string-Roomy (c ∷ s) b h = ground (
  arith,
  put_character-Roomy backslash b h,
  put_character-Roomy c (extend (backslash ∷ []) b) h,
  put_character-Roomy c b h,
  put_string-Roomy s (extend (c ∷ []) (extend (backslash ∷ []) b)) h,
  put_string-Roomy s (extend (c ∷ []) b) h,
  extend-extend (c ∷ []) (escaped s) (extend (backslash ∷ []) b),
  extend-extend (backslash ∷ []) (c ∷ escaped s) b,
  extend-extend (c ∷ []) (escaped s) b,
)

-- string_info_t when the string is printed.
abbrev pub final_info : Bool → Option Bytes → StringInfo
final_info needed none = record {
  next_char = none;
  quotes_needed = needed;
  leading_put = false;
  trailing_put = false;
  escape = false;
}
final_info needed (some s) = record {
  next_char = some [];
  quotes_needed = needed;
  leading_put = needed;
  trailing_put = needed;
  escape = false;
}

-- With room in the heap a string is printed whole, whatever the buffer holds.
pub process_string-Roomy :
    (s : Option Bytes) (needed : Bool) (b : Buffer)
    → Roomy b
    → process_string (record (init_string_info s) { quotes_needed = needed }) b
      ≡ (true, (final_info needed s, extend (enclosed needed s) b))
unfolding process_string process_from init_string_info after_leading enclosed enclose
process_string-Roomy none needed b h =
    ap (λ x. (true, (final_info needed none, x))) (sym (extend-nil b))
process_string-Roomy (some s) true b h =
    (unfold put_leading in
      ap
        (λ x. after_leading s (
          record {
            next_char = some s;
            quotes_needed = true;
            leading_put = x.0;
            trailing_put = false;
            escape = false;
          },
          x.1,
        ))
        (put_character-Roomy quote b h))
    ∙ ap
        (λ x.
          after_scan
            (record {
              next_char = some s;
              quotes_needed = true;
              leading_put = true;
              trailing_put = false;
              escape = false;
            })
            x)
        (put_string-Roomy s (extend (quote ∷ []) b) h)
    ∙ (unfold after_scan put_trailing in
        ap
          (λ x. (
            x.0,
            (
              record {
                next_char = some [];
                quotes_needed = true;
                leading_put = true;
                trailing_put = x.0;
                escape = false;
              },
              x.1,
            ),
          ))
          (put_character-Roomy quote (extend (escaped s) (extend (quote ∷ []) b)) h))
    ∙ ap (λ x. (true, (final_info true (some s), x)))
        (extend-extend (escaped s) (quote ∷ []) (extend (quote ∷ []) b)
          ∙ extend-extend (quote ∷ []) (escaped s ++ quote ∷ []) b)
process_string-Roomy (some s) false b h =
    (unfold put_leading in
      ap
        (λ x.
          after_scan
            (record {
              next_char = some s;
              quotes_needed = false;
              leading_put = false;
              trailing_put = false;
              escape = false;
            })
            x)
        (put_string-Roomy s b h))
    ∙ (unfold after_scan put_trailing in refl)

-- A string is printed with the quotes and the escapes that it needs, whatever the buffer holds, as
-- long as the heap has room.
pub process_string-string_text :
    (s : Option Bytes) (b : Buffer)
    → Roomy b
    → process_string (init_string_info s) b
      ≡ (true, (final_info (string_needs_quotes s) s, extend (string_text s) b))
unfolding init_string_info string_text
process_string-string_text s b h = process_string-Roomy s (string_needs_quotes s) b h
