-- ===== src/Csv/Read.antt =====
-- A reader for the fields of the CSV, against which the strings that the generator writes are read
-- back.
use cc_dey.Base.{
  ℕ, ◌≡◌, refl, ap, ◌∙◌, Bool, true, false, Option, none, some, [], ◌∷◌, ◌++◌, append_assoc, Bytes,
  ◌==◌, if◌then◌else◌, arith, Bool-cases, inl, inr,
}
use cc_dey.Csv.Quoted.{
  quote, backslash, character_needs_escaping, is_special, needs_quotes, string_needs_quotes,
}
use cc_dey.Csv.Quoted.Print.{escaped, enclosed, string_text}

unfoldable pub before : ℕ → Option (Bytes × Bytes) → Option (Bytes × Bytes)
before c none = none
before c (some (s, rest)) = some (c ∷ s, rest)

-- Up to the closing quote; the flag says that the character stands behind a backslash.
unfoldable pub read_quoted : Bool → Bytes → Option (Bytes × Bytes)
unfolding before
read_quoted escape [] = none
read_quoted escape (c ∷ s) =
    let keep = before c (read_quoted false s) in
    let behind = read_quoted true s in
    if escape
    then keep
    else if c == backslash
    then behind
    else if c == quote
    then some ([], s)
    else keep

-- Up to the next comma.
unfoldable pub read_raw : Bytes → Option (Bytes × Bytes)
unfolding before
read_raw [] = some ([], [])
read_raw (c ∷ s) = let keep = before c (read_raw s) in if c == b',' then some ([], c ∷ s) else keep

-- The string of a field, and what stands behind the field.
unfoldable pub read_field : Bytes → Option (Bytes × Bytes)
unfolding read_quoted read_raw
read_field [] = some ([], [])
read_field (c ∷ s) = if c == quote then read_quoted false s else read_raw (c ∷ s)

read_quoted-escaped :
    (s rest : Bytes) → read_quoted false (escaped s ++ (quote ∷ rest)) ≡ some (s, rest)
unfolding read_quoted escaped before
read_quoted-escaped [] rest = refl
read_quoted-escaped (c ∷ s) rest = elim (Bool-cases (character_needs_escaping c)) [
  | inl special ↦ rw (special, read_quoted-escaped s rest) refl
  | inr plain ↦
      let no_backslash : (c == backslash) ≡ false =
        unfold character_needs_escaping in ground arith in
      let no_quote : (c == quote) ≡ false = unfold character_needs_escaping in ground arith in
      rw (plain, no_backslash, no_quote, read_quoted-escaped s rest) refl
]

-- A string that needs no quotes is written as it is.
escaped-plain : (s : Bytes) → needs_quotes s ≡ false → escaped s ≡ s
unfolding escaped needs_quotes is_special character_needs_escaping
escaped-plain [] e = refl
escaped-plain (c ∷ s) e =
    let calm : character_needs_escaping c ≡ false = ground arith in
    let others : needs_quotes s ≡ false = ground arith in
    rw calm (ap (λ l. c ∷ l) (escaped-plain s others))

read_raw-plain :
    (s rest : Bytes)
    → needs_quotes s ≡ false
    → read_raw (s ++ (b',' ∷ rest)) ≡ some (s, b',' ∷ rest)
unfolding read_raw needs_quotes is_special before
read_raw-plain [] rest e = refl
read_raw-plain (c ∷ s) rest e =
    let no_comma : (c == b',') ≡ false = ground arith in
    let others : needs_quotes s ≡ false = ground arith in
    rw (no_comma, read_raw-plain s rest others) refl

read_field-plain :
    (s rest : Bytes)
    → needs_quotes s ≡ false
    → read_field (s ++ (b',' ∷ rest)) ≡ some (s, b',' ∷ rest)
unfolding read_field needs_quotes is_special
read_field-plain [] rest e = unfold read_raw in refl
read_field-plain (c ∷ s) rest e =
    let no_quote : (c == quote) ≡ false = ground arith in
    rw no_quote (read_raw-plain (c ∷ s) rest e)

-- A string of the CSV, with a comma behind it, is read back as it was, and the reader stops at
-- that comma, whatever characters the string has.
pub read_field-string_text :
    (s rest : Bytes) → read_field (string_text (some s) ++ (b',' ∷ rest)) ≡ some (s, b',' ∷ rest)
unfolding string_text enclosed string_needs_quotes
read_field-string_text s rest = elim (Bool-cases (needs_quotes s)) [
  | inl special ↦ rw special (
      unfold read_field in
      ap (read_quoted false) (append_assoc (escaped s) (quote ∷ []) (b',' ∷ rest))
      ∙ read_quoted-escaped s (b',' ∷ rest))
  | inr plain ↦ rw (plain, escaped-plain s plain) (read_field-plain s rest plain)
]
