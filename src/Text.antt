-- ===== src/Text.antt =====
-- library/src/utils.c: the functions that clean a C string in place. A string is the list of its
-- bytes before the '\0'; `none` is a NULL pointer. `isspace` and `isprint` are those of the C
-- locale, where only 0x20 to 0x7e are printable.
pub mod Trim
use cc_dey.Base.{
  ℕ, zero, suc, ◌+◌, ◌-◌, Bool, true, false, not, ◌&&◌, ◌||◌, Option, none, some, List, [], ◌∷◌,
  ◌++◌, Bytes, leb, ◌==◌, if◌then◌else◌,
}
use mathlib.Core.List.{reverse}

unfoldable pub is_space : ℕ → Bool
is_space c = c == 0x20 || leb 0x09 c && leb c 0x0d

unfoldable pub is_print : ℕ → Bool
is_print c = leb 0x20 c && leb c 0x7e

-- isspace(*p) || !isprint(*p), for a byte of the string.
unfoldable pub is_blank : ℕ → Bool
unfolding is_space is_print
is_blank c = is_space c || not (is_print c)

-- The outcome of a function on a string: what it left, or a read before or behind the object.
pub data Cleaned : Type 0 where
  cleaned : Bytes → Cleaned
  out_of_bounds : Cleaned

-- The loop `while (isspace(*p) || !isprint(*p)) ++p;`. The '\0' is not printable, so a string
-- that is blank to its end sends the loop behind the object.
unfoldable pub leading_loop : Bytes → Cleaned
leading_loop [] = out_of_bounds
leading_loop (c ∷ s) = if is_blank c then leading_loop s else cleaned (c ∷ s)

unfoldable pub delete_leading_spaces : Bytes → Cleaned
unfolding leading_loop
delete_leading_spaces [] = cleaned []
delete_leading_spaces (c ∷ s) = leading_loop (c ∷ s)

-- The loop `while ((isspace(*p) || !isprint(*p) || *p == 0) && p >= str) --p;` over the bytes from
-- the last to the first: `*p` is read before `p` is compared, so a string of blanks is read at
-- str[-1]. The bytes that are kept are given from the last to the first.
unfoldable pub trailing_loop : Bytes → Cleaned
trailing_loop [] = out_of_bounds
trailing_loop (c ∷ s) = if is_blank c || c == 0 then trailing_loop s else cleaned (c ∷ s)

backwards : Cleaned → Cleaned
backwards (cleaned s) = cleaned (reverse s)
backwards out_of_bounds = out_of_bounds

unfoldable pub delete_trailing_spaces : Bytes → Cleaned
unfolding trailing_loop backwards
delete_trailing_spaces [] = cleaned []
delete_trailing_spaces (c ∷ s) = backwards (trailing_loop (reverse (c ∷ s)))

then_leading : Cleaned → Cleaned
then_leading (cleaned s) = delete_leading_spaces s
then_leading out_of_bounds = out_of_bounds

unfoldable pub trim : Bytes → Cleaned
unfolding then_leading
trim s = then_leading (delete_trailing_spaces s)

-- if (str[len - 1] == c) str[len - 1] = 0;
unfoldable pub cut_last : ℕ → Bytes → Bytes
cut_last c [] = []
cut_last c (b ∷ []) = if b == c then [] else b ∷ []
cut_last c (b ∷ d ∷ s) = b ∷ cut_last c (d ∷ s)

-- if (str[0] == '"') memmove(str, str + 1, len);
unfoldable pub cut_first : ℕ → Bytes → Bytes
cut_first c [] = []
cut_first c (b ∷ s) = if b == c then s else b ∷ s

unfoldable pub delete_quotes : Option Bytes → Option Bytes
unfolding cut_last cut_first
delete_quotes none = none
delete_quotes (some s) = some (cut_first b'"' (cut_last b'"' s))

unfoldable pub delete_newline_character : Option Bytes → Option Bytes
unfolding cut_last
delete_newline_character none = none
delete_newline_character (some s) = some (cut_last b'\n' s)
