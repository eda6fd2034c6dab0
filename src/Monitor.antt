-- ===== src/Monitor.antt =====
-- library/src/cc_system_monitor.c: the matcher that picks the metrics to read.
pub mod Sound
pub mod Plain
pub mod Ends
pub mod Samples
use cc_dey.Base.{
  ℕ, zero, suc, Bool, true, false, Option, none, some, [], ◌∷◌, Bytes, ◌==◌, if◌then◌else◌,
}

-- The variables of value_matches_wildcard_pattern. A string is the list of its bytes before the
-- '\0', and a pointer into it what stands from there on; `none` is a NULL pointer.
pub record Scan : Type 0 where
  pub value : Bytes
  pub pattern : Bytes
  pub wildcard : Bool
  pub last_pattern_start : Option Bytes
  pub last_value_start : Option Bytes

abbrev pub any : ℕ
any = b'*'

abbrev pub one : ℕ
one = b'?'

-- What the function comes to: its result, or a read through NULL, or one behind a string.
pub data Match : Type 0 where
  result : Bool → Match
  null_read past_end : Match

-- One turn of the loop body: a return, or the condition of the loop is next, with `value` there.
pub data Pass : Type 0 where
  returns : Bool → Pass
  goes_on : Scan → Pass
  value_null value_past : Pass

unfoldable pub is_empty : Bytes → Bool
is_empty [] = true
is_empty (c ∷ s) = false

-- The character is taken.
unfoldable pub take_character : Scan → Bytes → Bytes → Pass
take_character s value pattern = goes_on (record s {
  value = value;
  pattern = pattern;
  wildcard = false;
  last_value_start = if s.wildcard then some value else s.last_value_start;
})

unfoldable pub star : Scan → Bytes → Pass
unfolding is_empty
star s pattern =
    if is_empty pattern
    then returns true
    else goes_on
        (record s { pattern = pattern; wildcard = true; last_pattern_start = some (any ∷ pattern) })

-- The mask is tried again on the rest, behind a '*'.
unfoldable pub restart_at : Scan → Option Bytes → Option Bytes → Pass
restart_at s none value = returns false
restart_at s (some pattern) none = value_null
restart_at s (some pattern) (some value) =
    goes_on (record s { value = value; pattern = pattern; last_value_start = none })

-- A character that is not taken, with what stands behind it in `value`.
unfoldable pub mismatch : Scan → Pass → Pass
unfolding restart_at
mismatch s skipped =
    if s.wildcard then skipped else restart_at s s.last_pattern_start s.last_value_start

unfoldable pub pass : Scan → Bytes → Bytes → Pass
unfolding take_character star mismatch
pass s [] [] = value_past
pass s [] (p ∷ ps) =
    if p == one then returns false else if p == any then star s ps else mismatch s value_past
pass s (v ∷ vs) [] = mismatch s (goes_on (record s { value = vs }))
pass s (v ∷ vs) (p ∷ ps) =
    if p == v
    then take_character s vs ps
    else if p == one
    then take_character s vs ps
    else if p == any
    then star s ps
    else mismatch s (goes_on (record s { value = vs }))

-- The loop; `none` means that it is still running.
unfoldable pub match_loop : ℕ → Scan → Option Match
unfolding pass is_empty
match_loop zero s = none
match_loop (suc fuel) s = elim (pass s s.value s.pattern) [
  | returns b ↦ some (result b)
  | value_null ↦ some null_read
  | value_past ↦ some past_end
  | goes_on s' ↦
      let rest = match_loop fuel s' in
      if is_empty s'.value then some (result (is_empty s'.pattern)) else rest
]

unfoldable pub value_matches_wildcard_pattern : ℕ → Bytes → Bytes → Option Match
unfolding match_loop
value_matches_wildcard_pattern fuel value pattern = match_loop fuel (record {
  value = value;
  pattern = pattern;
  wildcard = false;
  last_pattern_start = none;
  last_value_start = none;
})
