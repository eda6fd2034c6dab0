-- ===== src/Monitor/Plain.antt =====
-- Patterns without '*'.
use cc_dey.Base.{
  ℕ, suc, ◌≡◌, ◌≢◌, refl, Bool, true, false, ◌&&◌, ◌||◌, none, some, [], ◌∷◌, ◌++◌, Bytes, length,
  All, ◌==◌, arith,
}
use cc_dey.Monitor.{
  Scan, any, one, result, is_empty, take_character, restart_at, mismatch, pass, match_loop,
  value_matches_wildcard_pattern,
}

-- Matching character by character, where '?' stands for any.
unfoldable pub fits : Bytes → Bytes → Bool
fits [] [] = true
fits [] (p ∷ ps) = false
fits (v ∷ vs) [] = false
fits (v ∷ vs) (p ∷ ps) = (p == v || p == one) && fits vs ps

abbrev pub IsPlain : Bytes → Type 0
IsPlain pattern = All (λ p. p ≢ any) pattern

-- The variables when no '*' has been met.
abbrev plain : Bytes → Bytes → Scan
plain value pattern = record {
  value = value;
  pattern = pattern;
  wildcard = false;
  last_pattern_start = none;
  last_value_start = none;
}

plain_loop :
    (v : ℕ) (vs pattern : Bytes)
    → IsPlain pattern
    → match_loop (suc (length vs)) (plain (v ∷ vs) pattern) ≡ some (result (fits (v ∷ vs) pattern))
unfolding match_loop pass mismatch restart_at fits take_character is_empty
plain_loop v vs [] h = refl
plain_loop v [] (p ∷ []) (h, hs) = ground arith
plain_loop v [] (p ∷ q ∷ ps) (h, hs) = ground arith
plain_loop v (w ∷ vs) (p ∷ ps) (h, hs) = ground (arith, plain_loop w vs ps hs)

-- A pattern without '*' matches a value that is not empty if and only if it does so character by
-- character, a '?' standing for any one; the loop takes at most a turn for each character of the
-- value.
pub value_matches_wildcard_pattern-fits :
    (value pattern : Bytes)
    → value ≢ []
    → IsPlain pattern
    → value_matches_wildcard_pattern (length value) value pattern
      ≡ some (result (fits value pattern))
unfolding value_matches_wildcard_pattern
value_matches_wildcard_pattern-fits [] pattern full h = absurd (full refl)
value_matches_wildcard_pattern-fits (v ∷ vs) pattern full h = plain_loop v vs pattern h

starred_loop :
    (v : ℕ) (vs pattern : Bytes)
    → IsPlain pattern
    → fits (v ∷ vs) pattern ≡ true
    → match_loop (suc (length vs)) (plain (v ∷ vs) (pattern ++ any ∷ [])) ≡ some (result false)
unfolding match_loop pass fits take_character is_empty
starred_loop v vs [] h e = ground arith
starred_loop v [] (p ∷ []) (h, hs) e = ground arith
starred_loop v [] (p ∷ q ∷ ps) (h, hs) e = ground arith
starred_loop v (w ∷ vs) (p ∷ ps) (h, hs) e = ground (arith, starred_loop w vs ps hs)

-- A '*' at the end of a pattern does not stand for nothing: a value that matches what is in front
-- of it does not match the whole.
pub value_matches_wildcard_pattern-trailing :
    (value pattern : Bytes)
    → value ≢ []
    → IsPlain pattern
    → fits value pattern ≡ true
    → value_matches_wildcard_pattern (length value) value (pattern ++ any ∷ [])
      ≡ some (result false)
unfolding value_matches_wildcard_pattern
value_matches_wildcard_pattern-trailing [] pattern full h e = absurd (full refl)
value_matches_wildcard_pattern-trailing (v ∷ vs) pattern full h e = starred_loop v vs pattern h e
