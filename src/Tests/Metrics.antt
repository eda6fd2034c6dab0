-- ===== src/Tests/Metrics.antt =====
-- Tests of the matcher of metrics.
use cc_dey.Base.{ℕ, ◌≡◌, ◌≢◌, refl, true, false, some, [], ◌∷◌, ◌++◌, codes, length, arith}
use cc_dey.Monitor.{
  Match, any, result, null_read, past_end, is_empty, value_matches_wildcard_pattern,
}
use cc_dey.Monitor.Plain.{
  fits, IsPlain, value_matches_wildcard_pattern-fits, value_matches_wildcard_pattern-trailing,
}
use cc_dey.Monitor.Ends.{value_matches_wildcard_pattern-Ends}
use cc_dey.Monitor.Sound.{Glob, value_matches_wildcard_pattern-Glob}

found : value_matches_wildcard_pattern 100 (codes "eth0/rx") (codes "eth*/rx") ≡ some (result true)
unfolding value_matches_wildcard_pattern is_empty
found = refl

-- A '*' in the value makes the matcher start again at NULL.
started_at_null : value_matches_wildcard_pattern 100 (codes "b*c") (codes "*b") ≡ some null_read
unfolding value_matches_wildcard_pattern is_empty
started_at_null = refl

nothing_at_all : value_matches_wildcard_pattern 100 [] [] ≡ some past_end
unfolding value_matches_wildcard_pattern is_empty
nothing_at_all = refl

mask-IsPlain : IsPlain (codes "eth?")
mask-IsPlain = (omega arith, (omega arith, (omega arith, (omega arith, tt))))

name_full : codes "eth0" ≢ []
name_full e = ground arith

value_matches_wildcard_pattern-Glob_example : Glob (codes "eth*/rx") (codes "eth0/rx")
value_matches_wildcard_pattern-Glob_example =
    value_matches_wildcard_pattern-Glob 100 (codes "eth0/rx") (codes "eth*/rx") found

value_matches_wildcard_pattern-fits_example :
    value_matches_wildcard_pattern (length (codes "eth0")) (codes "eth0") (codes "eth?")
    ≡ some (result (fits (codes "eth0") (codes "eth?")))
value_matches_wildcard_pattern-fits_example =
    value_matches_wildcard_pattern-fits (codes "eth0") (codes "eth?") name_full mask-IsPlain

value_matches_wildcard_pattern-trailing_example :
    value_matches_wildcard_pattern (length (codes "eth0")) (codes "eth0") (codes "eth?" ++ any ∷ [])
    ≡ some (result false)
unfolding fits
value_matches_wildcard_pattern-trailing_example =
    value_matches_wildcard_pattern-trailing (codes "eth0") (codes "eth?") name_full mask-IsPlain
      refl

value_matches_wildcard_pattern-Ends_example :
    (fuel : ℕ) × (m : Match) × (value_matches_wildcard_pattern fuel (codes "eth0/rx") (codes "*0*x")
      ≡ some m)
value_matches_wildcard_pattern-Ends_example =
    value_matches_wildcard_pattern-Ends (codes "eth0/rx") (codes "*0*x")
