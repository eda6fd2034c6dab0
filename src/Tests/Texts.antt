-- ===== src/Tests/Texts.antt =====
-- Tests of the functions on texts.
use cc_dey.Base.{◌≡◌, ◌≢◌, refl, [], ◌++◌, Bytes, codes, All, inl, inr}
use mathlib.Core.List.{reverse}
use cc_dey.Text.{is_blank, is_space, is_print, cleaned, out_of_bounds, trim}
use cc_dey.Text.Trim.{Blank, StartsClean, trim_lem, trim-Blank}

abbrev padded : Bytes
padded = codes " \ta b\n"

trim_lem_example :
    (before kept after : Bytes) × (trim padded ≡ cleaned kept)
    × (padded ≡ before ++ (kept ++ after))
    × All Blank before
    × All Blank after
    × StartsClean kept
    × StartsClean (reverse kept)
    × (kept ≢ [])
unfolding is_blank is_space is_print
trim_lem_example = trim_lem padded (inr (inr (inl refl)))

trim-Blank_example : trim (codes " \t ") ≡ out_of_bounds
unfolding is_blank is_space is_print
trim-Blank_example = trim-Blank 0x20 (codes "\t ") (refl, (refl, (refl, tt)))
