-- ===== src/Tests/Collections.antt =====
-- Runs of the sending of a collection.
use cc_dey.Base.{ℕ, ◌≡◌, ◌≢◌, refl, true, false, none, some, [], ◌∷◌, ◌⊎◌, arith}
use cc_dey.CommError
use cc_dey.Csv.Point.{Stream}
use cc_dey.Csv.Generator.Sheet.{sheet, AllFit}
use cc_dey.Collection.{Collection, returned, code_only, is_settled, dp_send_collection}
use cc_dey.Collection.Taken.{count_points}
use cc_dey.Collection.Request.{send_dp_data-unconnected}
use cc_dey.Collection.Sent.{
  sent_count, Sent, some_text, dp_send_collection-Sent, dp_send_collection-unconnected,
  dp_send_collection-stuck,
}
use cc_dey.Tests.Sheets.{half_millionths, temperature, pressure, scratch}

fits : AllFit half_millionths (sheet half_millionths (pressure ∷ []) temperature temperature.points)
unfolding sheet
fits = ((omega arith, omega arith, omega arith), ((tt, tt, tt), ((tt, tt, tt), tt)))

abbrev never_full : (n : ℕ) → true ≡ true
never_full n = refl

-- A stream whose points are used up.
abbrev dry : Stream half_millionths
dry = record temperature { points = [] }

dp_send_collection-stuck_example :
    dp_send_collection half_millionths 6000 1
      (λ n. true)
      scratch
      7
      true
      true
      (some (record { streams = dry ∷ (pressure ∷ []); dp_count = 1 }))
      0
      none
    ≡ returned CommError.invalid_argument
        (code_only half_millionths CommError.invalid_argument)
        (record { streams = dry ∷ (pressure ∷ []); dp_count = 1 })
dp_send_collection-stuck_example =
    dp_send_collection-stuck half_millionths 6000 0 (λ n. true) never_full scratch dry
      (pressure ∷ []) 1 (omega arith) refl (omega arith) 7 0 none

dp_send_collection-unconnected_example :
    (left : Collection half_millionths) × (dp_send_collection half_millionths 6000 1
        (λ n. true)
        scratch
        7
        true
        true
        (some (record { streams = temperature ∷ (pressure ∷ []); dp_count = 3 }))
        0
        none
      ≡ returned CommError.unable_to_connect (code_only half_millionths 0) left)
    × Sent half_millionths 6000 0 (λ n. true) never_full scratch temperature (pressure ∷ []) 3 left
    × (sent_count half_millionths 6000 0
          (λ n. true)
          never_full
          scratch
          temperature
          (pressure ∷ [])
          3
        ≢ 0)
unfolding count_points
dp_send_collection-unconnected_example =
    dp_send_collection-unconnected half_millionths 6000 0 (λ n. true) never_full scratch temperature
      (pressure ∷ []) 3 refl (omega arith) (ground arith) (omega arith) fits 7 0

dp_send_collection-Sent_example :
    (left : Collection half_millionths) × (dp_send_collection half_millionths 6000 1
        (λ n. true)
        scratch
        7
        true
        true
        (some (record { streams = temperature ∷ (pressure ∷ []); dp_count = 3 }))
        0
        none
      ≡ returned CommError.unable_to_connect (code_only half_millionths 0) left)
    × (((is_settled half_millionths CommError.unable_to_connect (code_only half_millionths 0)
            ≡ true)
          × Sent half_millionths 6000 0
              (λ n. true)
              never_full
              scratch
              temperature
              (pressure ∷ [])
              3
              left)
        ⊎ ((is_settled half_millionths CommError.unable_to_connect (code_only half_millionths 0)
              ≡ false)
            × (left ≡ record { streams = temperature ∷ (pressure ∷ []); dp_count = 3 })))
unfolding count_points
dp_send_collection-Sent_example =
    dp_send_collection-Sent half_millionths 6000 0 (λ n. true) never_full scratch temperature
      (pressure ∷ []) 3 refl (omega arith) (ground arith) (omega arith) fits 7 0
      CommError.unable_to_connect (code_only half_millionths 0) none
      (send_dp_data-unconnected half_millionths _ 0 (
        some_text half_millionths 6000 0 (λ n. true) never_full scratch temperature (pressure ∷ [])
          3 (omega arith) (ground arith)))
