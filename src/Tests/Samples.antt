-- ===== src/Tests/Samples.antt =====
-- A run of the system monitor's sending of 250 points, which the cloud refuses.
use cc_dey.Base.{ℕ, zero, suc, ◌≡◌, refl, true, some, List, [], ◌∷◌, codes}
use cc_dey.Csv.Point.{Point, Stream}
use cc_dey.Collection.{Collection}
use cc_dey.Collection.Sent.{Sent}
use cc_dey.Monitor.Samples.{Config}
use cc_dey.Tests.Sheets.{half_millionths, worded, temperature}
use cc_dey.Tests.Backlogs.{kept}

many : ℕ → List (Point half_millionths)
many zero = []
many (suc n) = worded ∷ many n

abbrev busy : Stream half_millionths
busy = record temperature { points = worded ∷ many 249 }

abbrev refusing : Config
refusing = record {
  data_backlog_path = some (codes "/b");
  data_backlog_kb = 1;
  dp_b = kept;
  send = kept;
  send_data = λ t. 15;
}

abbrev roomy : (n : ℕ) → true ≡ true
roomy n = refl
