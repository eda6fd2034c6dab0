-- ===== src/Monitor/Samples/Lossless.antt =====
-- Samples that the cloud refuses with a code after which data are kept, where there is a backlog
-- with a limit: they are in the backlog, or still in the collection.
use cc_dey.Base.{ℕ, ◌≡◌, Bool, true, List, Bytes}
use cc_dey.Csv.Number.{Floats}
use cc_dey.Csv.Point.{Stream}
use cc_dey.Csv.Generator.Fields.{Scratch}
use cc_dey.Collection.{Collection}
use cc_dey.Collection.Sent.{collection, text, sent_count, Sent}

module _ (floats : Floats) (fuel spin : ℕ) (alloc : ℕ → Bool) (room : (n : ℕ) → alloc n ≡ true)
    (g : Scratch) (s : Stream floats) (later : List (Stream floats)) (count : ℕ) where
  abbrev samples : Collection floats
  samples = collection floats fuel spin alloc room g s later count

  abbrev csv_text : Bytes
  csv_text = text floats fuel spin alloc room g s later count

  abbrev n_dp : ℕ
  n_dp = sent_count floats fuel spin alloc room g s later count
