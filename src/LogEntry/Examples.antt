-- ===== src/LogEntry/Examples.antt =====
-- The codec of log entries at a concrete entry.
use kv_store_project.Prelude.{◌++◌, ◌≡◌, refl, [], ◌∷◌, some, arith}
use kv_store_project.Prelude.Text.{codes}
use kv_store_project.Prelude.Words.{le_bytes}
use kv_store_project.LogEntry.{LogEntry, to_binary, from_binary}
use kv_store_project.LogEntry.RoundTrip.{IsEncodable, from_binary-to_binary}

abbrev sample : LogEntry
sample = record { term = 1; index = 300; command = codes "PUT a=1" }

sample-bytes :
    to_binary sample
    ≡ 1
      ∷ 0
      ∷ 0
      ∷ 0
      ∷ 44
      ∷ 1
      ∷ 0
      ∷ 0
      ∷ 0
      ∷ 0
      ∷ 0
      ∷ 0
      ∷ 7
      ∷ 0
      ∷ 0
      ∷ 0
      ∷ 0
      ∷ 0
      ∷ 0
      ∷ 0
      ∷ codes "PUT a=1"
unfolding to_binary le_bytes
sample-bytes = refl

sample-IsEncodable : IsEncodable sample
sample-IsEncodable = record { term = omega arith; index = omega arith; size = omega arith }

sample-read : from_binary (to_binary sample ++ 7 ∷ []) ≡ some (sample, 7 ∷ [])
sample-read = from_binary-to_binary sample (7 ∷ []) sample-IsEncodable
