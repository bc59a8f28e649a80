-- ===== src/Wal/Examples.antt =====
-- The theorems on the write-ahead log at a log of one entry.
use kv_store_project.Prelude.{
  ◌++◌, ◌≡◌, ◌≢◌, refl, sym, true, [], none, some, take, drop, take-append-drop, arith,
}
use kv_store_project.Prelude.Text.{Bytes, codes}
use kv_store_project.Prelude.Words.{le_bytes}
use kv_store_project.LogEntry.{to_binary}
use kv_store_project.Wal.{Wal, open_wal, contents, next_entry, append_entry, to_file, last_index_of}
use kv_store_project.Wal.Recovery.{IsSynced, Fits, open_wal_torn, append_entry-IsSynced}

abbrev empty_wal : Wal
empty_wal = record { file = none; cached_entries = []; last_index = 0 }

empty_wal-IsSynced : IsSynced empty_wal
unfolding to_file last_index_of
empty_wal-IsSynced = record { on_disk = refl; encodable = tt; counter = refl }

abbrev one_entry : Wal
one_entry = append_entry true (codes "PUT a=1") empty_wal

one_entry-IsSynced : IsSynced one_entry
one_entry-IsSynced =
    append_entry-IsSynced empty_wal (codes "PUT a=1") empty_wal-IsSynced
      (record { index = omega arith; size = omega arith })

one_entry-Fits : Fits one_entry (codes "PUT b=2")
unfolding append_entry
one_entry-Fits = record { index = omega arith; size = omega arith }

abbrev whole : Bytes
whole = to_binary (next_entry one_entry (codes "PUT b=2"))

left_over : drop 21 whole ≢ []
unfolding to_binary le_bytes append_entry next_entry
left_over = λ h. absurd (cc h)

open_wal_torn_example :
    (open_wal (some (contents one_entry.file ++ take 21 whole))).cached_entries
      ≡ one_entry.cached_entries
    × ((open_wal (some (contents one_entry.file ++ take 21 whole))).last_index
        ≡ one_entry.last_index)
open_wal_torn_example =
    open_wal_torn one_entry (codes "PUT b=2") (take 21 whole) (drop 21 whole) one_entry-IsSynced
      one_entry-Fits (sym (take-append-drop 21 whole)) left_over
