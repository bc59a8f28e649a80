-- ===== src/KvStore.antt =====
-- src/kvstore.h and src/kvstore.cpp: the map and its write-ahead log. The locks are not modelled:
-- each operation is one step.
pub mod Recovery
pub mod Lost
mod Examples
use kv_store_project.Prelude.{
  ℕ, Bool, true, false, List, [], ◌∷◌, ◌++◌, Option, none, some, if◌then◌else◌,
}
use kv_store_project.Prelude.Int.{ℤ}
use kv_store_project.Prelude.Text.{Bytes, is_empty, codes, bytes_eq, break_at}
use kv_store_project.Prelude.Map
use kv_store_project.Prelude.Map.{Map}
use kv_store_project.LogEntry.{LogEntry}
use kv_store_project.Wal
use kv_store_project.Wal.{Wal, open_wal, append_entry, truncate_up_to}

pub record KvStore : Type 0 where
  pub mp : Map Bytes
  pub write_ahead_log : Wal

-- The body of the constructor's loop, behind the first space of the command.
unfoldable pub replay_parts : Bytes → Bytes → Map Bytes → Map Bytes
replay_parts command rest mp =
    if bytes_eq command (codes "PUT")
    then elim (break_at b'=' rest) [
      | none ↦ mp
      | some (key, value) ↦ if is_empty key then mp else Map.insert key value mp
    ]
    else if bytes_eq command (codes "DELETE")
    then (if is_empty rest then mp else Map.erase rest mp)
    else mp

unfoldable pub replay_command : Bytes → Map Bytes → Map Bytes
replay_command command_str mp = elim (break_at b' ' command_str) [
  | none ↦ mp
  | some (command, rest) ↦ replay_parts command rest mp
]

unfoldable pub replay : Map Bytes → List LogEntry → Map Bytes
replay mp [] = mp
replay mp (e ∷ es) = replay (replay_command e.command mp) es

-- KVStore::KVStore(), on the file "walfile.wal"
unfoldable pub construct : Option Bytes → KvStore
construct file =
    let wal = open_wal file in record { mp = replay [] wal.cached_entries; write_ahead_log = wal }

-- "PUT " + key + "=" + value
abbrev pub put_command : Bytes → Bytes → Bytes
put_command key value = codes "PUT " ++ (key ++ b'=' ∷ value)

-- "DELETE " + key
abbrev pub delete_command : Bytes → Bytes
delete_command key = codes "DELETE " ++ key

-- The first argument of the operations says whether the file of the log can be opened.
unfoldable pub put : Bool → Bytes → Bytes → KvStore → KvStore
put can_open key value s = record {
  mp = Map.insert key value s.mp;
  write_ahead_log = append_entry can_open (put_command key value) s.write_ahead_log;
}

unfoldable pub get : Bytes → KvStore → Option Bytes
get key s = Map.lookup key s.mp

-- The answer says whether the key was there.
unfoldable pub remove : Bool → Bytes → KvStore → KvStore × Bool
remove can_open key s = (
  record {
    mp = Map.erase key s.mp;
    write_ahead_log = append_entry can_open (delete_command key) s.write_ahead_log;
  },
  Map.contains key s.mp,
)

-- `none` where the log throws.
unfoldable pub write_ahead_log_truncate : Bool → ℤ → KvStore → Option KvStore
write_ahead_log_truncate can_open i s = elim (truncate_up_to can_open i s.write_ahead_log) [
  | none ↦ none
  | some w ↦ some (record s { write_ahead_log = w })
]

unfoldable pub dump_to_map : KvStore → Map Bytes
dump_to_map s = s.mp

unfoldable pub load_from_map : Map Bytes → KvStore → KvStore
load_from_map state s = record s { mp = state }
