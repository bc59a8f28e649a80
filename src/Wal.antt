-- ===== src/Wal.antt =====
-- src/wal.h and src/wal.cpp: the write-ahead log, its file and its cache. The file is the bytes on
-- disk, `none` where there is no file. Whether the file can be opened for writing is an argument.
pub mod Recovery
pub mod Truncation
pub mod Lost
mod Examples
use kv_store_project.Prelude.{
  ℕ, zero, suc, ◌+◌, ◌-◌, ◌%◌, ◌^◌, Bool, true, false, List, [], ◌∷◌, ◌++◌, Option, none, some, ltb,
  length, if◌then◌else◌,
}
use kv_store_project.Prelude.Int.{ℤ, pos, negsuc}
use kv_store_project.Prelude.Text.{Bytes}
use kv_store_project.LogEntry.{LogEntry, to_binary, from_binary}

pub record Wal : Type 0 where
  pub file : Option Bytes
  pub cached_entries : List LogEntry
  pub last_index : ℕ

-- The loop of the constructor: it reads entries until one cannot be read. Each takes twenty bytes
-- at least, so the length of the file is fuel enough.
unfoldable pub load_loop : ℕ → Bytes → List LogEntry
load_loop zero is = []
load_loop (suc fuel) is = elim (from_binary is) [
  | none ↦ []
  | some (entry, rest) ↦ entry ∷ load_loop fuel rest
]

-- `lastIndex` after the entries, from what it was before.
unfoldable pub last_index_of : ℕ → List LogEntry → ℕ
last_index_of i [] = i
last_index_of i (e ∷ es) = last_index_of e.index es

-- WAL::WAL(filename)
unfoldable pub open_wal : Option Bytes → Wal
open_wal none = record { file = none; cached_entries = []; last_index = 0 }
open_wal (some bytes) =
    let entries = load_loop (length bytes) bytes in
    record { file = some bytes; cached_entries = entries; last_index = last_index_of 0 entries }

-- The bytes of a file that may not be there yet.
abbrev pub contents : Option Bytes → Bytes
contents none = []
contents (some bytes) = bytes

-- `{1, ++lastIndex, command}`
unfoldable pub next_entry : Wal → Bytes → LogEntry
next_entry w command = record { term = 1; index = (w.last_index + 1) % 2 ^ 64; command = command }

-- WAL::appendEntry: the entry is cached whether or not the file could be opened.
unfoldable pub append_entry : Bool → Bytes → Wal → Wal
unfolding next_entry
append_entry can_open command w = record {
  file = if can_open then some (contents w.file ++ to_binary (next_entry w command)) else w.file;
  cached_entries = w.cached_entries ++ next_entry w command ∷ [];
  last_index = (next_entry w command).index;
}

-- An `int` converted to `uint64_t`, as the comparison in truncateUpTo converts it.
abbrev pub to_uint64 : ℤ → ℕ
to_uint64 (pos n) = n
to_uint64 (negsuc n) = 2 ^ 64 - (n + 1)

unfoldable pub keep_after : ℕ → List LogEntry → List LogEntry
keep_after i [] = []
keep_after i (e ∷ es) = let rest = keep_after i es in if ltb i e.index then e ∷ rest else rest

unfoldable pub to_file : List LogEntry → Bytes
to_file [] = []
to_file (e ∷ es) = to_binary e ++ to_file es

-- WAL::truncateUpTo: `none` where it throws, and then nothing has changed.
unfoldable pub truncate_up_to : Bool → ℤ → Wal → Option Wal
truncate_up_to can_open last_included_index w =
    let remaining = keep_after (to_uint64 last_included_index) w.cached_entries in
    if can_open
    then some (record {
      file = some (to_file remaining);
      cached_entries = remaining;
      last_index = last_index_of 0 remaining;
    })
    else none
