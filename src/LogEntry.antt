-- ===== src/LogEntry.antt =====
-- src/log_entry.h: one record of the write-ahead log and its bytes. `term` is the bit pattern of
-- an `int`, `index` and the length are `uint64_t`; the host is little-endian. That `resize` can
-- fail for want of memory is not modelled.
pub mod RoundTrip
mod Examples
use kv_store_project.Prelude.{ℕ, ◌++◌, Option, some, length}
use kv_store_project.Prelude.Text.{Bytes}
use kv_store_project.Prelude.Words.{le_bytes, read, read_word, ◌>>=◌}

pub record LogEntry : Type 0 where
  pub term : ℕ
  pub index : ℕ
  pub command : Bytes

unfoldable pub to_binary : LogEntry → Bytes
to_binary e =
    le_bytes 4 e.term ++ (le_bytes 8 e.index ++ (le_bytes 8 (length e.command) ++ e.command))

-- `none` where a read comes short; otherwise the entry and the rest of the stream.
unfoldable pub from_binary : Bytes → Option (LogEntry × Bytes)
from_binary is = do
  (term, is) ← read_word 4 is
  (index, is) ← read_word 8 is
  (size, is) ← read_word 8 is
  (command, is) ← read size is
  some (record { term = term; index = index; command = command }, is)
