-- ===== src/KvStore/Recovery.antt =====
-- The store that is built again from the log after a stop or a crash.
use kv_store_project.Prelude.{
  ◌+◌, ◌^◌, ◌<◌, ◌≡◌, ◌≢◌, refl, ap, true, List, [], ◌∷◌, ◌++◌, append_assoc, none, All, length,
  arith,
}
use kv_store_project.Prelude.Text.{Bytes, bytes_eq, break_at, break_at-append, Lacks}
use kv_store_project.Prelude.Map
use kv_store_project.Prelude.Map.{Map}
use kv_store_project.LogEntry.{LogEntry}
use kv_store_project.Wal
use kv_store_project.Wal.{Wal, open_wal, append_entry, next_entry, contents}
use kv_store_project.Wal.Recovery.{IsSynced, Fits, append_entry-IsSynced, open_wal-IsSynced}
use kv_store_project.KvStore.{
  KvStore, replay_parts, replay_command, replay, construct, put_command, delete_command, put,
  remove,
}

-- A text that breaks at the first `=` is replayed as the write of what stands before it.
replay_put :
    (key value : Bytes) (mp : Map Bytes)
    → key ≢ []
    → Lacks b'=' key
    → replay_command (put_command key value) mp ≡ Map.insert key value mp
unfolding replay_command replay_parts break_at bytes_eq
replay_put [] value mp h l = absurd (h refl)
replay_put (k ∷ key) value mp h l = rw (break_at-append b'=' (k ∷ key) value l)

replay_delete :
    (key : Bytes) (mp : Map Bytes)
    → key ≢ []
    → replay_command (delete_command key) mp ≡ Map.erase key mp
unfolding replay_command replay_parts break_at bytes_eq
replay_delete [] mp h = absurd (h refl)
replay_delete (k ∷ key) mp h = refl

replay-append :
    (mp : Map Bytes) (es : List LogEntry) (e : LogEntry)
    → replay mp (es ++ e ∷ []) ≡ replay_command e.command (replay mp es)
unfolding replay
replay-append mp [] e = refl
replay-append mp (x ∷ es) e = replay-append (replay_command x.command mp) es e

-- The log is in step with its file, and replaying it gives the map.
pub record IsDurable (s : KvStore) : Type 0 where
  pub log : IsSynced s.write_ahead_log
  pub state : s.mp ≡ replay [] s.write_ahead_log.cached_entries

-- What opening the store does with a log that opens as `entries` and `counter`.
construct-IsSynced : (s : KvStore) → IsDurable s → construct s.write_ahead_log.file ≡ s
unfolding construct
construct-IsSynced s d =
    let same = open_wal-IsSynced s.write_ahead_log d.log in
    ground (arith, same, d.state, ap (λ (w : Wal). replay [] w.cached_entries) same)

replay-append_entry :
    (w : Wal) (command : Bytes)
    → replay [] (append_entry true command w).cached_entries
      ≡ replay_command command (replay [] w.cached_entries)
unfolding append_entry next_entry
replay-append_entry w command = replay-append [] w.cached_entries (next_entry w command)

-- A command of the store, with a key that the log can carry: not empty, and for a write without
-- the character that ends the key in the log.
pub data Op : Type 0 where
  writes : Bytes → Bytes → Op
  removes : Bytes → Op

abbrev pub CanReplay : Op → Type 0
CanReplay (writes key value) = (key ≢ []) × Lacks b'=' key
CanReplay (removes key) = key ≢ []

abbrev pub command_of : Op → Bytes
command_of (writes key value) = put_command key value
command_of (removes key) = delete_command key

unfoldable pub apply : Op → KvStore → KvStore
apply (writes key value) s = put true key value s
apply (removes key) s = (remove true key s).0

apply-IsDurable :
    (o : Op) (s : KvStore)
    → CanReplay o
    → Fits s.write_ahead_log (command_of o)
    → IsDurable s
    → IsDurable (apply o s)
unfolding apply put remove
apply-IsDurable (writes key value) s c f d = record {
  log = append_entry-IsSynced s.write_ahead_log _ d.log f;
  state = rw (
    replay-append_entry s.write_ahead_log (put_command key value),
    replay_put key value _ c.0 c.1,
    d.state,
  );
}
apply-IsDurable (removes key) s c f d = record {
  log = append_entry-IsSynced s.write_ahead_log _ d.log f;
  state =
      rw (
        replay-append_entry s.write_ahead_log (delete_command key),
        replay_delete key _ c,
        d.state,
      );
}

unfoldable pub run : List Op → KvStore → KvStore
run [] s = s
run (o ∷ os) s = run os (apply o s)

abbrev pub IsGood : Op → Type 0
IsGood o = CanReplay o × (length (command_of o) < 2 ^ 64)

last_index-apply :
    (o : Op) (s : KvStore)
    → s.write_ahead_log.last_index + 1 < 2 ^ 64
    → (apply o s).write_ahead_log.last_index ≡ s.write_ahead_log.last_index + 1
unfolding apply put remove append_entry next_entry
last_index-apply (writes key value) s h = omega arith
last_index-apply (removes key) s h = omega arith

run-IsDurable :
    (os : List Op) (s : KvStore)
    → All IsGood os
    → s.write_ahead_log.last_index + length os < 2 ^ 64
    → IsDurable s
    → IsDurable (run os s)
unfolding run
run-IsDurable [] s g room d = d
run-IsDurable (o ∷ os) s g room d =
    let grown = last_index-apply o s (omega arith) in
    run-IsDurable os (apply o s) g.1 (omega (arith, grown))
      (apply-IsDurable o s g.0.0 (record { index = omega arith; size = g.0.1 }) d)

-- A store that is stopped after any operations and constructed again from its file is the same
-- store: the same map, log and counter. The store is durable at the start; each operation has a key
-- that is not empty, and without `=` in a write, and its record reaches the file; the lengths and
-- the counter stay below 2 ^ 64.
pub construct-run :
    (os : List Op) (s : KvStore)
    → IsDurable s
    → All IsGood os
    → s.write_ahead_log.last_index + length os < 2 ^ 64
    → construct (run os s).write_ahead_log.file ≡ run os s
construct-run os s d g room = construct-IsSynced (run os s) (run-IsDurable os s g room d)

replay_put_equals :
    (front back value : Bytes) (mp : Map Bytes)
    → front ≢ []
    → Lacks b'=' front
    → replay_command (put_command (front ++ b'=' ∷ back) value) mp
      ≡ Map.insert front (back ++ b'=' ∷ value) mp
replay_put_equals front back value mp h l =
    rw append_assoc (replay_put front (back ++ b'=' ∷ value) mp h l)

-- A key with `=` in it is not recovered: whatever the durable store, after a write of such a key
-- the rebuilt map holds, under the part of the key before the first `=`, the rest of the key, a `=`
-- and the value. That part is not empty, and the record fits its counter and its length.
pub construct-put_equals :
    (s : KvStore) (front back value : Bytes)
    → IsDurable s
    → Fits s.write_ahead_log (put_command (front ++ b'=' ∷ back) value)
    → front ≢ []
    → Lacks b'=' front
    → (construct (put true (front ++ b'=' ∷ back) value s).write_ahead_log.file).mp
      ≡ Map.insert front (back ++ b'=' ∷ value) s.mp
unfolding put construct
construct-put_equals s front back value d f h l =
    let w = s.write_ahead_log in
    rw (
      open_wal-IsSynced (append_entry true (put_command (front ++ b'=' ∷ back) value) w)
          (append_entry-IsSynced w _ d.log f),
      replay-append_entry w (put_command (front ++ b'=' ∷ back) value),
      replay_put_equals front back value (replay [] w.cached_entries) h l,
      d.state,
    )

-- The store that has no file yet.
pub fresh-IsDurable : IsDurable (construct none)
unfolding construct open_wal replay Wal.to_file Wal.last_index_of
fresh-IsDurable = record {
  log = record { on_disk = refl; encodable = tt; counter = refl };
  state = refl;
}
