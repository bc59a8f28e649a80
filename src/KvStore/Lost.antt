-- ===== src/KvStore/Lost.antt =====
-- What the store loses that is written after a crash in the middle of an append.
use kv_store_project.Prelude.{
  ℕ, ◌+◌, ◌<◌, ◌≡◌, refl, sym, ap, List, [], ◌∷◌, ◌++◌, ◌∙◌, Option, append_assoc, append-nil, some,
  length, length-append, arith,
}
use kv_store_project.Prelude.Text.{Bytes}
use kv_store_project.LogEntry.{to_binary}
use kv_store_project.Wal.{Wal, open_wal, append_entry, next_entry, contents}
use kv_store_project.Wal.Recovery.{Fits}
use kv_store_project.Wal.Lost.{cut_short, open_wal-cut_short, length-to_binary}
use kv_store_project.KvStore.{KvStore, construct, put, remove}
use kv_store_project.KvStore.Recovery.{Op, writes, removes, command_of, apply, run, IsDurable}

-- The bytes that some operations write to the log.
abbrev pub logged : List Op → ℕ
logged [] = 0
logged (o ∷ os) = 20 + length (command_of o) + logged os

apply-file :
    (o : Op) (s : KvStore)
    → (apply o s).write_ahead_log.file
      ≡ some (
          contents s.write_ahead_log.file
          ++ to_binary (next_entry s.write_ahead_log (command_of o)))
unfolding apply put remove append_entry
apply-file (writes key value) s = refl
apply-file (removes key) s = refl

length-next_entry : (w : Wal) (c : Bytes) → length (to_binary (next_entry w c)) ≡ 20 + length c
unfolding next_entry
length-next_entry w c = length-to_binary (next_entry w c)

-- Operations append to the file what they log, and nothing else.
run-file :
    (os : List Op) (s : KvStore) (bytes : Bytes)
    → s.write_ahead_log.file ≡ some bytes
    → (rest : Bytes) × ((run os s).write_ahead_log.file ≡ some (bytes ++ rest))
      × (length rest ≡ logged os)
unfolding run
run-file [] s bytes e = ([], rw append-nil e, refl)
run-file (o ∷ os) s bytes e =
    let record_bytes = to_binary (next_entry s.write_ahead_log (command_of o)) in
    let first : (apply o s).write_ahead_log.file ≡ some (bytes ++ record_bytes) =
      apply-file o s ∙ ap (λ (f : Option Bytes). some (contents f ++ record_bytes)) e in
    let (rest, file, size) = run-file os (apply o s) (bytes ++ record_bytes) first in
    (
      record_bytes ++ rest,
      rw append_assoc at file,
      rw length-append (omega (arith, size, length-next_entry s.write_ahead_log (command_of o))),
    )

-- Operations on a store that was constructed after a crash are lost at the next start, as long as
-- what they log is shorter than what the crash has cut off: the map is the one from before the
-- crash. The crash has left the header of a record and `n` bytes of its command; the store was
-- durable before it, and the record fits its counter and its length.
pub construct_lost :
    (s : KvStore) (command : Bytes) (os : List Op) (n : ℕ)
    → IsDurable s
    → Fits s.write_ahead_log command
    → n + logged os < length command
    → (construct
        (run os (construct (some (cut_short n command s.write_ahead_log)))).write_ahead_log.file).mp
      ≡ s.mp
unfolding construct
construct_lost s command os n d f room =
    let torn = cut_short n command s.write_ahead_log in
    let (rest, file, size) = run-file os (construct (some torn)) torn (unfold open_wal in refl) in
    rw
      (
        file,
        open_wal-cut_short s.write_ahead_log command rest n d.log f (omega (arith, size, room)),
      )
      (sym d.state)
