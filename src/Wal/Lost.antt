-- ===== src/Wal/Lost.antt =====
-- What a log loses that is appended to behind a record that a crash cut short: the constructor
-- leaves the torn bytes in the file, and appendEntry opens the file to append.
use kv_store_project.Prelude.{
  ℕ, suc, ◌+◌, ◌<◌, ◌≡◌, ap, List, [], ◌∷◌, ◌++◌, append_assoc, none, some, length, length-append,
  take, length-take, arith, Option-cases, inl, inr,
}
use kv_store_project.Prelude.Text.{Bytes}
use kv_store_project.Prelude.Words.{
  read, le_bytes, read_word-le_bytes, length-read, length-le_bytes,
}
use kv_store_project.LogEntry.{LogEntry, to_binary, from_binary}
use kv_store_project.LogEntry.RoundTrip.{IsEncodable}
use kv_store_project.Wal.{Wal, open_wal, contents, next_entry}
use kv_store_project.Wal.Recovery.{IsSynced, IsTail, Fits, open_wal-to_file, next_entry-IsEncodable}

read_short : (n : ℕ) (s : Bytes) → length s < n → read n s ≡ none
read_short n s h = elim (Option-cases (read n s)) [
  | inl e ↦ e
  | inr ((a, r), e) ↦ absurd (omega (arith, length-read n s a r e))
]

-- The term, the index and the length of the command: the first twenty bytes of a record.
abbrev header : LogEntry → Bytes
header e = le_bytes 4 e.term ++ (le_bytes 8 e.index ++ le_bytes 8 (length e.command))

to_binary-header : (e : LogEntry) → to_binary e ≡ header e ++ e.command
unfolding to_binary
to_binary-header e = rw (append_assoc, append_assoc)

length-header : (e : LogEntry) → length (header e) ≡ 20
length-header e = rw (
  length-append,
  length-append,
  length-le_bytes 4 e.term,
  length-le_bytes 8 e.index,
  length-le_bytes 8 (length e.command),
)

pub length-to_binary : (e : LogEntry) → length (to_binary e) ≡ 20 + length e.command
length-to_binary e = rw (to_binary-header, length-append, length-header)

-- A header with fewer bytes behind it than it announces is no record.
header-IsTail :
    (e : LogEntry) (rest : Bytes)
    → IsEncodable e
    → length rest < length e.command
    → IsTail (header e ++ rest)
unfolding from_binary
header-IsTail e rest h short = rw (
  append_assoc,
  append_assoc,
  read_word-le_bytes 4 e.term _ h.term,
  read_word-le_bytes 8 e.index _ h.index,
  read_word-le_bytes 8 (length e.command) _ h.size,
  read_short (length e.command) rest short,
)

take-append_beyond {ℓ} :
    {A : Type ℓ} (xs ys : List A) (n : ℕ) → take (length xs + n) (xs ++ ys) ≡ xs ++ take n ys
take-append_beyond [] ys n = let e : 0 + n ≡ n = omega arith in rw e
take-append_beyond {A = A} (x ∷ xs) ys n =
    let e : suc (length xs) + n ≡ suc (length xs + n) = omega arith in
    rw (e, take) (ap (λ (l : List A). x ∷ l) (take-append_beyond xs ys n))

-- The file after a crash in the middle of an append: the header of the record is there and `n`
-- bytes of its command.
abbrev pub cut_short : ℕ → Bytes → Wal → Bytes
cut_short n command w = contents w.file ++ take (20 + n) (to_binary (next_entry w command))

cut_short-header :
    (n : ℕ) (command : Bytes) (w : Wal)
    → cut_short n command w ≡ contents w.file ++ (header (next_entry w command) ++ take n command)
unfolding next_entry
cut_short-header n command w =
    let e = next_entry w command in
    ap (λ (l : Bytes). contents w.file ++ l)
      (rw to_binary-header (rw (length-header e) at (take-append_beyond (header e) e.command n)))

-- Opening a file that was cut short and appended to since then.
pub open_wal-cut_short :
    (w : Wal) (command rest : Bytes) (n : ℕ)
    → IsSynced w
    → Fits w command
    → n + length rest < length command
    → (open_wal (some (cut_short n command w ++ rest))).cached_entries ≡ w.cached_entries
open_wal-cut_short w command rest n s f room =
    let tail =
      header-IsTail (next_entry w command) (take n command ++ rest)
        (next_entry-IsEncodable w command f)
        (rw (length-append, length-take) (unfold next_entry in omega (arith, room))) in
    rw (
      cut_short-header,
      s.on_disk,
      append_assoc,
      append_assoc,
      open_wal-to_file w.cached_entries _ s.encodable tail,
    )
