-- ===== src/LogEntry/RoundTrip.antt =====
-- Reading back what was written, and records that are cut short.
use kv_store_project.Prelude.{
  ℕ, ◌+◌, ◌^◌, ◌≤◌, ◌<◌, ◌≡◌, ◌≢◌, ◌++◌, [], ◌∷◌, none, some, length, append_assoc, append-nil,
  arith, Option-cases, inl, inr,
}
use kv_store_project.Prelude.Text.{Bytes}
use kv_store_project.Prelude.Words.{
  read, read_word, read_word-le_bytes, read-append, read-more, read_word-more, length-read,
  length-read_word,
}
use kv_store_project.LogEntry.{LogEntry, to_binary, from_binary}

-- The fields fit their C++ types.
pub record IsEncodable (e : LogEntry) : Type 0 where
  pub term : e.term < 2 ^ 32
  pub index : e.index < 2 ^ 64
  pub size : length e.command < 2 ^ 64

-- An entry whose fields fit their types is read back as it was written, and what follows it is
-- left.
pub from_binary-to_binary :
    (e : LogEntry) (rest : Bytes)
    → IsEncodable e
    → from_binary (to_binary e ++ rest) ≡ some (e, rest)
unfolding from_binary to_binary
from_binary-to_binary e rest h = rw (
  append_assoc,
  append_assoc,
  append_assoc,
  read_word-le_bytes 4 e.term _ h.term,
  read_word-le_bytes 8 e.index _ h.index,
  read_word-le_bytes 8 (length e.command) _ h.size,
  read-append e.command rest,
)

-- The four reads of a successful parse.
record Parse (s : Bytes) (e : LogEntry) (r : Bytes) : Type 0 where
  rest1 : Bytes
  rest2 : Bytes
  size : ℕ
  rest3 : Bytes
  term : read_word 4 s ≡ some (e.term, rest1)
  index : read_word 8 rest1 ≡ some (e.index, rest2)
  length_field : read_word 8 rest2 ≡ some (size, rest3)
  command : read size rest3 ≡ some (e.command, r)

from_binary-Parse :
    (s : Bytes) (e : LogEntry) (r : Bytes) → from_binary s ≡ some (e, r) → Parse s e r
unfolding from_binary
from_binary-Parse s e r h = elim (Option-cases (read_word 4 s)) [
  | inl a ↦ absurd (ground arith)
  | inr ((term, s1), a) ↦ elim (Option-cases (read_word 8 s1)) [
    | inl b ↦ absurd (ground arith)
    | inr ((index, s2), b) ↦ elim (Option-cases (read_word 8 s2)) [
      | inl c ↦ absurd (ground arith)
      | inr ((size, s3), c) ↦ elim (Option-cases (read size s3)) [
        | inl d ↦ absurd (ground arith)
        | inr ((command, s4), d) ↦ record {
          rest1 = s1;
          rest2 = s2;
          size = size;
          rest3 = s3;
          term = ground arith;
          index = ground arith;
          length_field = c;
          command = ground arith;
        }
      ]
    ]
  ]
]

Parse-from_binary :
    (s : Bytes) (e : LogEntry) (r : Bytes) → Parse s e r → from_binary s ≡ some (e, r)
unfolding from_binary
Parse-from_binary s e r p = rw (p.term, p.index, p.length_field, p.command)

-- A parse that succeeds does the same with more bytes behind.
from_binary-more :
    (s t : Bytes) (e : LogEntry) (r : Bytes)
    → from_binary s ≡ some (e, r)
    → from_binary (s ++ t) ≡ some (e, r ++ t)
from_binary-more s t e r h =
    let p = from_binary-Parse s e r h in
    Parse-from_binary (s ++ t) e (r ++ t) (record {
      rest1 = p.rest1 ++ t;
      rest2 = p.rest2 ++ t;
      size = p.size;
      rest3 = p.rest3 ++ t;
      term = read_word-more 4 s t _ _ p.term;
      index = read_word-more 8 p.rest1 t _ _ p.index;
      length_field = read_word-more 8 p.rest2 t _ _ p.length_field;
      command = read-more p.size p.rest3 t _ _ p.command;
    })

-- A parse takes twenty bytes at least.
pub from_binary-shorter :
    (s : Bytes) (e : LogEntry) (r : Bytes) → from_binary s ≡ some (e, r) → length r + 20 ≤ length s
from_binary-shorter s e r h =
    let p = from_binary-Parse s e r h in
    omega (
      arith,
      length-read_word 4 s _ _ p.term,
      length-read_word 8 p.rest1 _ _ p.index,
      length-read_word 8 p.rest2 _ _ p.length_field,
      length-read p.size p.rest3 _ _ p.command,
    )

append-nil_right : (r more : Bytes) → r ++ more ≡ [] → more ≡ []
append-nil_right [] more h = h
append-nil_right (x ∷ r) more h = cc

-- A record that was cut short by a crash is not read: its parse fails. The fields of the entry fit
-- their types.
pub from_binary_torn :
    (e : LogEntry) (torn more : Bytes)
    → IsEncodable e
    → to_binary e ≡ torn ++ more
    → more ≢ []
    → from_binary torn ≡ none
from_binary_torn e torn more h cut left = elim (Option-cases (from_binary torn)) [
  | inl a ↦ a
  | inr ((e', r), a) ↦
      let whole : from_binary (torn ++ more) ≡ some (e, []) =
        rw (append-nil, cut) at (from_binary-to_binary e [] h) in
      let same : r ++ more ≡ [] = cc (whole, from_binary-more torn more e' r a) in
      absurd (left (append-nil_right r more same))
]
