-- ===== src/Wal/Recovery.antt =====
-- Opening the log again finds what was appended, also behind a record that a crash cut short.
use kv_store_project.Prelude.{
  ℕ, zero, suc, ◌+◌, ◌^◌, ◌≤◌, ◌<◌, ◌≡◌, refl, ◌≢◌, ◌∙◌, sym, ap, true, List, [], ◌∷◌, ◌++◌,
  append-nil, append_assoc, none, some, length, All, arith, Option-cases, inl, inr,
}
use kv_store_project.Prelude.Text.{Bytes}
use kv_store_project.Prelude.Words.{read_word, read, le_bytes}
use kv_store_project.LogEntry.{LogEntry, to_binary, from_binary}
use kv_store_project.LogEntry.RoundTrip.{
  IsEncodable, from_binary-to_binary, from_binary-shorter, from_binary_torn,
}
use kv_store_project.Wal.{
  Wal, load_loop, last_index_of, open_wal, contents, next_entry, append_entry, to_file,
}

-- What a file may end in: bytes that are no whole record.
abbrev pub IsTail : Bytes → Type 0
IsTail tail = from_binary tail ≡ none

from_binary_nil : IsTail []
unfolding from_binary read_word read
from_binary_nil = refl

load_loop-tail : (fuel : ℕ) (tail : Bytes) → IsTail tail → load_loop fuel tail ≡ []
unfolding load_loop
load_loop-tail zero tail h = refl
load_loop-tail (suc fuel) tail h = rw (h, load_loop)

load_loop_step :
    (fuel : ℕ) (is rest : Bytes) (e : LogEntry)
    → from_binary is ≡ some (e, rest)
    → load_loop (suc fuel) is ≡ e ∷ load_loop fuel rest
unfolding load_loop
load_loop_step fuel is rest e h = rw (h, load_loop)

first_record :
    (e : LogEntry) (es : List LogEntry) (tail : Bytes)
    → IsEncodable e
    → from_binary (to_file (e ∷ es) ++ tail) ≡ some (e, to_file es ++ tail)
unfolding to_file
first_record e es tail h = rw append_assoc (from_binary-to_binary e (to_file es ++ tail) h)

-- With fuel for its length, a file of records with a tail is read as its records.
load_loop-to_file :
    (es : List LogEntry) (fuel : ℕ) (tail : Bytes)
    → All IsEncodable es
    → IsTail tail
    → length (to_file es ++ tail) ≤ fuel
    → load_loop fuel (to_file es ++ tail) ≡ es
load_loop-to_file [] fuel tail h t room = unfold to_file in load_loop-tail fuel tail t
load_loop-to_file (e ∷ es) zero tail h t room =
    absurd (omega (arith, from_binary-shorter _ _ _ (first_record e es tail h.0)))
load_loop-to_file (e ∷ es) (suc fuel) tail h t room =
    let first = first_record e es tail h.0 in
    load_loop_step fuel _ _ e first
    ∙ ap (λ (l : List LogEntry). e ∷ l)
        (load_loop-to_file es fuel tail h.1 t (omega (arith, from_binary-shorter _ _ _ first)))

-- The file holds the cached entries, and the counter is that of the last one.
pub record IsSynced (w : Wal) : Type 0 where
  pub on_disk : contents w.file ≡ to_file w.cached_entries
  pub encodable : All IsEncodable w.cached_entries
  pub counter : w.last_index ≡ last_index_of 0 w.cached_entries

-- Opening a file of records, with a torn record behind them or none.
pub open_wal-to_file :
    (es : List LogEntry) (tail : Bytes)
    → All IsEncodable es
    → IsTail tail
    → open_wal (some (to_file es ++ tail)) ≡ record {
      file = some (to_file es ++ tail);
      cached_entries = es;
      last_index = last_index_of 0 es;
    }
unfolding open_wal
open_wal-to_file es tail h t =
    rw (load_loop-to_file es (length (to_file es ++ tail)) tail h t (omega arith))

to_file-append : (es fs : List LogEntry) → to_file (es ++ fs) ≡ to_file es ++ to_file fs
unfolding to_file
to_file-append [] fs = refl
to_file-append (e ∷ es) fs = rw (to_file-append es fs, append_assoc)

last_index_of-append :
    (i : ℕ) (es : List LogEntry) (e : LogEntry) → last_index_of i (es ++ e ∷ []) ≡ e.index
unfolding last_index_of
last_index_of-append i [] e = refl
last_index_of-append i (x ∷ es) e = last_index_of-append x.index es e

All-append {ℓ κ} :
    {A : Type ℓ} (P : A → Type κ) (xs ys : List A) → All P xs → All P ys → All P (xs ++ ys)
All-append P [] ys hx hy = hy
All-append P (x ∷ xs) ys hx hy = (hx.0, All-append P xs ys hx.1 hy)

-- What an append must fit: the counter does not wrap, and the length is a `uint64_t`.
pub record Fits (w : Wal) (command : Bytes) : Type 0 where
  pub index : w.last_index + 1 < 2 ^ 64
  pub size : length command < 2 ^ 64

pub next_entry-IsEncodable : (w : Wal) (c : Bytes) → Fits w c → IsEncodable (next_entry w c)
unfolding next_entry
next_entry-IsEncodable w c f = record { term = omega arith; index = omega arith; size = f.size }

pub append_entry-IsSynced :
    (w : Wal) (c : Bytes) → IsSynced w → Fits w c → IsSynced (append_entry true c w)
unfolding append_entry
append_entry-IsSynced w c s f = record {
  on_disk = rw (to_file-append, s.on_disk) (unfold to_file in rw append-nil);
  encodable =
      All-append IsEncodable w.cached_entries _ s.encodable (next_entry-IsEncodable w c f, tt);
  counter = sym (last_index_of-append 0 w.cached_entries (next_entry w c));
}

to_file_nil : (es : List LogEntry) → to_file es ≡ [] → es ≡ []
unfolding to_file to_binary le_bytes
to_file_nil [] h = refl
to_file_nil (e ∷ es) h = cc

module _ (w : Wal) (s : IsSynced w) where
  reopened : {bytes : Bytes} → w.file ≡ some bytes → open_wal w.file ≡ w
  reopened {bytes} e =
      let disk : bytes ≡ to_file w.cached_entries ++ [] =
        rw append-nil (cc (s.on_disk, ap contents e)) in
      let same : w.file ≡ some (to_file w.cached_entries ++ []) = e ∙ ap some disk in
      ap open_wal same
      ∙ open_wal-to_file w.cached_entries [] s.encodable from_binary_nil
      ∙ ground (arith, same, s.counter)

  reopened_empty : w.file ≡ none → open_wal w.file ≡ w
  unfolding open_wal last_index_of
  reopened_empty e =
      let bare : w.cached_entries ≡ [] =
        to_file_nil w.cached_entries (sym s.on_disk ∙ ap contents e) in
      let zeroed : w.last_index ≡ 0 = s.counter ∙ ap (last_index_of 0) bare in
      rw e (ground (arith, e, bare, zeroed))

  -- Opening the file of a log that is in step with it gives the log back.
  pub open_wal-IsSynced : open_wal w.file ≡ w
  open_wal-IsSynced = elim (Option-cases w.file) [
    | inl e ↦ reopened_empty e
    | inr (bytes, e) ↦ reopened e
  ]

-- An append that reached the disk is there when the log is opened again, and nothing else changed.
-- The log is in step with its file, and the record fits its counter and its length.
pub open_wal-append_entry :
    (w : Wal) (command : Bytes)
    → IsSynced w
    → Fits w command
    → open_wal (append_entry true command w).file ≡ append_entry true command w
open_wal-append_entry w command s f =
    open_wal-IsSynced (append_entry true command w) (append_entry-IsSynced w command s f)

-- A crash in the middle of an append, which leaves any proper part of the record behind the file:
-- the log opens with the entries and the counter from before the append. The log is in step with
-- its file, and the record fits its counter and its length.
pub open_wal_torn :
    (w : Wal) (command torn more : Bytes)
    → IsSynced w
    → Fits w command
    → to_binary (next_entry w command) ≡ torn ++ more
    → more ≢ []
    → (open_wal (some (contents w.file ++ torn))).cached_entries ≡ w.cached_entries
      × ((open_wal (some (contents w.file ++ torn))).last_index ≡ w.last_index)
open_wal_torn w command torn more s f cut left =
    let tail : IsTail torn =
      from_binary_torn (next_entry w command) torn more (next_entry-IsEncodable w command f) cut
        left in
    rw (s.on_disk, open_wal-to_file w.cached_entries torn s.encodable tail) (refl, sym s.counter)
