-- ===== src/Logger/Lines.antt =====
-- Which lines a run of the logger leaves in the file and on the console.
use kv_store_project.Prelude.{
  ◌≡◌, refl, Bool, true, false, Bool-cases, inl, inr, some, none, List, [], ◌∷◌, ◌++◌, map,
  append-nil, append_assoc, ltb, if◌then◌else◌, ◌∙◌, sym,
}
use kv_store_project.Prelude.Text.{Bytes, bytes_eq}
use kv_store_project.Logger.{LogLevel, rank, Logger, Call, log_line, coloured, log, init}

-- One call after the other
abbrev pub log_all : List Call → Logger → Logger
log_all [] l = l
log_all (c ∷ cs) l = log_all cs (log c l)

-- The calls at a level or above it
abbrev pub from_level : LogLevel → List Call → List Call
from_level level [] = []
from_level level (c ∷ cs) =
    let rest = from_level level cs in if ltb (rank c.level) (rank level) then rest else c ∷ rest

-- The logger writes to this file and to the console.
pub record Writes (name : Bytes) (l : Logger) : Type 0 where
  to_file : l.log_to_file ≡ true
  to_console : l.log_to_console ≡ true
  opened : l.log_file.open_name ≡ some name
  good : l.log_file.failed ≡ false

log-below : (c : Call) (l : Logger) → ltb (rank c.level) (rank l.min_level) ≡ true → log c l ≡ l
unfolding log
log-below c l low = rw low refl

log-above :
    (name : Bytes) (c : Call) (l : Logger)
    → Writes name l
    → ltb (rank c.level) (rank l.min_level) ≡ false
    → log c l ≡ record l {
      stdout = l.stdout ++ coloured c ∷ [];
      log_file = record l.log_file { written = l.log_file.written ++ (name, log_line c) ∷ [] };
    }
unfolding log
log-above name c l w high = rw (high, w.to_file, w.to_console, w.opened, w.good) refl

log_all-Writes :
    (name : Bytes) (cs : List Call) (l : Logger)
    → Writes name l
    → ((log_all cs l).log_file.written
        ≡ l.log_file.written ++ map (λ c. (name, log_line c)) (from_level l.min_level cs))
      × ((log_all cs l).stdout ≡ l.stdout ++ map coloured (from_level l.min_level cs))
log_all-Writes name [] l w = (sym (append-nil _), sym (append-nil _))
log_all-Writes name (c ∷ cs) l w = elim (Bool-cases (ltb (rank c.level) (rank l.min_level))) [
  | inl low ↦ rw (log_all, from_level, log-below c l low, low) (log_all-Writes name cs l w)
  | inr high ↦
      let l' : Logger = record l {
        stdout = l.stdout ++ coloured c ∷ [];
        log_file = record l.log_file { written = l.log_file.written ++ (name, log_line c) ∷ [] };
      } in
      let w' : Writes name l' = record {
        to_file = w.to_file;
        to_console = w.to_console;
        opened = w.opened;
        good = w.good;
      } in
      let (file, console) = log_all-Writes name cs l' w' in
      rw (log_all, from_level, log-above name c l w high, high)
        (file ∙ search append_assoc, console ∙ search append_assoc)
]

-- After an `init` with the name of a file that opens, while no file is open, the calls that follow
-- append to that file one line each, those at the level of `init` or above it and no others, in
-- their order, and print the same lines on the console in their colours.
pub init-log_all :
    (opens : Bytes → Bool) (name : Bytes) (level : LogLevel) (cs : List Call) (l : Logger)
    → bytes_eq name [] ≡ false
    → opens name ≡ true
    → l.log_file.open_name ≡ none
    → let l' = log_all cs (init opens name level l) in
      (l'.log_file.written
        ≡ l.log_file.written ++ map (λ c. (name, log_line c)) (from_level level cs))
      × (l'.stdout ≡ l.stdout ++ map coloured (from_level level cs))
unfolding init
init-log_all opens name level cs l named ok closed =
    rw (named, closed, ok)
      (log_all-Writes name cs _
        (record { to_file = refl; to_console = refl; opened = refl; good = refl }))

-- The name of a file that is open already, by an `init` before: `init` takes the logger to be
-- writing to a file, and no line is written to any.
init_again :
    (opens : Bytes → Bool) (old name : Bytes) (level : LogLevel) (c : Call) (l : Logger)
    → bytes_eq name [] ≡ false
    → l.log_file.open_name ≡ some old
    → ((init opens name level l).log_to_file ≡ true)
      × ((log c (init opens name level l)).log_file.written ≡ l.log_file.written)
unfolding init log
init_again opens old name level c l named opened =
    rw (named, opened)
      (
        refl,
        elim (Bool-cases (ltb (rank c.level) (rank level))) [
          | inl low ↦ rw low refl
          | inr high ↦ rw high refl
        ],
      )
