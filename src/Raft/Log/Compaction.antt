-- ===== src/Raft/Log/Compaction.antt =====
-- Replacing the front of the log by a snapshot does not show: sizes, terms and entries above the
-- snapshot are those of the log before.
use kv_store_project.Prelude.{
  ℕ, zero, suc, ◌+◌, ◌-◌, ◌≤◌, ◌<◌, ◌≡◌, refl, sym, ap, ◌∙◌, List, [], ◌∷◌, Option, none, some, leb,
  length, get_elem?, drop, min, arith, if◌then◌else◌, length-drop, get_elem?-drop, drop-drop,
}
use kv_store_project.Prelude.Int.{pos, ◌-ℤ◌}
use native.Mathlib.Decide.{dec_lt}
use kv_store_project.Raft.State.{Node, RaftEntry, Snapshot}
use kv_store_project.Raft.Log.{
  base_index, log_term, get_log_term, get_log_size, slice, get_log_entries, truncate_log_safe,
  truncate_log,
}

-- What the program does to a log when it takes a snapshot at `index` of term `term`.
abbrev pub compact : Snapshot → Node → Node
compact snap n = record (truncate_log_safe snap.last_included_index n) {
  latest_snapshot = some snap;
}

-- An index that the log holds behind its snapshot, if any.
pub record InLog (n : Node) (index : ℕ) : Type 0 where
  pub low : base_index n.latest_snapshot ≤ index
  pub high : index < get_log_size n

log-truncate_log_safe :
    (n : Node) (i : ℕ)
    → InLog n i
    → (truncate_log_safe i n).log ≡ drop (i + 1 - base_index n.latest_snapshot) n.log
unfolding truncate_log_safe get_log_size
log-truncate_log_safe n i h = ground (arith, h.low, h.high)

-- The size counts the entries that the snapshot has replaced.
pub get_log_size-compact :
    (n : Node) (snap : Snapshot)
    → InLog n snap.last_included_index
    → get_log_size (compact snap n) ≡ get_log_size n
unfolding get_log_size
get_log_size-compact n snap h =
    rw (log-truncate_log_safe n snap.last_included_index h, length-drop)
      (unfold get_log_size in omega (arith, h.low, h.high))

abbrev pub entry_term : Option RaftEntry → ℕ
entry_term none = 0
entry_term (some e) = e.term

sub_base : (i last : ℕ) → last + 1 ≤ i → pos i -ℤ pos last -ℤ pos 1 ≡ pos (i - (last + 1))
sub_base i last h = ground arith

-- Behind the snapshot a term is read at the place `i - base_index`.
log_term_above :
    (s : Option Snapshot) (log : List RaftEntry) (i : ℕ)
    → base_index s ≤ i
    → log_term s log (pos i) ≡ entry_term (get_elem? log (i - base_index s))
log_term_above none log i h = ground arith
log_term_above (some snap) log i h = rw (sub_base i snap.last_included_index h) (ground arith)

compact_above :
    (n : Node) (snap : Snapshot) (i : ℕ)
    → InLog n snap.last_included_index
    → snap.last_included_index < i
    → get_log_term (compact snap n) (pos i) ≡ get_log_term n (pos i)
unfolding get_log_term
compact_above n snap i h above =
    let k = snap.last_included_index + 1 - base_index n.latest_snapshot in
    let place : k + (i - (snap.last_included_index + 1)) ≡ i - base_index n.latest_snapshot =
      omega (arith, h.low) in
    log_term_above (some snap) _ i (omega arith)
    ∙ ap (λ (l : List RaftEntry). entry_term (get_elem? l (i - (snap.last_included_index + 1))))
        (log-truncate_log_safe n snap.last_included_index h)
    ∙ ap entry_term (get_elem?-drop k (i - (snap.last_included_index + 1)) n.log)
    ∙ ap (λ (j : ℕ). entry_term (get_elem? n.log j)) place
    ∙ sym (log_term_above n.latest_snapshot n.log i (omega (arith, h.low)))

i_eq_last : (i last : ℕ) → last ≤ i → ¬ (last < i) → i ≡ last
i_eq_last i last le h = omega arith

-- For a snapshot at an index that the log holds, with the term that stands there, every term from
-- that index on is the one that the log had, the boundary included.
pub get_log_term-compact :
    (n : Node) (snap : Snapshot) (i : ℕ)
    → InLog n snap.last_included_index
    → snap.last_included_term ≡ get_log_term n (pos snap.last_included_index)
    → snap.last_included_index ≤ i
    → get_log_term (compact snap n) (pos i) ≡ get_log_term n (pos i)
unfolding get_log_term
get_log_term-compact n snap i h t le = elim (dec_lt snap.last_included_index i) [
  | yes above ↦ compact_above n snap i h above
  | no same ↦ rw (i_eq_last i snap.last_included_index le same) (ground (arith, t))
]

room : (n : Node) (i : ℕ) → InLog n i → i + 1 - base_index n.latest_snapshot ≤ length n.log
unfolding get_log_size
room n i h = omega (arith, h.low, h.high)

-- The same entries from the log without its first `next - base`.
slice-drop :
    (log : List RaftEntry) (next base start end : ℕ)
    → base ≤ next
    → next ≤ start
    → next - base ≤ length log
    → (if leb (min (length log - (next - base)) (end - next)) (start - next)
        then []
        else slice
            (start - next)
            (min (length log - (next - base)) (end - next))
            (drop (next - base) log))
      ≡ (if leb (min (length log) (end - base)) (start - base)
          then []
          else slice (start - base) (min (length log) (end - base)) log)
slice-drop log next base start end h k r = elim (dec_lt end next) [
  | yes early ↦ ground arith
  | no late ↦ rw (drop-drop (start - next) (next - base) log) (ground arith)
]

-- For a snapshot at an index that the log holds, the entries from behind it on that go to a peer
-- are the ones that went before the front of the log was dropped.
pub get_log_entries-compact :
    (n : Node) (snap : Snapshot) (start end : ℕ)
    → InLog n snap.last_included_index
    → snap.last_included_index < start
    → get_log_entries (compact snap n) start end ≡ get_log_entries n start end
unfolding get_log_entries
get_log_entries-compact n snap start end h lt =
    rw (log-truncate_log_safe n snap.last_included_index h, length-drop)
      (slice-drop n.log (snap.last_included_index + 1) (base_index n.latest_snapshot) start end
        (omega (arith, h.low)) (omega arith) (room n snap.last_included_index h))

-- Entries that carry their indices: the entry in place `k` of a log that starts at `i` carries
-- `i + k`.
abbrev pub IsNumbered : ℕ → List RaftEntry → Type 0
IsNumbered i [] = Unit {0}
IsNumbered i (e ∷ log) = (e.index ≡ i) × IsNumbered (i + 1) log

truncate_log-all :
    (log : List RaftEntry) (i last : ℕ) → IsNumbered i log → last < i → truncate_log last log ≡ log
unfolding truncate_log
truncate_log-all [] i last h lt = refl
truncate_log-all (e ∷ log) i last h lt = ground (arith, h.0, truncate_log-all log (i + 1) last h.1)

truncate_log-count :
    (log : List RaftEntry) (i last k : ℕ)
    → IsNumbered i log
    → last + 1 ≡ i + k
    → truncate_log last log ≡ drop k log
unfolding truncate_log
truncate_log-count log i last zero h e = truncate_log-all log i last h (omega arith)
truncate_log-count [] i last (suc k) h e = refl
truncate_log-count (x ∷ log) i last (suc k) h e =
    ground (arith, h.0, truncate_log-count log (i + 1) last k h.1)

-- For a log whose entries carry the indices from `i` on, dropping all entries with an index up to
-- `last` drops the first `last + 1 - i` of them, as truncateLogSafe counts them; `i` is not above
-- `last + 1`.
pub truncate_log-drop :
    (log : List RaftEntry) (i last : ℕ)
    → IsNumbered i log
    → i ≤ last + 1
    → truncate_log last log ≡ drop (last + 1 - i) log
truncate_log-drop log i last h le = truncate_log-count log i last (last + 1 - i) h (omega arith)
