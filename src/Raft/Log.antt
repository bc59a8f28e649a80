-- ===== src/Raft/Log.antt =====
-- The log of a node, whose front a snapshot may have replaced: RaftNode::getLogTerm, getLogSize,
-- getLogEntries, appendLogEntry and truncateLogSafe of src/raft_node.cpp, and truncateLog of
-- src/snapshot.cpp. An index counts from the first entry that there ever was; the place of an
-- entry in the vector is that index less `base_index`.
pub mod Compaction
use kv_store_project.Prelude.{
  ℕ, ◌+◌, ◌-◌, List, [], ◌∷◌, ◌++◌, Option, none, some, ltb, leb, length, get_elem?, take, drop,
  min, ◌&&◌, if◌then◌else◌,
}
use kv_store_project.Prelude.Int.{ℤ, pos, negsuc, ◌-ℤ◌, leb_ℤ, eq_ℤ}
use kv_store_project.Raft.State.{Node, RaftEntry, Snapshot}

-- `latestSnapshot ? latestSnapshot->lastIncludedIndex + 1 : 0`
abbrev pub base_index : Option Snapshot → ℕ
base_index none = 0
base_index (some snap) = snap.last_included_index + 1

-- `log[logIndex].term` with the test of the range before it
abbrev pub term_at : List RaftEntry → ℤ → ℕ
term_at log (negsuc _) = 0
term_at log (pos i) = elim (get_elem? log i) [ none ↦ 0 | some e ↦ e.term ]

abbrev pub log_term : Option Snapshot → List RaftEntry → ℤ → ℕ
log_term none log index = term_at log index
log_term (some snap) log index =
    if leb_ℤ index (pos snap.last_included_index)
    then (if eq_ℤ index (pos snap.last_included_index) then snap.last_included_term else 0)
    else term_at log (index -ℤ pos snap.last_included_index -ℤ pos 1)

-- RaftNode::getLogTerm
unfoldable pub get_log_term : Node → ℤ → ℕ
get_log_term n index = log_term n.latest_snapshot n.log index

-- RaftNode::getLogSize
unfoldable pub get_log_size : Node → ℕ
get_log_size n = base_index n.latest_snapshot + length n.log

-- The entries with places from `start` to before `end`.
abbrev pub slice {ℓ} : {A : Type ℓ} → ℕ → ℕ → List A → List A
slice start end xs = take (end - start) (drop start xs)

-- RaftNode::getLogEntries. `max(0, a - b)` is the subtraction of ℕ; a negative `logEnd` gives no
-- entries, as 0 does.
unfoldable pub get_log_entries : Node → ℕ → ℕ → List RaftEntry
get_log_entries n start_index end_index =
    let log_start = start_index - base_index n.latest_snapshot in
    let log_end = min (length n.log) (end_index - base_index n.latest_snapshot) in
    if leb log_end log_start then [] else slice log_start log_end n.log

-- RaftNode::appendLogEntry
unfoldable pub append_log_entry : RaftEntry → Node → Node
append_log_entry entry n = record n { log = n.log ++ entry ∷ [] }

-- RaftNode::truncateLogSafe. `oldSnapshotIndex` is -1 without a snapshot, so `baseIndex` is
-- `base_index` in both cases.
unfoldable pub truncate_log_safe : ℕ → Node → Node
truncate_log_safe last_included_index n =
    let base = base_index n.latest_snapshot in
    let truncate_at = last_included_index + 1 - base in
    if ltb last_included_index base
    then n
    else if ltb 0 truncate_at && leb truncate_at (length n.log)
    then record n { log = drop truncate_at n.log }
    else n

-- truncateLog of snapshot.cpp: it goes by the index that each entry carries.
unfoldable pub truncate_log : ℕ → List RaftEntry → List RaftEntry
truncate_log last_included_index [] = []
truncate_log last_included_index (e ∷ log) =
    let rest = truncate_log last_included_index log in
    if ltb last_included_index e.index then e ∷ rest else rest
