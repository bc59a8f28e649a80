-- ===== src/Raft/Append.antt =====
-- The AppendEntries branch of handle_node_client in src/rpc_server.cpp. The handler holds the
-- mutex of the node from its first test on.
pub mod Log
pub mod Votes
pub mod Disk
pub mod Replies
use kv_store_project.Prelude.{
  ℕ, ◌+◌, ◌-◌, Bool, true, false, ◌&&◌, ◌||◌, not, List, [], ◌∷◌, ◌++◌, Option, none, some, ltb,
  leb, ◌==◌, length, take, min, map, if◌then◌else◌,
}
use kv_store_project.Prelude.Int.{ℤ, pos, negsuc, ◌+ℤ◌, ◌-ℤ◌, eq_ℤ, ltb_ℤ, leb_ℤ}
use kv_store_project.Raft.State.{Node, NodeState, World, Env, RaftEntry, Snapshot}
use kv_store_project.Raft.Log.{get_log_size}
use kv_store_project.Raft.Persist.{persist_metadata}
use kv_store_project.Raft.Role.{restart_timer}
use kv_store_project.Raft.Apply.{entry_at, apply_committed}
use kv_store_project.Raft.Snapshots.{take_snapshot, is_empty_list}

pub record AppendEntriesRpc : Type 0 where
  pub term : ℕ
  pub leader_id : ℤ
  pub prev_log_index : ℤ
  pub prev_log_term : ℕ
  pub entries : List RaftEntry
  pub leader_commit : ℤ

-- What the sender gets: an answer; the text "null" of a response that was never set; nothing,
-- since the handler waits for a mutex that it holds itself; or the answer "Invalid JSON" of the
-- outer `catch`, where the truncation of the write-ahead log has thrown.
pub data AppendReply : Type 0 where
  answers : ℕ → Bool → AppendReply
  null_reply : AppendReply
  blocked : AppendReply
  invalid_json : AppendReply

-- `logIndex`: the place in the vector of an index
abbrev pub vector_place : Option Snapshot → ℤ → ℤ
vector_place none i = i
vector_place (some snap) i = i -ℤ pos snap.last_included_index -ℤ pos 1

-- The range and the term at a place
abbrev pub term_matches : List RaftEntry → ℤ → ℕ → Bool
term_matches log place term = elim (entry_at log place) [ none ↦ false | some e ↦ e.term == term ]

-- The consistency check: whether the log holds an entry of `prev_log_term` at `prev_log_index`
unfoldable pub is_consistent : Node → ℤ → ℕ → Bool
is_consistent n (negsuc _) prev_log_term = true
is_consistent n (pos i) prev_log_term = elim n.latest_snapshot [
  | none ↦ term_matches n.log (pos i) prev_log_term
  | some snap ↦
      if ltb i snap.last_included_index
      then false
      else if i == snap.last_included_index
      then prev_log_term == snap.last_included_term
      else term_matches n.log (vector_place (some snap) (pos i)) prev_log_term
]

-- The loop that pushes the entries whose place is behind the end
unfoldable pub push_entries : Option Snapshot → List RaftEntry → List RaftEntry → List RaftEntry
push_entries snap [] log = log
push_entries snap (e ∷ es) log =
    push_entries snap es
      (if leb_ℤ (pos (length log)) (vector_place snap (pos e.index)) then log ++ e ∷ [] else log)

-- `log.erase(log.begin() + logInsertIndex, log.end())`
abbrev pub erase_from : ℤ → List RaftEntry → List RaftEntry
erase_from (pos i) log = take i log
erase_from (negsuc i) log = log

-- The entries are merged into the log: a first entry that is there with its term ends the merge.
unfoldable pub merge_entries :
    Option Snapshot → ℤ → List RaftEntry → List RaftEntry → List RaftEntry
unfolding push_entries
merge_entries snap prev_log_index [] log = log
merge_entries snap prev_log_index (first ∷ es) log =
    let place = vector_place snap (prev_log_index +ℤ pos 1) in
    elim (entry_at log place) [
      | none ↦ push_entries snap (first ∷ es) log
      | some old ↦
          if old.term == first.term
          then log
          else push_entries snap (first ∷ es) (erase_from place log)
    ]

-- SNAPSHOT_THRESHOLD
abbrev pub snapshot_threshold : ℕ
snapshot_threshold = 3000

-- `min(leaderCommit, getLogSize() - 1)`, which is -1 for an empty log
abbrev pub new_commit : Node → ℤ → ℤ
new_commit n leader_commit =
    let last = pos (get_log_size n) -ℤ pos 1 in
    if leb_ℤ leader_commit last then leader_commit else last

-- What follows the merge where the leader has committed more: the commit index moves, the entries
-- are applied, and a long log is replaced by a snapshot. `false` where that has thrown.
unfoldable pub advance_commit : Env → ℤ → World → World × Bool
advance_commit env leader_commit w =
    let w1 = record w { node = record w.node { commit_index = new_commit w.node leader_commit } } in
    let w2 = (apply_committed env w1).0 in
    if leb snapshot_threshold (length w2.node.log) then take_snapshot env w2 else (w2, true)

-- The node takes the sender for the leader and starts its timer again.
unfoldable pub hear_leader : Env → ℤ → World → World
unfolding restart_timer
hear_leader env leader_id w = record w {
  node = record (restart_timer env w.node) { leader_id = leader_id };
}

-- The part behind the tests of the term and the role
unfoldable pub accept_entries : Env → AppendEntriesRpc → World → World × AppendReply
unfolding hear_leader persist_metadata
accept_entries env r w =
    let w1 = hear_leader env r.leader_id w in
    let success = is_consistent w1.node r.prev_log_index r.prev_log_term in
    let log =
      if success
      then merge_entries w1.node.latest_snapshot r.prev_log_index r.entries w1.node.log
      else w1.node.log in
    let w2 = persist_metadata (record w1 { node = record w1.node { log = log } }) in
    if success && ltb_ℤ w2.node.commit_index r.leader_commit
    then (let (w3, done) = advance_commit env r.leader_commit w2 in
        (w3, if done then answers w3.node.current_term success else invalid_json))
    else (w2, answers w2.node.current_term success)

abbrev pub is_candidate : NodeState → Bool
is_candidate NodeState.candidate = true
is_candidate _ = false

-- `metrics.appendEntriesReceived++`
abbrev pub count_received : World → World
count_received w = record w {
  node = record w.node {
    metrics = record w.node.metrics {
      append_entries_received = w.node.metrics.append_entries_received + 1;
    };
  };
}

-- The whole branch. A newer term, or the same one at a candidate, leads to becomeFollower, which
-- locks the mutex that the handler holds; that it keeps the mutex is modelled in Raft.Threads only.
unfoldable pub append_entries : Env → AppendEntriesRpc → World → World × AppendReply
append_entries env r w =
    let w0 = count_received w in
    if w0.node.receiving_snapshot && eq_ℤ w0.node.snapshot_leader_id r.leader_id
    then (w0, null_reply)
    else if ltb r.term w0.node.current_term
    then (w0, answers w0.node.current_term false)
    else if ltb w0.node.current_term r.term || is_candidate w0.node.state
    then (w0, blocked)
    else accept_entries env r w0
