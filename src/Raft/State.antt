-- ===== src/Raft/State.antt =====
-- The state that the handlers work on: src/raft_node.h, src/metrics.h, `Snapshot` of
-- src/snapshot.h and what persist_functions.cpp and snapshot.cpp keep on disk. Sockets, threads,
-- mutexes and the condition variable have no fields. Terms, indices into the log and counters are
-- numbers; an `int` that may be -1 is an integer.
use kv_store_project.Prelude.{ℕ, Bool, List, Option, ◌+◌, if◌then◌else◌}
use kv_store_project.Prelude.Int.{ℤ}
use kv_store_project.Prelude.Text.{Bytes, codes, bytes_eq}
use kv_store_project.Prelude.Map.{Map}
use kv_store_project.KvStore.{KvStore}

pub data NodeState : Type 0 where
  follower candidate leader : NodeState

-- struct logEntry of raft_node.h, an entry of the replicated log
pub record RaftEntry : Type 0 where
  pub term : ℕ
  pub index : ℕ
  pub command : Bytes

pub record Snapshot : Type 0 where
  pub last_included_index : ℕ
  pub last_included_term : ℕ
  pub kv_state : Map Bytes

-- struct Metrics; the role is the state that its text names.
pub record Metrics : Type 0 where
  pub current_term : ℕ
  pub voted_for : ℤ
  pub leader_id : ℤ
  pub role : NodeState
  pub log_size : ℕ
  pub commit_index : ℤ
  pub last_applied : ℕ
  pub snapshot_count : ℕ
  pub last_snapshot_index : ℕ
  pub last_snapshot_term : ℕ
  pub election_count : ℕ
  pub leader_changes : ℕ
  pub votes_received : ℕ
  pub append_entries_sent : ℕ
  pub append_entries_received : ℕ
  pub request_votes_sent : ℕ
  pub request_votes_received : ℕ
  pub install_snapshots_sent : ℕ
  pub install_snapshots_received : ℕ
  pub client_requests_received : ℕ
  pub client_requests_succeeded : ℕ
  pub client_requests_failed : ℕ
  pub client_requests_redirected : ℕ

pub record Node : Type 0 where
  pub shutdown_requested : Bool
  pub id : ℕ
  pub leader_id : ℤ
  pub state : NodeState
  pub current_term : ℕ
  pub voted_for : ℤ
  pub log : List RaftEntry
  pub commit_index : ℤ
  pub last_applied : ℕ
  pub election_timeout : ℕ
  pub last_heartbeat : ℕ
  pub peer_rpc_ports : List ℕ
  pub match_index : List ℤ
  pub next_index : List ℕ
  pub running_heartbeats : Bool
  pub client_last_request : Map ℕ
  pub client_result_cache : Map Bytes
  pub latest_snapshot : Option Snapshot
  pub snapshot_buffer : Bytes
  pub receiving_snapshot : Bool
  pub snapshot_leader_id : ℤ
  pub metrics : Metrics

-- The document that persistMetadata writes, as the values of its members.
pub record Metadata : Type 0 where
  pub current_term : ℕ
  pub voted_for : ℤ
  pub log_entries : List RaftEntry
  pub client_last_request : Map ℕ
  pub client_result_cache : Map Bytes

-- A node with the store that it applies commands to and its two files on disk.
pub record World : Type 0 where
  pub node : Node
  pub store : KvStore
  pub metadata_file : Option Metadata
  pub snapshot_file : Option Snapshot

-- What one handler finds around it: the clock in milliseconds, the next value of `rand()`, and
-- whether the file of the write-ahead log can be opened for writing.
pub record Env : Type 0 where
  pub now : ℕ
  pub rand : ℕ
  pub can_open : Bool

-- Metrics::updateRole
unfoldable pub update_role : NodeState → Metrics → Metrics
update_role NodeState.leader m = record m {
  leader_changes = elim m.role [ NodeState.leader ↦ m.leader_changes | _ ↦ m.leader_changes + 1 ];
  role = NodeState.leader;
}
update_role r m = record m { role = r }

-- Metrics::recordSnapshot
unfoldable pub record_snapshot : ℕ → ℕ → Metrics → Metrics
record_snapshot index term m = record m {
  snapshot_count = m.snapshot_count + 1;
  last_snapshot_index = index;
  last_snapshot_term = term;
}

-- Metrics::recordClientRequest, which nothing calls
unfoldable pub record_client_request : Bytes → Metrics → Metrics
unfolding bytes_eq
record_client_request result m =
    let m1 = record m { client_requests_received = m.client_requests_received + 1 } in
    if bytes_eq result (codes "OK")
    then record m1 { client_requests_succeeded = m1.client_requests_succeeded + 1 }
    else if bytes_eq result (codes "redirect")
    then record m1 { client_requests_redirected = m1.client_requests_redirected + 1 }
    else record m1 { client_requests_failed = m1.client_requests_failed + 1 }
