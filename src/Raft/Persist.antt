-- ===== src/Raft/Persist.antt =====
-- src/persist_functions.cpp, the files of src/snapshot.cpp, and what RaftNode's constructor,
-- loadMetadata and RaftNode::start do when a process starts. A document of nlohmann::json is the
-- record of its members. Writing a file succeeds.
pub mod Restart
use kv_store_project.Prelude.{
  ℕ, ◌+◌, Bool, true, false, List, [], ◌∷◌, Option, none, some, length, replicate,
}
use kv_store_project.Prelude.Int.{ℤ, pos, minus_one}
use kv_store_project.Prelude.Map
use kv_store_project.KvStore.{KvStore, load_from_map}
use kv_store_project.Raft.State.{Node, NodeState, Metadata, Metrics, Snapshot, World, RaftEntry}

-- persistMetadata
unfoldable pub persist_metadata : World → World
persist_metadata w = record w {
  metadata_file = some (record {
    current_term = w.node.current_term;
    voted_for = w.node.voted_for;
    log_entries = w.node.log;
    client_last_request = w.node.client_last_request;
    client_result_cache = w.node.client_result_cache;
  });
}

-- loadMetadata
unfoldable pub load_metadata : World → World
load_metadata w = elim w.metadata_file [
  | none ↦ w
  | some j ↦ record w {
    node = record w.node {
      current_term = j.current_term;
      voted_for = j.voted_for;
      log = j.log_entries;
      client_last_request = Map.insert_all w.node.client_last_request j.client_last_request;
      client_result_cache = Map.insert_all w.node.client_result_cache j.client_result_cache;
    };
  }
]

-- saveSnapshot; that `dump` throws on a text that is not UTF-8 is not modelled.
unfoldable pub save_snapshot : Snapshot → World → World
save_snapshot snap w = record w { snapshot_file = some snap }

-- loadSnapshot: `none` where it throws because there is no file.
unfoldable pub load_snapshot : World → Option Snapshot
load_snapshot w = w.snapshot_file

-- RaftNode::start, without the thread that it starts
unfoldable pub start : World → World
start w = elim w.snapshot_file [
  | none ↦ w
  | some snap ↦ record w {
    node = record w.node {
      latest_snapshot = some snap;
      last_applied = snap.last_included_index;
      commit_index = pos snap.last_included_index;
    };
    store = load_from_map snap.kv_state w.store;
  }
]

-- restoreFromSnapshot, which also clears the log
unfoldable pub restore_from_snapshot : World → World
restore_from_snapshot w = elim w.snapshot_file [
  | none ↦ w
  | some snap ↦ record w {
    node = record w.node {
      last_applied = snap.last_included_index;
      commit_index = pos snap.last_included_index;
      log = [];
    };
    store = load_from_map snap.kv_state w.store;
  }
]

abbrev pub new_metrics : Metrics
new_metrics = record {
  current_term = 0;
  voted_for = minus_one;
  leader_id = minus_one;
  role = NodeState.follower;
  log_size = 0;
  commit_index = pos 0;
  last_applied = 0;
  snapshot_count = 0;
  last_snapshot_index = 0;
  last_snapshot_term = 0;
  election_count = 0;
  leader_changes = 0;
  votes_received = 0;
  append_entries_sent = 0;
  append_entries_received = 0;
  request_votes_sent = 0;
  request_votes_received = 0;
  install_snapshots_sent = 0;
  install_snapshots_received = 0;
  client_requests_received = 0;
  client_requests_succeeded = 0;
  client_requests_failed = 0;
  client_requests_redirected = 0;
}

-- RaftNode::RaftNode(nodeId, port, peers), at the time `now`. `electionTimeout` is set before the
-- timers start.
unfoldable pub new_node : ℕ → ℕ → List ℕ → Node
new_node id now peers = record {
  shutdown_requested = false;
  id = id;
  leader_id = minus_one;
  state = NodeState.follower;
  current_term = 0;
  voted_for = minus_one;
  log = [];
  commit_index = pos 0;
  last_applied = 0;
  election_timeout = 0;
  last_heartbeat = now;
  peer_rpc_ports = peers;
  match_index = replicate (length peers) minus_one;
  next_index = replicate (length peers) 0;
  running_heartbeats = false;
  client_last_request = [];
  client_result_cache = [];
  latest_snapshot = none;
  snapshot_buffer = [];
  receiving_snapshot = false;
  snapshot_leader_id = minus_one;
  metrics = new_metrics;
}

-- A process that starts on the files of `w`, with the store that was built from the write-ahead
-- log before: the node is made, its metadata are loaded, and it is started.
unfoldable pub restart : ℕ → KvStore → World → World
unfolding new_node
restart now store w = start (
    load_metadata (record w { node = new_node w.node.id now w.node.peer_rpc_ports; store = store }))
