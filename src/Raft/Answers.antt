-- ===== src/Raft/Answers.antt =====
-- The branches of handle_node_client in src/rpc_server.cpp that answer clients and questions about
-- a node: ClientRequest, STATUS, LOGSIZE, SNAPSHOT_NOW, GET_LOGS, CLUSTER_INFO and METRICS, with
-- updateLogMetrics and getStatus of src/raft_node.cpp. An answer is the record of the members of
-- the document; an exception leads to the answer "Invalid JSON" of the outer `catch`.

pub mod Counts
pub mod Reports
mod Examples
use kv_store_project.Prelude.{
  ℕ, zero, suc, ◌+◌, Bool, true, false, List, [], ◌∷◌, Option, none, some, length, drop, get_elem?,
  if◌then◌else◌,
}
use kv_store_project.Prelude.Int.{ℤ, pos, minus_one, ◌-ℤ◌, pos_part}
use kv_store_project.Prelude.Text.{Bytes, codes, bytes_eq}
use kv_store_project.Raft.State.{Node, NodeState, World, Env, RaftEntry, Metrics}
use kv_store_project.Raft.Log.{get_log_size}
use kv_store_project.Raft.Snapshots.{trigger_snapshot}
use kv_store_project.Raft.Client.{
  PeerReply, ClientResult, text, thrown, is_leader, handle_client_command,
}

-- What a client's request is answered with
pub data Answer : Type 0 where
  redirect : ℤ → Answer
  ok : Answer
  ok_value : Bytes → Answer
  failure : Bytes → Answer
  invalid_json : Answer

-- The members of a request
pub record Request : Type 0 where
  pub command : Bytes
  pub key : Bytes
  pub value : Bytes
  pub client_id : Bytes
  pub request_id : ℕ

abbrev pub count_client_request : World → World
count_client_request w = record w {
  node = record w.node {
    metrics = record w.node.metrics {
      client_requests_received = w.node.metrics.client_requests_received + 1;
    };
  };
}

abbrev pub count_redirected : World → World
count_redirected w = record w {
  node = record w.node {
    metrics = record w.node.metrics {
      client_requests_redirected = w.node.metrics.client_requests_redirected + 1;
    };
  };
}

abbrev pub count_succeeded : World → World
count_succeeded w = record w {
  node = record w.node {
    metrics = record w.node.metrics {
      client_requests_succeeded = w.node.metrics.client_requests_succeeded + 1;
    };
  };
}

abbrev pub count_failed : World → World
count_failed w = record w {
  node = record w.node {
    metrics = record w.node.metrics {
      client_requests_failed = w.node.metrics.client_requests_failed + 1;
    };
  };
}

-- What the text of the result is turned into
unfoldable pub answer_result : Bytes → ClientResult → World → World × Answer
answer_result command thrown w = (w, invalid_json)
answer_result command (text result) w =
    if bytes_eq result (codes "OK")
    then (count_succeeded w, ok)
    else if bytes_eq result (codes "key not found")
    then (count_failed w, failure result)
    else if bytes_eq command (codes "GET")
    then (count_succeeded w, ok_value result)
    else (count_failed w, failure result)

-- ClientRequest
unfoldable pub client_request : Env → List (Option PeerReply) → Request → World → World × Answer
unfolding answer_result
client_request env replies r w =
    let w0 = count_client_request w in
    if is_leader w0.node.state
    then (let (w1, result) =
          handle_client_command env replies r.client_id r.request_id r.command r.key r.value w0 in
        answer_result r.command result w1)
    else (count_redirected w0, redirect w0.node.leader_id)

-- RaftNode::updateLogMetrics
unfoldable pub update_log_metrics : Node → Node
update_log_metrics n =
    let m = record n.metrics {
      log_size = get_log_size n;
      commit_index = n.commit_index;
      last_applied = n.last_applied;
    } in
    record n {
      metrics = elim n.latest_snapshot [
        | none ↦ m
        | some snap ↦ record m {
          last_snapshot_index = snap.last_included_index;
          last_snapshot_term = snap.last_included_term;
        }
      ];
    }

pub record Status : Type 0 where
  pub node_id : ℕ
  pub term : ℕ
  pub role : NodeState
  pub leader_id : ℤ
  pub commit_index : ℤ
  pub last_applied : ℕ
  pub log_size : ℕ
  pub voted_for : ℤ
  pub snapshot_count : ℕ
  pub last_snapshot_index : ℕ

-- RaftNode::getStatus
unfoldable pub get_status : Node → Node × Status
unfolding update_log_metrics
get_status n =
    let n' = update_log_metrics n in
    (
      n',
      record {
        node_id = n'.id;
        term = n'.current_term;
        role = n'.state;
        leader_id = n'.leader_id;
        commit_index = n'.commit_index;
        last_applied = n'.last_applied;
        log_size = get_log_size n';
        voted_for = n'.voted_for;
        snapshot_count = n'.metrics.snapshot_count;
        last_snapshot_index = n'.metrics.last_snapshot_index;
      },
    )

-- METRICS: the counters after they have been brought up to date
unfoldable pub get_metrics : Node → Node × Metrics
unfolding update_log_metrics
get_metrics n = (update_log_metrics n, (update_log_metrics n).metrics)

pub record LogSizes : Type 0 where
  pub total_log_size : ℕ
  pub physical_log_size : ℕ
  pub snapshot_index : ℕ
  pub commit_index : ℤ
  pub last_applied : ℕ

-- LOGSIZE
unfoldable pub get_log_sizes : Node → LogSizes
get_log_sizes n = record {
  total_log_size = get_log_size n;
  physical_log_size = length n.log;
  snapshot_index = elim n.latest_snapshot [ none ↦ 0 | some snap ↦ snap.last_included_index ];
  commit_index = n.commit_index;
  last_applied = n.last_applied;
}

-- SNAPSHOT_NOW: the index and the term of the snapshot, or `none` for the answer "error".
unfoldable pub snapshot_now : Env → World → World × Option (ℕ × ℕ)
snapshot_now env w =
    let (w', success) = trigger_snapshot env w in
    (
      w',
      if success
          then elim w'.node.latest_snapshot [
            | none ↦ none
            | some snap ↦ some (snap.last_included_index, snap.last_included_term)
          ]
          else none,
    )

pub record Logs : Type 0 where
  pub logs : List RaftEntry
  pub total_count : ℕ
  pub returned_count : ℕ

-- GET_LOGS: the entries from `max(0, size - count)` on
unfoldable pub get_logs : ℤ → Node → Logs
get_logs count n =
    let logs = drop (pos_part (pos (length n.log) -ℤ count)) n.log in
    record { logs = logs; total_count = length n.log; returned_count = length logs }

pub record PeerInfo : Type 0 where
  pub node_id : ℕ
  pub port : ℕ
  pub next_index : ℤ
  pub match_index : ℤ

-- The loop over the ports, from number `i` on
unfoldable pub peer_infos : ℕ → List ℕ → Node → List PeerInfo
peer_infos i [] n = []
peer_infos i (port ∷ ports) n =
    record {
      node_id = i;
      port = port;
      next_index = elim (get_elem? n.next_index i) [ none ↦ minus_one | some k ↦ pos k ];
      match_index = elim (get_elem? n.match_index i) [ none ↦ minus_one | some k ↦ k ];
    }
    ∷ peer_infos (i + 1) ports n

pub record ClusterInfo : Type 0 where
  pub current_node_id : ℕ
  pub cluster_size : ℕ
  pub nodes : List PeerInfo
  pub leader_id : ℤ

-- CLUSTER_INFO
unfoldable pub get_cluster_info : Node → ClusterInfo
unfolding peer_infos
get_cluster_info n = record {
  current_node_id = n.id;
  cluster_size = length n.peer_rpc_ports;
  nodes = peer_infos 0 n.peer_rpc_ports n;
  leader_id = n.leader_id;
}
