-- ===== src/Raft/Rpc/Documents.antt =====
-- The answers of handle_node_client in src/rpc_server.cpp as documents, with getStatus of
-- src/raft_node.cpp and Metrics::toJson of src/metrics.h. The two times of the metrics are never
-- set by the program; `uptime` is the age of the counters in seconds.
use kv_store_project.Prelude.{ℕ, Bool, [], ◌∷◌, Option, none, some, map, if◌then◌else◌}
use kv_store_project.Prelude.Int.{pos}
use kv_store_project.Prelude.Text.{Bytes, is_empty, codes}
use kv_store_project.Prelude.Map.{Map}
use kv_store_project.Raft.State.{NodeState, RaftEntry, Metrics}
use kv_store_project.Raft.Vote.{RequestVoteResponse}
use kv_store_project.Raft.Install.{InstallSnapshotReply}
use kv_store_project.Raft.Answers.{Answer, Status, LogSizes, Logs, PeerInfo, ClusterInfo}
use kv_store_project.Raft.Rpc.Library.{Library}

-- getRoleString
unfoldable pub role_name : NodeState → Bytes
role_name NodeState.leader = codes "Leader"
role_name NodeState.candidate = codes "Candidate"
role_name NodeState.follower = codes "Follower"

module _ (L : Library) where
  open L use {Json, int, bool, text, array, object}

  -- {"error": message}
  unfoldable pub error_json : Bytes → Json
  error_json message = object ((codes "error", text message) ∷ [])

  -- {"status": "error", "msg": message}
  unfoldable pub failure_json : Bytes → Bytes → Json
  failure_json name message =
      object ((codes "status", text (codes "error")) ∷ (name, text message) ∷ [])

  unfoldable pub ok_json : Map Json → Json
  ok_json members = object ((codes "status", text (codes "OK")) ∷ members)

  unfoldable pub vote_response_json : RequestVoteResponse → Json
  vote_response_json r =
      object ((codes "term", int (pos r.term)) ∷ (codes "voteGranted", bool r.vote_granted) ∷ [])

  unfoldable pub append_response_json : ℕ → Bool → Json
  append_response_json term success =
      object ((codes "term", int (pos term)) ∷ (codes "success", bool success) ∷ [])

  -- A chunk that is taken has no error.
  unfoldable pub install_reply_json : InstallSnapshotReply → Json
  install_reply_json r = object (
      (codes "term", int (pos r.term))
      ∷ (codes "success", bool r.success)
      ∷ (if is_empty r.error then [] else (codes "error", text r.error) ∷ []))

  unfoldable pub answer_json : Answer → Json
  unfolding ok_json failure_json error_json
  answer_json (Answer.redirect leader_id) =
      object ((codes "status", text (codes "redirect")) ∷ (codes "leaderId", int leader_id) ∷ [])
  answer_json Answer.ok = ok_json []
  answer_json (Answer.ok_value value) = ok_json ((codes "value", text value) ∷ [])
  answer_json (Answer.failure message) = failure_json (codes "msg") message
  answer_json Answer.invalid_json = error_json (codes "Invalid JSON")

  unfoldable pub status_json : Status → Json
  unfolding ok_json role_name
  status_json s = ok_json (
      (codes "node_id", int (pos s.node_id))
      ∷ (codes "term", int (pos s.term))
      ∷ (codes "role", text (role_name s.role))
      ∷ (codes "leader_id", int s.leader_id)
      ∷ (codes "commit_index", int s.commit_index)
      ∷ (codes "last_applied", int (pos s.last_applied))
      ∷ (codes "log_size", int (pos s.log_size))
      ∷ (codes "voted_for", int s.voted_for)
      ∷ (codes "snapshot_count", int (pos s.snapshot_count))
      ∷ (codes "last_snapshot_index", int (pos s.last_snapshot_index))
      ∷ [])

  unfoldable pub metrics_json : ℕ → Metrics → Json
  unfolding ok_json role_name
  metrics_json uptime m = ok_json (
      (
        codes "raft_state",
        object (
            (codes "term", int (pos m.current_term))
            ∷ (codes "role", text (role_name m.role))
            ∷ (codes "voted_for", int m.voted_for)
            ∷ (codes "leader_id", int m.leader_id)
            ∷ []),
      )
      ∷ (
        codes "log_state",
        object (
            (codes "log_size", int (pos m.log_size))
            ∷ (codes "commit_index", int m.commit_index)
            ∷ (codes "last_applied", int (pos m.last_applied))
            ∷ []),
      )
      ∷ (
        codes "snapshots",
        object (
            (codes "count", int (pos m.snapshot_count))
            ∷ (codes "last_index", int (pos m.last_snapshot_index))
            ∷ (codes "last_term", int (pos m.last_snapshot_term))
            ∷ []),
      )
      ∷ (
        codes "elections",
        object (
            (codes "election_count", int (pos m.election_count))
            ∷ (codes "leader_changes", int (pos m.leader_changes))
            ∷ (codes "votes_received", int (pos m.votes_received))
            ∷ []),
      )
      ∷ (
        codes "rpcs",
        object (
            (codes "append_entries_sent", int (pos m.append_entries_sent))
            ∷ (codes "append_entries_received", int (pos m.append_entries_received))
            ∷ (codes "request_votes_sent", int (pos m.request_votes_sent))
            ∷ (codes "request_votes_received", int (pos m.request_votes_received))
            ∷ (codes "install_snapshots_sent", int (pos m.install_snapshots_sent))
            ∷ (codes "install_snapshots_received", int (pos m.install_snapshots_received))
            ∷ []),
      )
      ∷ (
        codes "client_requests",
        object (
            (codes "received", int (pos m.client_requests_received))
            ∷ (codes "succeeded", int (pos m.client_requests_succeeded))
            ∷ (codes "failed", int (pos m.client_requests_failed))
            ∷ (codes "redirected", int (pos m.client_requests_redirected))
            ∷ []),
      )
      ∷ (
        codes "performance",
        object (
            (codes "total_processing_time_ms", int (pos 0))
            ∷ (codes "avg_response_time_ms", int (pos 0))
            ∷ []),
      )
      ∷ (codes "uptime_seconds", int (pos uptime))
      ∷ [])

  unfoldable pub log_sizes_json : LogSizes → Json
  unfolding ok_json
  log_sizes_json s = ok_json (
      (codes "total_log_size", int (pos s.total_log_size))
      ∷ (codes "physical_log_size", int (pos s.physical_log_size))
      ∷ (codes "snapshot_index", int (pos s.snapshot_index))
      ∷ (codes "commit_index", int s.commit_index)
      ∷ (codes "last_applied", int (pos s.last_applied))
      ∷ [])

  unfoldable pub snapshot_now_json : Option (ℕ × ℕ) → Json
  unfolding ok_json failure_json
  snapshot_now_json none =
      failure_json (codes "message") (codes "Failed to create snapshot (log may be empty)")
  snapshot_now_json (some (index, term)) = ok_json (
      (codes "message", text (codes "Snapshot created successfully"))
      ∷ (codes "snapshot_index", int (pos index))
      ∷ (codes "snapshot_term", int (pos term))
      ∷ [])

  unfoldable pub listed_entry_json : RaftEntry → Json
  listed_entry_json e = object (
      (codes "index", int (pos e.index))
      ∷ (codes "term", int (pos e.term))
      ∷ (codes "command", text e.command)
      ∷ [])

  unfoldable pub logs_json : Logs → Json
  unfolding ok_json listed_entry_json
  logs_json l = ok_json (
      (codes "logs", array (map listed_entry_json l.logs))
      ∷ (codes "total_count", int (pos l.total_count))
      ∷ (codes "returned_count", int (pos l.returned_count))
      ∷ [])

  unfoldable pub peer_info_json : PeerInfo → Json
  peer_info_json p = object (
      (codes "node_id", int (pos p.node_id))
      ∷ (codes "port", int (pos p.port))
      ∷ (codes "next_index", int p.next_index)
      ∷ (codes "match_index", int p.match_index)
      ∷ [])

  unfoldable pub cluster_info_json : ClusterInfo → Json
  unfolding ok_json peer_info_json
  cluster_info_json c = ok_json (
      (codes "current_node_id", int (pos c.current_node_id))
      ∷ (codes "cluster_size", int (pos c.cluster_size))
      ∷ (codes "nodes", array (map peer_info_json c.nodes))
      ∷ (codes "leader_id", int c.leader_id)
      ∷ [])
