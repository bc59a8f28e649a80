-- ===== src/Server/Display/Examples.antt =====
-- The screens at a follower with one entry and one peer.
use kv_store_project.Prelude.{◌≡◌, [], ◌∷◌}
use kv_store_project.Prelude.Int.{pos, minus_one}
use kv_store_project.Prelude.Text.{codes}
use kv_store_project.Raft.State.{NodeState}
use kv_store_project.Raft.Persist.{new_metrics}
use kv_store_project.Raft.Answers.{Status, LogSizes, Logs, ClusterInfo}
use kv_store_project.Raft.Rpc.Sample.{sample, sample-IsLawful}
use kv_store_project.Raft.Rpc.Documents.{
  failure_json, status_json, metrics_json, log_sizes_json, logs_json, cluster_info_json,
}
use kv_store_project.Server.Display.Live.{show_metrics, show_round}
use kv_store_project.Server.Display.{
  shown, throws, show_status, show_log_sizes, show_snapshot, show_logs, show_cluster,
}
use kv_store_project.Server.Display.Answers.{status_rows, log_size_rows, log_rows, cluster_rows}
use kv_store_project.Server.Display.Counters.{metrics_rows, watch_rows}
use kv_store_project.Server.Display.Screens.{screens}

abbrev status : Status
status = record {
  node_id = 1;
  term = 3;
  role = NodeState.follower;
  leader_id = pos 0;
  commit_index = pos 0;
  last_applied = 0;
  log_size = 1;
  voted_for = minus_one;
  snapshot_count = 0;
  last_snapshot_index = 0;
}

abbrev sizes : LogSizes
sizes = record {
  total_log_size = 1;
  physical_log_size = 1;
  snapshot_index = 0;
  commit_index = pos 0;
  last_applied = 0;
}

abbrev logs : Logs
logs = record {
  logs = record { term = 3; index = 0; command = codes "PUT a 1" } ∷ [];
  total_count = 1;
  returned_count = 1;
}

abbrev cluster : ClusterInfo
cluster = record {
  current_node_id = 1;
  cluster_size = 2;
  nodes = record { node_id = 0; port = 5000; next_index = pos 1; match_index = minus_one } ∷ [];
  leader_id = pos 0;
}

screens_example :
    (show_status sample (status_json sample status) ≡ shown (status_rows status))
    × (show_log_sizes sample (log_sizes_json sample sizes) ≡ shown (log_size_rows sizes))
    × (show_logs sample (logs_json sample logs) ≡ shown (log_rows logs))
    × (show_cluster sample (cluster_info_json sample cluster) ≡ shown (cluster_rows cluster))
    × (show_metrics sample (metrics_json sample 7 new_metrics) ≡ shown (metrics_rows 7 new_metrics))
    × (show_round sample (metrics_json sample 7 new_metrics) ≡ shown (watch_rows 7 new_metrics))
    × (show_snapshot sample (failure_json sample (codes "msg") (codes "All nodes unreachable"))
        ≡ throws)
screens_example = screens sample sample-IsLawful status sizes logs cluster 7 new_metrics
