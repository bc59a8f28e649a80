-- ===== src/Server/Display/Screens.antt =====
-- All the screens together.
use kv_store_project.Prelude.{ℕ, ◌≡◌}
use kv_store_project.Prelude.Text.{codes}
use kv_store_project.Raft.State.{Metrics}
use kv_store_project.Raft.Answers.{Status, LogSizes, Logs, ClusterInfo}
use kv_store_project.Raft.Rpc.Library.{Library, IsLawful}
use kv_store_project.Raft.Rpc.Documents.{
  failure_json, status_json, metrics_json, log_sizes_json, logs_json, cluster_info_json,
}
use kv_store_project.Server.Display.Live.{show_metrics, show_round}
use kv_store_project.Server.Display.{
  shown, throws, show_status, show_log_sizes, show_snapshot, show_logs, show_cluster,
}
use kv_store_project.Server.Display.Answers.{
  status_rows, log_size_rows, log_rows, cluster_rows, status_screen, log_sizes_screen, logs_screen,
  cluster_screen, unreached_screen,
}
use kv_store_project.Server.Display.Counters.{
  metrics_rows, watch_rows, metrics_screen, watch_screen,
}

-- The screens of STATUS, LOGSIZE, LOGS, CLUSTER, METRICS and WATCH show, each under its label, the
-- values that the node put into its answer, of a logged command the first forty bytes; no answer of
-- a node makes them throw. SNAPSHOT throws on the answer of sendClientRequest where no node was
-- reached. The library keeps its laws.
pub screens :
    (L : Library)
    → IsLawful L
    → (s : Status) (z : LogSizes) (l : Logs) (c : ClusterInfo) (uptime : ℕ) (m : Metrics)
    → (show_status L (status_json L s) ≡ shown (status_rows s))
      × (show_log_sizes L (log_sizes_json L z) ≡ shown (log_size_rows z))
      × (show_logs L (logs_json L l) ≡ shown (log_rows l))
      × (show_cluster L (cluster_info_json L c) ≡ shown (cluster_rows c))
      × (show_metrics L (metrics_json L uptime m) ≡ shown (metrics_rows uptime m))
      × (show_round L (metrics_json L uptime m) ≡ shown (watch_rows uptime m))
      × (show_snapshot L (failure_json L (codes "msg") (codes "All nodes unreachable")) ≡ throws)
screens L lawful s z l c uptime m = (
  status_screen L lawful s,
  log_sizes_screen L lawful z,
  logs_screen L lawful l,
  cluster_screen L lawful c,
  metrics_screen L lawful uptime m,
  watch_screen L lawful uptime m,
  unreached_screen L lawful (codes "All nodes unreachable"),
)
