-- ===== src/Server/Display/Live.antt =====
-- What METRICS and each round of WATCH show, in handle_client of src/server.cpp.
use kv_store_project.Prelude.{List, [], ◌∷◌, ◌++◌, Option, some, if◌then◌else◌}
use kv_store_project.Prelude.Text.{Bytes, codes}
use kv_store_project.Prelude.Words.{◌>>=◌}
use kv_store_project.Raft.Rpc.Library.{Library}
use kv_store_project.Server.Display.{
  Row, Display, shown, failed, Field, number_of, words_of, display, is_ok, show_fields,
  show_sections,
}

-- METRICS; the two lines of an RPC are a row for each of their numbers.
abbrev pub metrics_sections : List (Bytes × List Field)
metrics_sections =
    (
      codes "raft_state",
      number_of (codes "Term") (codes "term")
          ∷ words_of (codes "Role") (codes "role")
          ∷ number_of (codes "Leader ID") (codes "leader_id")
          ∷ number_of (codes "Voted For") (codes "voted_for")
          ∷ [],
    )
    ∷ (
      codes "log_state",
      number_of (codes "Log Size") (codes "log_size")
          ∷ number_of (codes "Commit Index") (codes "commit_index")
          ∷ number_of (codes "Last Applied") (codes "last_applied")
          ∷ [],
    )
    ∷ (
      codes "snapshots",
      number_of (codes "Count") (codes "count")
          ∷ number_of (codes "Last Index") (codes "last_index")
          ∷ number_of (codes "Last Term") (codes "last_term")
          ∷ [],
    )
    ∷ (
      codes "elections",
      number_of (codes "Elections") (codes "election_count")
          ∷ number_of (codes "Leader Changes") (codes "leader_changes")
          ∷ number_of (codes "Votes Received") (codes "votes_received")
          ∷ [],
    )
    ∷ (
      codes "rpcs",
      number_of (codes "AppendEntries sent") (codes "append_entries_sent")
          ∷ number_of (codes "AppendEntries recv") (codes "append_entries_received")
          ∷ number_of (codes "RequestVote sent") (codes "request_votes_sent")
          ∷ number_of (codes "RequestVote recv") (codes "request_votes_received")
          ∷ number_of (codes "InstallSnapshot sent") (codes "install_snapshots_sent")
          ∷ number_of (codes "InstallSnapshot recv") (codes "install_snapshots_received")
          ∷ [],
    )
    ∷ (
      codes "client_requests",
      number_of (codes "Received") (codes "received")
          ∷ number_of (codes "Succeeded") (codes "succeeded")
          ∷ number_of (codes "Failed") (codes "failed")
          ∷ number_of (codes "Redirected") (codes "redirected")
          ∷ [],
    )
    ∷ (codes "performance", number_of (codes "Avg Response") (codes "avg_response_time_ms") ∷ [])
    ∷ []

-- A round of WATCH
abbrev pub watch_sections : List (Bytes × List Field)
watch_sections =
    (
      codes "raft_state",
      number_of (codes "Term") (codes "term")
          ∷ words_of (codes "Role") (codes "role")
          ∷ number_of (codes "Leader ID") (codes "leader_id")
          ∷ [],
    )
    ∷ (
      codes "log_state",
      number_of (codes "Log Size") (codes "log_size")
          ∷ number_of (codes "Commit Index") (codes "commit_index")
          ∷ number_of (codes "Last Applied") (codes "last_applied")
          ∷ [],
    )
    ∷ (
      codes "snapshots",
      number_of (codes "Count") (codes "count")
          ∷ number_of (codes "Last Index") (codes "last_index")
          ∷ [],
    )
    ∷ (
      codes "elections",
      number_of (codes "Count") (codes "election_count")
          ∷ number_of (codes "Leader Changes") (codes "leader_changes")
          ∷ [],
    )
    ∷ (
      codes "rpcs",
      number_of (codes "AppendEntries sent") (codes "append_entries_sent")
          ∷ number_of (codes "AppendEntries recv") (codes "append_entries_received")
          ∷ number_of (codes "RequestVote sent") (codes "request_votes_sent")
          ∷ number_of (codes "RequestVote recv") (codes "request_votes_received")
          ∷ [],
    )
    ∷ (
      codes "client_requests",
      number_of (codes "Total") (codes "received")
          ∷ number_of (codes "Succeeded") (codes "succeeded")
          ∷ number_of (codes "Failed") (codes "failed")
          ∷ [],
    )
    ∷ []

module _ (L : Library) where
  open L use {Json}

  -- The sections, with the uptime behind them
  unfoldable pub show_sections_and_uptime : List (Bytes × List Field) → Json → Option (List Row)
  show_sections_and_uptime sections j = do
    rows ← show_sections L sections j
    uptime ← show_fields L (number_of (codes "Uptime") (codes "uptime_seconds") ∷ []) j
    some (rows ++ uptime)

  unfoldable pub show_metrics : Json → Display
  show_metrics j =
      if is_ok L j
      then display (show_sections_and_uptime metrics_sections j)
      else failed (codes "Failed to get metrics")

  -- Nothing is sent in a round whose answer is not OK.
  unfoldable pub show_round : Json → Display
  show_round j = if is_ok L j then display (show_sections_and_uptime watch_sections j) else shown []
