-- ===== src/Raft/Rpc/Handler.antt =====
-- handle_node_client of src/rpc_server.cpp: from the text that recv has put into the buffer to the
-- document of the answer. That the server has been stopped (`stopRPC`) is left out.
use kv_store_project.Prelude.{ℕ, false, List, Option, none, some, take, if◌then◌else◌}
use kv_store_project.Prelude.Int.{ℤ, pos}
use kv_store_project.Prelude.Text.{Bytes, is_empty, codes, bytes_eq}
use kv_store_project.Raft.State.{World, Env, Snapshot}
use kv_store_project.Raft.Vote.{RequestVoteRpc, request_vote}
use kv_store_project.Raft.Append.{
  AppendEntriesRpc, AppendReply, answers, null_reply, blocked, invalid_json, append_entries,
}
use kv_store_project.Raft.Install.{InstallSnapshotRpc, install_snapshot}
use kv_store_project.Raft.Client.{PeerReply}
use kv_store_project.Raft.Answers.{
  Request, client_request, get_status, get_metrics, get_log_sizes, snapshot_now, get_logs,
  get_cluster_info,
}
use kv_store_project.Raft.Rpc.Library.{Library}
use kv_store_project.Raft.Rpc.Messages.{
  Reading, reads, throws, unmodelled, read_request_vote, read_append_entries, read_install_snapshot,
  read_client_request,
}
use kv_store_project.Raft.Rpc.Documents.{
  error_json, vote_response_json, append_response_json, install_reply_json, answer_json,
  status_json, metrics_json, log_sizes_json, snapshot_now_json, logs_json, cluster_info_json,
}

-- `buffer`, less the byte behind the text
abbrev pub request_buffer : ℕ
request_buffer = 8191

-- What a handler finds around it besides the `Env`: the fields of a snapshot before they are read,
-- the replies of the peers to a client's command, and the age of the counters
pub record Surroundings : Type 0 where
  pub env : Env
  pub old : Snapshot
  pub replies : List (Option PeerReply)
  pub uptime : ℕ

module _ (L : Library) where
  open L use {Json, parse, null, value_int, at_text}

  -- The answer that is sent, a connection that is closed or left without one, or a request that the
  -- model leaves open
  pub data Handled : Type 0 where
    responds : World → Json → Handled
    silent : World → Handled
    left_open : Handled

  -- The document that the outer `catch` sends
  abbrev pub invalid : World → Handled
  invalid w = responds w (error_json L (codes "Invalid JSON"))

  unfoldable pub append_reply : World × AppendReply → Handled
  append_reply (w, answers term success) = responds w (append_response_json L term success)
  append_reply (w, null_reply) = responds w null
  append_reply (w, blocked) = silent w
  append_reply (w, invalid_json) = invalid w

  unfoldable pub vote_branch : Reading RequestVoteRpc → World → Handled
  vote_branch throws w = invalid w
  vote_branch unmodelled w = left_open
  vote_branch (reads r) w =
      let (w', response) = request_vote r w in responds w' (vote_response_json L response)

  unfoldable pub append_branch : Env → Reading AppendEntriesRpc → World → Handled
  unfolding append_reply
  append_branch env throws w = invalid w
  append_branch env unmodelled w = left_open
  append_branch env (reads r) w = append_reply (append_entries env r w)

  -- This branch has a `catch` of its own.
  unfoldable pub install_branch : Snapshot → Reading InstallSnapshotRpc → World → Handled
  install_branch old throws w = responds w (
      install_reply_json L
        (record { term = w.node.current_term; success = false; error = codes "handler_failed" }))
  install_branch old unmodelled w = left_open
  install_branch old (reads r) w =
      let (w', reply) = install_snapshot old r w in responds w' (install_reply_json L reply)

  unfoldable pub client_branch : Env → List (Option PeerReply) → Reading Request → World → Handled
  client_branch env replies throws w = invalid w
  client_branch env replies unmodelled w = left_open
  client_branch env replies (reads r) w =
      let (w', answer) = client_request env replies r w in responds w' (answer_json L answer)

  unfoldable pub logs_branch : Option ℤ → World → Handled
  logs_branch none w = invalid w
  logs_branch (some count) w = responds w (logs_json L (get_logs count w.node))

  -- The branch of each `rpcType`
  unfoldable pub dispatch_rpc : Surroundings → Bytes → Json → World → Handled
  unfolding bytes_eq vote_branch append_branch install_branch client_branch logs_branch
  dispatch_rpc s kind j w =
      if bytes_eq kind (codes "RequestVote")
      then vote_branch (read_request_vote L j) w
      else if bytes_eq kind (codes "AppendEntries")
      then append_branch s.env (read_append_entries L j) w
      else if bytes_eq kind (codes "ClientRequest")
      then client_branch s.env s.replies (read_client_request L j) w
      else if bytes_eq kind (codes "STATUS")
      then (let (n, status) = get_status w.node in
          responds (record w { node = n }) (status_json L status))
      else if bytes_eq kind (codes "METRICS")
      then (let (n, metrics) = get_metrics w.node in
          responds (record w { node = n }) (metrics_json L s.uptime metrics))
      else if bytes_eq kind (codes "LOGSIZE")
      then responds w (log_sizes_json L (get_log_sizes w.node))
      else if bytes_eq kind (codes "SNAPSHOT_NOW")
      then (let (w', taken) = snapshot_now s.env w in responds w' (snapshot_now_json L taken))
      else if bytes_eq kind (codes "GET_LOGS")
      then logs_branch (value_int (codes "count") (pos 10) j) w
      else if bytes_eq kind (codes "CLUSTER_INFO")
      then responds w (cluster_info_json L (get_cluster_info w.node))
      else if bytes_eq kind (codes "InstallSnapshot")
      then install_branch s.old (read_install_snapshot L j) w
      else responds w (error_json L (codes "Unknown RPC"))

  unfoldable pub handle_document : Surroundings → Json → World → Handled
  unfolding dispatch_rpc
  handle_document s j w = elim (at_text (codes "rpc") j) [
    | none ↦ invalid w
    | some kind ↦ dispatch_rpc s kind j w
  ]

  -- The first text that recv brings, cut where the buffer ends
  unfoldable pub handle_node_client : Surroundings → Bytes → World → Handled
  unfolding handle_document
  handle_node_client s sent w =
      if is_empty sent then silent w else elim (parse (take request_buffer sent)) [
        | none ↦ invalid w
        | some j ↦ handle_document s j w
      ]
