-- ===== src/Raft/Client.antt =====
-- RaftNode::handleClientCommand of src/raft_node.cpp. What comes back from each peer is an
-- argument, and so is what became of the transfer of a snapshot to it; the shutdown flag is set by
-- other threads only, so each of its tests reads the same.
pub mod Commit
pub mod Again
pub mod Keeps
pub mod Stale
mod Examples
use kv_store_project.Prelude.{
  ℕ, suc, ◌+◌, ◌-◌, ◌/◌, Bool, true, false, ◌&&◌, List, [], ◌∷◌, ◌++◌, Option, none, some, ltb, leb,
  ◌==◌, length, get_elem?, set, if◌then◌else◌,
}
use kv_store_project.Prelude.Int.{ℤ, pos}
use kv_store_project.Prelude.Text.{Bytes, codes}
use kv_store_project.Prelude.Map
use kv_store_project.Raft.State.{Node, NodeState, World, Env, RaftEntry, Snapshot}
use kv_store_project.Raft.Log.{get_log_size, get_log_term, append_log_entry}
use kv_store_project.Raft.Persist.{persist_metadata}
use kv_store_project.Raft.Role.{step_down}
use kv_store_project.Raft.Apply.{send_command, apply_committed}
use kv_store_project.Raft.Snapshots.{take_snapshot}
use kv_store_project.Raft.Append.{snapshot_threshold}

-- A readable response of a peer; the last two say how many chunks were sent and whether the last
-- one was accepted, where a snapshot was sent.
pub record PeerReply : Type 0 where
  pub term : ℕ
  pub success : Bool
  pub chunks_sent : ℕ
  pub transferred : Bool

-- The text that is returned, or an exception from the write-ahead log
pub data ClientResult : Type 0 where
  text : Bytes → ClientResult
  thrown : ClientResult

-- A response of success: the peer has everything up to the new entry.
unfoldable pub note_success : ℕ → ℕ → Node → Node
note_success i new_index n = record n {
  next_index = set n.next_index i (new_index + 1);
  match_index = set n.match_index i (pos new_index);
}

abbrev pub next_of : Node → ℕ → ℕ
next_of n i = elim (get_elem? n.next_index i) [ none ↦ 0 | some k ↦ k ]

-- A refusal: the next index goes down, and a peer that needs the snapshot is sent it.
unfoldable pub note_failure : ℕ → PeerReply → Node → Node
note_failure i reply n =
    let n1 = record n { next_index = set n.next_index i (next_of n i - 1) } in
    elim n1.latest_snapshot [
      | none ↦ n1
      | some snap ↦
          if leb (next_of n1 i) snap.last_included_index
          then (let n2 = record n1 {
            metrics = record n1.metrics {
              install_snapshots_sent = n1.metrics.install_snapshots_sent + reply.chunks_sent;
            };
          } in
              if reply.transferred
              then record n2 {
                next_index = set n2.next_index i (snap.last_included_index + 1);
                match_index = set n2.match_index i (pos snap.last_included_index);
              }
              else n2)
          else n1
    ]

abbrev pub count_append : World → World
count_append w = record w {
  node = record w.node {
    metrics = record w.node.metrics {
      append_entries_sent = w.node.metrics.append_entries_sent + 1;
    };
  };
}

-- One peer: the new count of successes, or `none` where the leader has stepped down.
unfoldable pub replicate_to : ℕ → Option PeerReply → ℕ → ℕ → World → World × Option ℕ
unfolding step_down note_success note_failure persist_metadata
replicate_to i reply new_index count w =
    let w1 = count_append w in
    elim reply [
      | none ↦ (w1, some count)
      | some r ↦
          if ltb w1.node.current_term r.term
          then (persist_metadata (record w1 { node = step_down r.term w1.node }), none)
          else if r.success
          then (record w1 { node = note_success i new_index w1.node }, some (count + 1))
          else (record w1 { node = note_failure i r w1.node }, some count)
    ]

-- The loop over the peers from number `i` on
unfoldable pub replicate_all : ℕ → List (Option PeerReply) → ℕ → ℕ → World → World × Option ℕ
replicate_all i [] new_index count w = (w, some count)
replicate_all i (reply ∷ replies) new_index count w =
    let (w1, counted) = replicate_to i reply new_index count w in
    elim counted [ none ↦ (w1, none) | some more ↦ replicate_all (i + 1) replies new_index more w1 ]

-- The answer is kept for a request that comes again, and all is persisted.
unfoldable pub remember : Bytes → ℕ → Bytes → World → World
unfolding persist_metadata
remember client_id request_id result w = persist_metadata (record w {
  node = record w.node {
    client_last_request = Map.insert client_id request_id w.node.client_last_request;
    client_result_cache = Map.insert client_id result w.node.client_result_cache;
  };
})

-- The entry is applied with everything before it; a long log is replaced by a snapshot.
unfoldable pub commit_entry : Env → Bytes → ℕ → ℕ → World → World × ClientResult
commit_entry env client_id request_id new_index w =
    let w1 = record w { node = record w.node { commit_index = pos new_index } } in
    let (w2, result) = apply_committed env w1 in
    if leb snapshot_threshold (length w2.node.log)
    then (let (w3, done) = take_snapshot env w2 in
        if done then (remember client_id request_id result w3, text result) else (w3, thrown))
    else (remember client_id request_id result w2, text result)

-- The test for the commit
abbrev pub can_commit : ℕ → ℕ → Node → Bool
can_commit new_index count n =
    get_log_term n (pos new_index) == n.current_term
    && ltb ((length n.peer_rpc_ports + 1) / 2) count

-- What follows the loop
unfoldable pub after_replication : Env → Bytes → ℕ → ℕ → World × Option ℕ → World × ClientResult
after_replication env client_id request_id new_index (w, none) =
    (w, text (codes "leader step down"))
after_replication env client_id request_id new_index (w, some count) =
    if can_commit new_index count w.node
    then commit_entry env client_id request_id new_index w
    else (w, text (codes "error: not committed"))

-- The entry is put behind the log.
unfoldable pub append_command : Bytes → World → World
unfolding append_log_entry
append_command command w = record w {
  node =
      append_log_entry
        (record { term = w.node.current_term; index = get_log_size w.node; command = command })
        w.node;
}

abbrev pub is_leader : NodeState → Bool
is_leader NodeState.leader = true
is_leader _ = false

-- The answer of a request that was the client's last one
abbrev pub seen : Bytes → ℕ → Node → Bool
seen client_id request_id n = elim (Map.lookup client_id n.client_last_request) [
  | none ↦ false
  | some k ↦ k == request_id
]

-- `clientResultCache[clientId]`, which makes an empty text where there is none
unfoldable pub recall : Bytes → World → World × ClientResult
recall client_id w = elim (Map.lookup client_id w.node.client_result_cache) [
  | none ↦ (
    record w {
      node = record w.node {
        client_result_cache = Map.insert client_id [] w.node.client_result_cache;
      };
    },
    text [],
  )
  | some result ↦ (w, text result)
]

unfoldable pub handle_client_command :
    Env → List (Option PeerReply) → Bytes → ℕ → Bytes → Bytes → Bytes → World → World × ClientResult
handle_client_command env replies client_id request_id command key value w =
    if w.node.shutdown_requested
    then (w, text (codes "error: shutdown"))
    else if is_leader w.node.state
    then (if seen client_id request_id w.node
        then recall client_id w
        else after_replication env client_id request_id (get_log_size w.node) (
            replicate_all 0 replies (get_log_size w.node) 1
              (append_command (send_command command key value) w)))
    else (w, text (codes "error: not leader"))
