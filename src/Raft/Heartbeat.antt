-- ===== src/Raft/Heartbeat.antt =====
-- send_heartbeats of src/raft_node.cpp: the turn of one peer and a round over all of them. What
-- comes back from a peer is an argument: `none` for an empty text or one that cannot be read as a
-- response. The flags `running_heartbeats` and `shutdown_requested` are set by other threads, so a
-- turn that no one disturbs reads the same at each of its tests. A chunk of 512 bytes makes a
-- message below the limit of 2040 characters, so the branch that halves the size is left out.

pub mod Keeps
pub mod Agreement
pub mod Lost
pub mod Refusal
pub mod Backoff
pub mod Transfer
mod Examples
use kv_store_project.Prelude.{
  ℕ, zero, suc, ◌+◌, ◌-◌, Bool, true, false, ◌&&◌, not, List, [], ◌∷◌, Option, none, some, ltb, leb,
  length, set, min, if◌then◌else◌,
}
use kv_store_project.Prelude.Int.{pos, sub_ℕ}
use kv_store_project.Raft.State.{Node, NodeState, World, Env, RaftEntry, Snapshot}
use kv_store_project.Raft.Log.{get_log_size, get_log_term, get_log_entries}
use kv_store_project.Raft.Persist.{persist_metadata}
use kv_store_project.Raft.Role.{step_down}
use kv_store_project.Raft.Snapshots.{is_empty_list}
use kv_store_project.Raft.Append.{
  AppendEntriesRpc, AppendReply, answers, invalid_json, append_entries,
}
use kv_store_project.Raft.Client.{next_of, count_append, is_leader}
use kv_store_project.Raft.Install.{serialize_snapshot, chunk_message, chunk_count}

-- struct AppendEntriesResponse
pub record AppendEntriesResponse : Type 0 where
  pub term : ℕ
  pub success : Bool

-- MAX_ENTRIES_PER_BATCH
abbrev pub max_entries_per_batch : ℕ
max_entries_per_batch = 20

-- The entries from the next index of the peer on
unfoldable pub batch : ℕ → Node → List RaftEntry
batch next n =
    if ltb next (get_log_size n)
    then get_log_entries n next (min (next + max_entries_per_batch) (get_log_size n))
    else []

-- The message to the peer whose next index is `next`
unfoldable pub heartbeat_message : ℕ → Node → AppendEntriesRpc
heartbeat_message next n = record {
  term = n.current_term;
  leader_id = pos n.id;
  prev_log_index = sub_ℕ next 1;
  prev_log_term = get_log_term n (sub_ℕ next 1);
  entries = batch next n;
  leader_commit = n.commit_index;
}

-- The peer's indices, where it has all before `next`
abbrev pub advance_peer : ℕ → ℕ → Node → Node
advance_peer i next n = record n {
  next_index = set n.next_index i next;
  match_index = set n.match_index i (sub_ℕ next 1);
}

abbrev pub count_chunk : World → World
count_chunk w = record w {
  node = record w.node {
    metrics = record w.node.metrics {
      install_snapshots_sent = w.node.metrics.install_snapshots_sent + 1;
    };
  };
}

-- `chunkSize`
abbrev pub chunk_size : ℕ
chunk_size = 512

-- The loop over `left` chunks from number `num` on, up to the first that is not accepted.
-- `replies num` is the `success` of the answer to a chunk, `none` where no answer can be read.
unfoldable pub send_chunks : ℕ → ℕ → (ℕ → Option Bool) → ℕ → Snapshot → World → World
send_chunks zero num replies i snap w = w
send_chunks (suc left) num replies i snap w =
    let w1 = count_chunk w in
    let message =
      chunk_message w.node.current_term w.node.id chunk_size (serialize_snapshot snap) num in
    elim (replies num) [
      | none ↦ w1
      | some false ↦ w1
      | some true ↦ send_chunks left (num + 1) replies i snap (
          if message.done
          then record w1 { node = advance_peer i (snap.last_included_index + 1) w1.node }
          else w1)
    ]

unfoldable pub send_snapshot : (ℕ → Option Bool) → ℕ → Snapshot → World → World
unfolding send_chunks
send_snapshot replies i snap w =
    send_chunks (chunk_count chunk_size (serialize_snapshot snap)) 0 replies i snap w

-- The snapshot that a peer at `next` must be sent first
abbrev pub needed_snapshot : ℕ → Option Snapshot → Option Snapshot
needed_snapshot next none = none
needed_snapshot next (some snap) = if leb next snap.last_included_index then some snap else none

-- A newer term: the leader steps down and its thread returns.
unfoldable pub leave_office : Env → ℕ → World → World
unfolding step_down persist_metadata
leave_office env term w = persist_metadata (record w {
  node = record (step_down term w.node) { running_heartbeats = false; last_heartbeat = env.now };
})

-- What the answer to a heartbeat does; `true` where the thread returns.
unfoldable pub note_response :
    Env → ℕ → ℕ → List RaftEntry → AppendEntriesResponse → World → World × Bool
unfolding leave_office
note_response env i next entries resp w =
    if ltb w.node.current_term resp.term
    then (leave_office env resp.term w, true)
    else if resp.success && not (is_empty_list entries)
    then (record w { node = advance_peer i (next + length entries) w.node }, false)
    else if resp.success
    then (w, false)
    else (
      record w {
        node = record w.node { next_index = set w.node.next_index i (next_of w.node i - 1) };
      },
      false,
    )

-- The turn of peer number `i`
unfoldable pub beat_peer :
    Env → ℕ → Option AppendEntriesResponse → (ℕ → Option Bool) → World → World × Bool
unfolding note_response
beat_peer env i reply chunk_replies w =
    let next = next_of w.node i in
    elim (needed_snapshot next w.node.latest_snapshot) [
      | some snap ↦ (send_snapshot chunk_replies i snap w, false)
      | none ↦ elim reply [
        | none ↦ (count_append w, false)
        | some resp ↦ note_response env i next (batch next w.node) resp (count_append w)
      ]
    ]

-- The answer of a peer, as the leader reads it; the error document has neither member of a response,
-- so that their defaults are read.
abbrev pub response_of : AppendReply → Option AppendEntriesResponse
response_of (answers term success) = some (record { term = term; success = success })
response_of invalid_json = some (record { term = 0; success = false })
response_of _ = none

-- A turn with peer number `i`, whose state is `w`, of a leader that has no snapshot: one that has
-- may send it instead of the message, which this does not say.
unfoldable pub exchange : Env → Env → ℕ → World → World → World × World
exchange env env' i l w =
    let (w', reply) = append_entries env' (heartbeat_message (next_of l.node i) l.node) w in
    ((beat_peer env i (response_of reply) (λ k. none) l).0, w')

-- What the peers send back in a round
pub record Replies : Type 0 where
  pub responses : ℕ → Option AppendEntriesResponse
  pub chunks : ℕ → ℕ → Option Bool

-- The loop over `left` peers from number `i` on
unfoldable pub beat_from : ℕ → ℕ → Env → Replies → World → World × Bool
beat_from zero i env replies w = (w, false)
beat_from (suc left) i env replies w =
    let (w1, returns) = beat_peer env i (replies.responses i) (replies.chunks i) w in
    let rest = beat_from left (i + 1) env replies w1 in if returns then (w1, true) else rest

-- One round of the thread; `true` where it ends.
unfoldable pub heartbeat_round : Env → Replies → World → World × Bool
unfolding beat_from
heartbeat_round env replies w =
    if w.node.running_heartbeats && is_leader w.node.state && not w.node.shutdown_requested
    then beat_from (length w.node.peer_rpc_ports) 0 env replies w
    else (w, true)
