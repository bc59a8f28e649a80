-- ===== src/Raft/Submit.antt =====
-- handleClientCommand of src/raft_node.cpp of a leader without a snapshot, with the AppendEntries
-- handlers of its peers at the other end of sendRPC. What the network does with the message to each
-- peer is an argument. What a message says of the leader (its term, its log, its commit index and
-- the next index of that peer) is not changed by the peers before it, unless one of them makes the
-- leader step down, which ends the loop.
pub mod Stored
pub mod Majority
pub mod Unstored
mod Examples
use kv_store_project.Prelude.{
  ℕ, ◌+◌, Bool, true, false, not, ◌&&◌, List, [], ◌∷◌, Option, none, some, ltb, map, if◌then◌else◌,
}
use kv_store_project.Prelude.Int.{pos, sub_ℕ}
use kv_store_project.Prelude.Text.{Bytes}
use kv_store_project.Raft.State.{Node, World, Env}
use kv_store_project.Raft.Log.{get_log_size, get_log_term, get_log_entries}
use kv_store_project.Raft.Apply.{send_command}
use kv_store_project.Raft.Append.{AppendEntriesRpc, AppendReply, append_entries}
use kv_store_project.Raft.Client.{
  PeerReply, ClientResult, next_of, append_command, is_leader, seen, handle_client_command,
}
use kv_store_project.Raft.Heartbeat.{AppendEntriesResponse, response_of}
use kv_store_project.Raft.Cluster.{Delivery}

-- The message to a peer whose next index is `next`: all entries from there to the new one
unfoldable pub client_message : ℕ → ℕ → Node → AppendEntriesRpc
client_message new_index next n = record {
  term = n.current_term;
  leader_id = pos n.id;
  prev_log_index = sub_ℕ next 1;
  prev_log_term = get_log_term n (sub_ℕ next 1);
  entries = get_log_entries n next (new_index + 1);
  leader_commit = n.commit_index;
}

-- The answer as the leader counts it; no snapshot is sent.
abbrev pub peer_reply : Option AppendEntriesResponse → Option PeerReply
peer_reply none = none
peer_reply (some resp) =
    some (record { term = resp.term; success = resp.success; chunks_sent = 0; transferred = false })

unfoldable pub pass : Delivery → Env → AppendEntriesRpc → World → World × Option PeerReply
pass Delivery.lost env r w = (w, none)
pass Delivery.unanswered env r w = ((append_entries env r w).0, none)
pass Delivery.answered env r w =
    ((append_entries env r w).0, peer_reply (response_of (append_entries env r w).1))

abbrev pub ends_term : ℕ → Option PeerReply → Bool
ends_term term none = false
ends_term term (some reply) = ltb term reply.term

-- A peer with its link to the leader
abbrev pub Peers : Type 0
Peers = List (World × Delivery)

-- The loop over the peers from number `i` on: their states and what comes back
unfoldable pub pass_all : Env → ℕ → ℕ → Node → Peers → List World × List (Option PeerReply)
unfolding pass client_message
pass_all env i new_index n [] = ([], [])
pass_all env i new_index n ((w, link) ∷ peers) =
    let (w', reply) = pass link env (client_message new_index (next_of n i) n) w in
    let rest = pass_all env (i + 1) new_index n peers in
    if ends_term n.current_term reply
    then (w' ∷ map (λ (p : World × Delivery). p.0) peers, reply ∷ [])
    else (w' ∷ rest.0, reply ∷ rest.1)

-- The command is a new one for a leader that runs.
abbrev pub takes_command : Bytes → ℕ → Node → Bool
takes_command client_id request_id n =
    not n.shutdown_requested && is_leader n.state && not (seen client_id request_id n)

unfoldable pub submit :
    Env
    → Env
    → Peers
    → Bytes
    → ℕ
    → Bytes
    → Bytes
    → Bytes
    → World
    → World × ClientResult × List World
unfolding pass_all
submit env env' peers client_id request_id command key value w =
    let l = append_command (send_command command key value) w in
    let (peers', replies) =
      if takes_command client_id request_id w.node
      then pass_all env' 0 (get_log_size w.node) l.node peers
      else (map (λ (p : World × Delivery). p.0) peers, []) in
    let (w', result) = handle_client_command env replies client_id request_id command key value w in
    (w', result, peers')
