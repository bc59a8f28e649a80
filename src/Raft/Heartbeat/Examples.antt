-- ===== src/Raft/Heartbeat/Examples.antt =====
-- Heartbeats of a leader of term 2 with four entries to a follower.
use kv_store_project.Prelude.{
  ℕ, ◌≡◌, ◌≤◌, ◌+◌, ◌-◌, refl, true, [], ◌∷◌, ◌++◌, some, arith, take, drop, length, get_elem?,
}
use kv_store_project.Prelude.Int.{pos}
use kv_store_project.Raft.State.{World, NodeState}
use kv_store_project.Raft.Log.{get_log_size, get_log_term, get_log_entries}
use kv_store_project.Raft.Append.{answers, append_entries, accept_entries, is_consistent}
use kv_store_project.Raft.Client.{next_of}
use kv_store_project.Raft.Samples.{env, node, world, entry_0, entry_1, entry_2, entry_3}
use kv_store_project.Raft.Heartbeat.{
  max_entries_per_batch, heartbeat_message, exchange, batch, chunk_size, send_snapshot,
}
use kv_store_project.Raft.Heartbeat.Transfer.{peer_after, peer_reply, send_snapshot-IsInstalled}
use kv_store_project.Raft.Install.{serialize_snapshot, chunk_count}
use kv_store_project.Raft.Install.Arrival.{IsInstalled}
use kv_store_project.Raft.Install.Samples.{blank, snapshot, snapshot-FitsWire, octets}
use kv_store_project.Raft.Heartbeat.Agreement.{exchange-agreement}
use kv_store_project.Raft.Heartbeat.Lost.{exchange_lost}
use kv_store_project.Raft.Heartbeat.Backoff.{exchanges, Accepts, exchanges-Accepts}

-- The leader; the first peer is at 2, the second at 4.
abbrev leader : World
leader = record world {
  node = record node {
    id = 0;
    state = NodeState.leader;
    log = entry_0 ∷ entry_1 ∷ entry_2 ∷ entry_3 ∷ [];
    next_index = 2 ∷ 4 ∷ [];
    running_heartbeats = true;
  };
}

ok : (append_entries env (heartbeat_message 2 leader.node) world).1 ≡ answers 2 true
unfolding append_entries heartbeat_message accept_entries is_consistent get_log_term batch
    get_log_size get_log_entries
ok = refl

exchange-agreement_example :
    let (l', w') = exchange env env 0 leader world in
    (w'.node.log ≡ take 2 node.log ++ take max_entries_per_batch (drop 2 leader.node.log))
    × (next_of l'.node 0 ≡ length w'.node.log)
    × (get_elem? l'.node.match_index 0 ≡ some (pos (length w'.node.log - 1)))
exchange-agreement_example =
    exchange-agreement env env 0 1 2 leader world entry_2 (entry_3 ∷ []) refl refl
      (refl, (refl, (refl, (refl, tt)))) refl (omega arith) (omega arith) refl ok refl (omega arith)

-- The peer has the first of the two already.
abbrev ahead : World
ahead = record world { node = record node { log = entry_0 ∷ entry_1 ∷ entry_2 ∷ [] } }

passes_there : is_consistent ahead.node (pos 1) (get_log_term leader.node (pos 1)) ≡ true
unfolding is_consistent get_log_term
passes_there = refl

exchange_lost_example :
    let (l', w') = exchange env env 0 leader ahead in next_of l'.node 0 ≡ length w'.node.log + 1
exchange_lost_example =
    exchange_lost env env 0 1 leader ahead (entry_0 ∷ entry_1 ∷ []) [] entry_2 entry_2 entry_3 refl
      refl (omega arith) refl refl refl refl refl refl refl passes_there refl refl

-- The second peer is taken to have all and has two entries.
exchanges-Accepts_example :
    (k : ℕ) × (k ≤ 4)
    × Accepts env 1 2 (exchanges k env env 1 (leader, world))
    × ((exchanges k env env 1 (leader, world)).1.node.log ≡ node.log)
exchanges-Accepts_example =
    exchanges-Accepts env env 1 2 4 leader world (record { bare = refl; term = refl })
      (record { idle = refl; follows = refl; term = refl; room = omega arith }) (omega arith) refl

send_snapshot-IsInstalled_example :
    let bytes = serialize_snapshot snapshot in
    let l' = send_snapshot (peer_reply blank leader bytes ahead) 0 snapshot leader in
    IsInstalled snapshot (peer_after blank leader bytes ahead (chunk_count chunk_size bytes))
    × (next_of l'.node 0 ≡ 301)
    × (get_elem? l'.node.match_index 0 ≡ some (pos 300))
send_snapshot-IsInstalled_example =
    send_snapshot-IsInstalled blank snapshot 0 leader ahead snapshot-FitsWire octets (omega arith)
      (omega arith) (omega arith)
