-- ===== src/Raft/Samples.antt =====
-- A node, a world and requests on which the theorems are run.
use kv_store_project.Prelude.{true, false, [], ◌∷◌, none}
use kv_store_project.Prelude.Int.{pos, minus_one}
use kv_store_project.Prelude.Text.{codes}
use kv_store_project.KvStore.{construct}
use kv_store_project.Raft.State.{Node, NodeState, World, Env, RaftEntry}
use kv_store_project.Raft.Persist.{new_metrics}
use kv_store_project.Raft.Vote.{RequestVoteRpc}

abbrev pub entry_0 : RaftEntry
entry_0 = record { term = 1; index = 0; command = codes "PUT a 1" }

abbrev pub entry_1 : RaftEntry
entry_1 = record { term = 2; index = 1; command = codes "PUT b x y" }

abbrev pub entry_2 : RaftEntry
entry_2 = record { term = 2; index = 2; command = codes "DELETE a" }

abbrev pub entry_3 : RaftEntry
entry_3 = record { term = 2; index = 3; command = codes "PUT c 3" }

abbrev pub env : Env
env = record { now = 100; rand = 7; can_open = true }

-- A follower of term 2 with two entries, the second one committed.
abbrev pub node : Node
node = record {
  shutdown_requested = false;
  id = 1;
  leader_id = minus_one;
  state = NodeState.follower;
  current_term = 2;
  voted_for = minus_one;
  log = entry_0 ∷ entry_1 ∷ [];
  commit_index = pos 1;
  last_applied = 0;
  election_timeout = 0;
  last_heartbeat = 0;
  peer_rpc_ports = 5001 ∷ 5002 ∷ [];
  match_index = minus_one ∷ minus_one ∷ [];
  next_index = 0 ∷ 0 ∷ [];
  running_heartbeats = false;
  client_last_request = [];
  client_result_cache = [];
  latest_snapshot = none;
  snapshot_buffer = [];
  receiving_snapshot = false;
  snapshot_leader_id = minus_one;
  metrics = new_metrics;
}

abbrev pub world : World
world = record { node = node; store = construct none; metadata_file = none; snapshot_file = none }

-- The same one with both entries applied
abbrev pub applied : World
applied = record world { node = record node { last_applied = 1 } }

abbrev pub ask : RequestVoteRpc
ask = record { term = 3; candidate_id = pos 2; last_log_index = pos 1; last_log_term = 2 }
