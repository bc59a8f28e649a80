-- ===== src/Raft/Rpc/Examples.antt =====
-- Messages of a leader of term 2 to a follower, with the documents of the sample library.
use kv_store_project.Prelude.{ℕ, zero, suc, ◌≡◌, ◌-◌, refl, true, [], ◌∷◌, some, arith}
use kv_store_project.Prelude.Text.{Bytes}
use kv_store_project.Raft.State.{World, NodeState}
use kv_store_project.Raft.Log.{get_log_size, get_log_term, get_log_entries}
use kv_store_project.Raft.Vote.{request_vote, check_vote, cast_vote}
use kv_store_project.Raft.Append.{append_entries, accept_entries, is_consistent}
use kv_store_project.Raft.Client.{next_of}
use kv_store_project.Raft.Cluster.{Delivery, deliver}
use kv_store_project.Raft.Heartbeat.{heartbeat_message, batch, exchange}
use kv_store_project.Raft.Samples.{env, node, world, ask, entry_0, entry_1, entry_2, entry_3}
use kv_store_project.Raft.Install.Samples.{blank}
use kv_store_project.Raft.Rpc.Messages.{log_entry_json, append_entries_json, request_vote_json}
use kv_store_project.Raft.Rpc.Documents.{append_response_json, vote_response_json, error_json}
use kv_store_project.Raft.Rpc.Handler.{Surroundings, append_reply}
use kv_store_project.Raft.Rpc.Wire.{wire_vote, wire_exchange}
use kv_store_project.Raft.Rpc.Exchange.{wire_exchange-exchange, wire_vote-deliver}
use kv_store_project.Raft.Rpc.Overflow.{wire_exchange_too_long}
use kv_store_project.Raft.Rpc.Sample.{sample, sample-IsLawful, parse}

abbrev around : Surroundings
around = record { env = env; old = blank; replies = []; uptime = 0 }

abbrev leader : World
leader = record world {
  node = record node {
    id = 0;
    state = NodeState.leader;
    log = entry_0 ∷ entry_1 ∷ entry_2 ∷ entry_3 ∷ [];
    next_index = 2 ∷ 4 ∷ [];
    running_heartbeats = true;
  };
}

wire_exchange-exchange_example :
    wire_exchange sample around env 0 leader world ≡ some (exchange env env 0 leader world)
unfolding heartbeat_message batch get_log_size get_log_term get_log_entries append_entries_json
    log_entry_json append_entries accept_entries is_consistent append_reply append_response_json
wire_exchange-exchange_example =
    wire_exchange-exchange sample sample-IsLawful around env 0 leader world (_, refl, omega arith)
      (_, refl, omega arith)

wire_vote-deliver_example :
    wire_vote sample around ask world ≡ some (deliver Delivery.answered ask world)
unfolding request_vote_json vote_response_json request_vote check_vote cast_vote
wire_vote-deliver_example =
    wire_vote-deliver sample sample-IsLawful around ask world (_, refl, omega arith)
      (_, refl, omega arith)

abbrev fill : ℕ → Bytes
fill zero = []
fill (suc n) = b'x' ∷ fill n

-- The value of its last command has 8192 characters.
abbrev verbose : World
verbose = record leader {
  node = record leader.node {
    log = entry_0 ∷ entry_1 ∷ record entry_2 { command = fill 8192 } ∷ [];
  };
}

wire_exchange_too_long_example :
    (l' : World) × (wire_exchange sample around env 0 verbose world ≡ some (l', world))
    × (next_of l'.node 0 ≡ next_of verbose.node 0 - 1)
unfolding heartbeat_message batch get_log_size get_log_term get_log_entries append_entries_json
    log_entry_json error_json parse
wire_exchange_too_long_example =
    wire_exchange_too_long sample sample-IsLawful around env 0 verbose world _ refl (omega arith)
      refl refl (_, refl, omega arith)
