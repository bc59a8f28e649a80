-- ===== src/Raft/Timer/Examples.antt =====
-- The timer of a follower behind a heartbeat.
use kv_store_project.Prelude.{◌≡◌, refl, true, false, [], ◌∷◌}
use kv_store_project.Prelude.Int.{pos}
use kv_store_project.Raft.Append.{
  AppendEntriesRpc, answers, append_entries, accept_entries, is_consistent,
}
use kv_store_project.Raft.Client.{is_leader}
use kv_store_project.Raft.Samples.{env, world, entry_2}
use kv_store_project.Raft.Timer.{waits, timer_turn}
use kv_store_project.Raft.Timer.Quiet.{timer_turn_after_heartbeat}

abbrev beat : AppendEntriesRpc
beat = record {
  term = 2;
  leader_id = pos 0;
  prev_log_index = pos 1;
  prev_log_term = 2;
  entries = entry_2 ∷ [];
  leader_commit = pos 0;
}

beat_success : (append_entries env beat world).1 ≡ answers 2 true
unfolding append_entries accept_entries is_consistent
beat_success = refl

still_up : (append_entries env beat world).0.node.shutdown_requested ≡ false
unfolding append_entries accept_entries is_consistent
still_up = refl

still_follower : is_leader (append_entries env beat world).0.node.state ≡ false
unfolding append_entries accept_entries is_consistent
still_follower = refl

-- Heard at 100 with a time of 2007: one second later 1007 are left.
timer_turn_after_heartbeat_example :
    timer_turn false 1100 (append_entries env beat world).0.node ≡ waits 1007
timer_turn_after_heartbeat_example =
    timer_turn_after_heartbeat env beat world 2 1100 beat_success still_up still_follower
