-- ===== src/Raft/Timer.antt =====
-- election_timer of src/raft_node.cpp: what a turn of its loop decides. `stop` is the flag
-- `stopTimer`; times are milliseconds.
pub mod Quiet
mod Examples
use kv_store_project.Prelude.{ℕ, ◌+◌, ◌-◌, Bool, true, false, ◌||◌, leb, if◌then◌else◌}
use kv_store_project.Raft.State.{Node, Env}
use kv_store_project.Raft.Client.{is_leader}

-- The loop ends, waits for the end of a leadership, starts an election, or waits for this long.
pub data TimerAction : Type 0 where
  ends waits_as_leader elects : TimerAction
  waits : ℕ → TimerAction

-- One turn, when the clock shows `now`
unfoldable pub timer_turn : Bool → ℕ → Node → TimerAction
timer_turn stop now n =
    let since = now - n.last_heartbeat in
    if stop || n.shutdown_requested
    then ends
    else if is_leader n.state
    then waits_as_leader
    else if leb n.election_timeout since
    then elects
    else waits (n.election_timeout - since)
