-- ===== src/Raft/Role.antt =====
-- Changes of role: RaftNode::becomeFollower and reset_timeout of src/raft_node.cpp, and the lines
-- by which other functions step down. The caller of `become_follower` and `reset_timeout` does not
-- hold the mutex of the node; where one does, its own module says so.
use kv_store_project.Prelude.{ℕ, ◌+◌, ◌%◌, false, if◌then◌else◌}
use kv_store_project.Prelude.Int.{minus_one}
use kv_store_project.Raft.State.{Node, NodeState, World, Env, update_role}
use kv_store_project.Raft.Persist.{persist_metadata}

-- The assignments of a node that finds a newer term.
unfoldable pub step_down : ℕ → Node → Node
unfolding update_role
step_down new_term n = record n {
  current_term = new_term;
  state = NodeState.follower;
  metrics =
      update_role NodeState.follower
        (record n.metrics { current_term = new_term; voted_for = n.voted_for });
  voted_for = minus_one;
}

-- RaftNode::becomeFollower
unfoldable pub become_follower : ℕ → World → World
unfolding step_down persist_metadata
become_follower new_term w =
    if w.node.shutdown_requested
    then w
    else persist_metadata
        (record w { node = record (step_down new_term w.node) { running_heartbeats = false } })

-- `electionTimeout = milliseconds(2000 + rand() % 2000)` with the clock that goes with it
unfoldable pub restart_timer : Env → Node → Node
restart_timer env n = record n {
  last_heartbeat = env.now;
  election_timeout = 2000 + env.rand % 2000;
}

-- reset_timeout
unfoldable pub reset_timeout : Env → World → World
unfolding restart_timer
reset_timeout env w =
    if w.node.shutdown_requested then w else record w { node = restart_timer env w.node }
