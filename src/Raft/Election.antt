-- ===== src/Raft/Election.antt =====
-- start_election of src/raft_node.cpp. What sendRPC brings back from a peer is an argument: `none`
-- for an empty text or one that cannot be read as a response. The shutdown flag is set by other
-- threads only, so a run that no one disturbs reads the same flag at each of its tests.
pub mod Majority
pub mod Keeps
pub mod Ballots
pub mod Race
mod Examples
use kv_store_project.Prelude.{
  ℕ, ◌+◌, ◌/◌, Bool, true, false, List, [], ◌∷◌, Option, none, some, ltb, map, if◌then◌else◌,
}
use kv_store_project.Prelude.Int.{pos, minus_one, sub_ℕ}
use kv_store_project.Raft.State.{Node, NodeState, World, Env, update_role}
use kv_store_project.Raft.Log.{get_log_size, get_log_term}
use kv_store_project.Raft.Persist.{persist_metadata}
use kv_store_project.Raft.Role.{step_down, reset_timeout}
use kv_store_project.Raft.Vote.{RequestVoteRpc, RequestVoteResponse}

-- The node becomes a candidate of the next term, votes for itself and persists that.
unfoldable pub begin_election : World → World
unfolding update_role persist_metadata
begin_election w = persist_metadata (record w {
  node = record w.node {
    state = NodeState.candidate;
    metrics = update_role NodeState.candidate (record w.node.metrics {
      current_term = w.node.current_term;
      voted_for = w.node.voted_for;
      election_count = w.node.metrics.election_count + 1;
    });
    current_term = w.node.current_term + 1;
    voted_for = pos w.node.id;
  };
})

-- The request that goes to each peer
unfoldable pub vote_request : Node → RequestVoteRpc
vote_request n =
    let last = sub_ℕ (get_log_size n) 1 in
    record {
      term = n.current_term;
      candidate_id = pos n.id;
      last_log_index = last;
      last_log_term = get_log_term n last;
    }

-- `metrics.requestVotesSent++`
abbrev pub count_sent : World → World
count_sent w = record w {
  node = record w.node {
    metrics = record w.node.metrics { request_votes_sent = w.node.metrics.request_votes_sent + 1 };
  };
}

-- One peer: the new count of votes, or `none` where the election is over.
unfoldable pub ask_peer : Option RequestVoteResponse → ℕ → World → World × Option ℕ
unfolding step_down persist_metadata
ask_peer reply votes w =
    let w1 = count_sent w in
    elim reply [
      | none ↦ (w1, some votes)
      | some resp ↦
          if ltb w1.node.current_term resp.term
          then (persist_metadata (record w1 { node = step_down resp.term w1.node }), none)
          else (w1, some (if resp.vote_granted then votes + 1 else votes))
    ]

-- The loop over the peers
unfoldable pub ask_peers : List (Option RequestVoteResponse) → ℕ → World → World × Option ℕ
unfolding ask_peer
ask_peers [] votes w = (w, some votes)
ask_peers (reply ∷ replies) votes w =
    let (w1, counted) = ask_peer reply votes w in
    elim counted [ none ↦ (w1, none) | some more ↦ ask_peers replies more w1 ]

-- What follows a majority; the heartbeat thread is started with `running_heartbeats`.
unfoldable pub become_leader : Env → World → World
unfolding update_role reset_timeout persist_metadata
become_leader env w =
    let w1 = record w {
      node = record w.node {
        state = NodeState.leader;
        metrics =
            update_role NodeState.leader (record w.node.metrics { leader_id = pos w.node.id });
        running_heartbeats = true;
        leader_id = pos w.node.id;
        next_index = map (λ i. get_log_size w.node) w.node.next_index;
        match_index = map (λ i. minus_one) w.node.next_index;
      };
    } in
    persist_metadata (reset_timeout env w1)

-- `nodes` is the number of nodes of the cluster.
unfoldable pub finish_election : Env → ℕ → ℕ → World → World
unfolding become_leader
finish_election env nodes votes w = if ltb (nodes / 2) votes then become_leader env w else w

-- What comes after the loop
unfoldable pub after_count : Env → ℕ → World × Option ℕ → World
after_count env nodes (w, none) = w
after_count env nodes (w, some votes) = finish_election env nodes votes w

unfoldable pub start_election : Env → ℕ → List (Option RequestVoteResponse) → World → World
start_election env nodes replies w =
    if w.node.shutdown_requested
    then w
    else after_count env nodes (ask_peers replies 1 (begin_election w))
