-- ===== src/Raft/Cluster/Examples.antt =====
-- Elections in a cluster of three.
use kv_store_project.Prelude.{ℕ, zero, suc, ◌<◌, ◌≡◌, refl, inr, arith, false, ◌==◌, if◌then◌else◌}
use kv_store_project.Raft.State.{NodeState}
use kv_store_project.Raft.Persist.{persist_metadata}
use kv_store_project.Raft.Samples.{env, node, world}
use kv_store_project.Raft.Election.Ballots.{here}
use kv_store_project.Raft.Log.{get_log_size, get_log_term}
use kv_store_project.Raft.Vote.{request_vote}
use kv_store_project.Raft.Vote.Rules.{IsUpToDate}
use kv_store_project.Raft.Election.{
  begin_election, vote_request, ask_peers, finish_election, after_count, start_election,
}
use kv_store_project.Raft.Cluster.{
  num_nodes, Cluster, Delivery, deliver, gather, peers_of, hold_election,
}
use kv_store_project.Raft.Cluster.Safety.{IsRunning, hold_election-Holds, leader_terms_increase}
use kv_store_project.Raft.Cluster.Liveness.{hold_election_wins}

-- Three nodes alike, each with its number
abbrev cluster : Cluster
cluster i =
    let w = record world { node = record node { id = i } } in
    record w { metadata_file = (persist_metadata w).metadata_file }

cluster-IsRunning : IsRunning cluster
unfolding persist_metadata
cluster-IsRunning = record {
  numbered = λ j h. refl;
  live = λ j h. refl;
  disk = λ j h. record { term = refl; vote = refl };
}

-- Node 2 answers, the answer of any other node is lost.
abbrev network : ℕ → Delivery
network j = if j == 2 then Delivery.answered else Delivery.unanswered

up_to_date : IsUpToDate (vote_request (begin_election (cluster 1)).node) (cluster 2).node
unfolding vote_request begin_election get_log_size get_log_term
up_to_date = inr (refl, omega arith)

hold_election_wins_example :
    let w = hold_election env 1 network cluster 1 in
    (w.node.state ≡ NodeState.leader) × (w.node.current_term ≡ 3)
hold_election_wins_example =
    hold_election_wins env 1 2 network cluster (omega arith) (omega arith) (omega arith)
      cluster-IsRunning (λ k h. omega arith) refl refl up_to_date

-- The cluster after the election of node 1
abbrev later : Cluster
later = hold_election env 1 network cluster

-- Then node 2 is elected.
abbrev second_network : ℕ → Delivery
second_network j = Delivery.answered

below_three : (P : ℕ → Type 0) → P 0 → P 1 → P 2 → (j : ℕ) → j < num_nodes → P j
below_three P a b c zero h = a
below_three P a b c (suc zero) h = b
below_three P a b c (suc (suc zero)) h = c
below_three P a b c (suc (suc (suc j))) h = absurd (omega arith)

later-IsRunning : IsRunning later
unfolding hold_election gather peers_of deliver request_vote vote_request start_election
    begin_election ask_peers after_count finish_election get_log_size get_log_term
later-IsRunning = record {
  numbered = below_three (λ j. (later j).node.id ≡ j) refl refl refl;
  live = below_three (λ j. (later j).node.shutdown_requested ≡ false) refl refl refl;
  disk =
      λ j h. (hold_election-Holds env 1 network cluster (omega arith) cluster-IsRunning j h).disk;
}

first_wins : (later 1).node.state ≡ NodeState.leader
unfolding hold_election gather peers_of deliver request_vote vote_request start_election
    begin_election ask_peers after_count finish_election get_log_size get_log_term
first_wins = refl

second_wins : (hold_election env 2 second_network later 2).node.state ≡ NodeState.leader
unfolding hold_election gather peers_of deliver request_vote vote_request start_election
    begin_election ask_peers after_count finish_election get_log_size get_log_term
second_wins = refl

leader_terms_increase_example :
    (later 1).node.current_term < (hold_election env 2 second_network later 2).node.current_term
leader_terms_increase_example =
    leader_terms_increase env env 1 2 network second_network cluster later (omega arith)
      (omega arith) cluster-IsRunning later-IsRunning (λ j h. here) first_wins second_wins
