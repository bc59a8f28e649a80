-- ===== src/Raft/Election/Examples.antt =====
-- Elections of a node of three, and its votes across a restart.
use kv_store_project.Prelude.{
  arith, ◌≡◌, ◌≢◌, ◌↔◌, ◌+◌, ◌*◌, ◌<◌, refl, true, false, [], ◌∷◌, none, some, List, Option,
}
use kv_store_project.Prelude.Int.{pos, minus_one}
use kv_store_project.KvStore.{construct}
use kv_store_project.Raft.State.{World, NodeState}
use kv_store_project.Raft.Persist.{persist_metadata, load_metadata, start, restart}
use kv_store_project.Raft.Ballot.{OnDisk}
use kv_store_project.Raft.Vote.{RequestVoteRpc, RequestVoteResponse, request_vote}
use kv_store_project.Raft.Samples.{env, world, ask}
use kv_store_project.Raft.Election.{
  begin_election, ask_peers, after_count, finish_election, start_election,
}
use kv_store_project.Raft.Election.Majority.{NoNewer, grants, start_election_lem}
use kv_store_project.Raft.Election.Race.{finish_election_after_vote}
use kv_store_project.Raft.Election.Ballots.{here, next, restarts, one_vote_per_term}

-- One peer grants, the other is not reached.
abbrev replies : List (Option RequestVoteResponse)
replies = some (record { term = 3; vote_granted = true }) ∷ none ∷ []

start_election_lem_example :
    ((start_election env 3 replies world).node.state ≡ NodeState.leader)
    ↔ (NoNewer (2 + 1) replies × (3 < 2 * (1 + grants replies)))
start_election_lem_example = start_election_lem env 3 replies world refl

elected : (start_election env 3 replies world).node.state ≡ NodeState.leader
unfolding start_election begin_election ask_peers after_count finish_election
elected = refl

abbrev persisted : World
persisted = record world { metadata_file = (persist_metadata world).metadata_file }

persisted-OnDisk : OnDisk persisted
unfolding persist_metadata
persisted-OnDisk = record { term = refl; vote = refl }

granted : (request_vote ask persisted).1.vote_granted ≡ true
unfolding request_vote
granted = refl

abbrev restarted : World
restarted = restart 9 (construct none) (request_vote ask persisted).0

restarted-live : restarted.node.shutdown_requested ≡ false
unfolding restart load_metadata start request_vote
restarted-live = refl

granted_again : (request_vote ask restarted).1.vote_granted ≡ true
unfolding restart load_metadata start request_vote
granted_again = refl

real_candidate : pos 2 ≢ minus_one
real_candidate = λ h. absurd (cc h)

one_vote_per_term_example : pos 2 ≡ pos 2
one_vote_per_term_example =
    one_vote_per_term ask ask persisted restarted persisted-OnDisk
      (next here (restarts 9 (construct none) (request_vote ask persisted).0)) refl restarted-live
      real_candidate refl granted granted_again

-- The candidate of term 3 is asked for its vote in term 4.
abbrev ask_newer : RequestVoteRpc
ask_newer = record ask { term = 4 }

newer_granted : (request_vote ask_newer (begin_election world)).1.vote_granted ≡ true
unfolding request_vote begin_election
newer_granted = refl

candidate-live : (begin_election world).node.shutdown_requested ≡ false
unfolding begin_election
candidate-live = refl

candidate-newer : (begin_election world).node.current_term < 4
unfolding begin_election
candidate-newer = omega arith

finish_election_after_vote_example :
    let w' = finish_election env 3 2 (request_vote ask_newer (begin_election world)).0 in
    (w'.node.state ≡ NodeState.leader)
    × (w'.node.current_term ≡ 4)
    × (w'.node.voted_for ≡ pos 2)
    × ((begin_election world).node.current_term < w'.node.current_term)
finish_election_after_vote_example =
    finish_election_after_vote env 3 2 ask_newer (begin_election world) candidate-live
      candidate-newer newer_granted (omega arith)
