-- ===== src/Raft/Cluster.antt =====
-- The three nodes that raftAlgorithm of src/raft_node.cpp sets up, and start_election of one of
-- them with the RequestVote handlers of its peers behind sendRPC. What the network does with the
-- request to each peer is an argument. Nothing else runs during an election; before and after it
-- the nodes may do anything. The nodes share one store, which no election reads or writes, so each
-- `World` here carries its own.
pub mod Votes
pub mod Safety
pub mod Liveness
mod Examples
use kv_store_project.Prelude.{
  ℕ, Bool, true, false, List, [], ◌∷◌, Option, none, some, ltb, ◌==◌, if◌then◌else◌,
}
use kv_store_project.Raft.State.{World, Env}
use kv_store_project.Raft.Vote.{RequestVoteRpc, RequestVoteResponse, request_vote}
use kv_store_project.Raft.Election.{begin_election, vote_request, start_election}

-- `numNodes`
abbrev pub num_nodes : ℕ
num_nodes = 3

-- The node with each number
abbrev pub Cluster : Type 0
Cluster = ℕ → World

abbrev pub update : ℕ → World → Cluster → Cluster
update i w c j = if j == i then w else c j

-- The loop that collects the ports of the peers; a port stands for the number of its node.
unfoldable pub others : ℕ → List ℕ → List ℕ
others i [] = []
others i (j ∷ js) = let rest = others i js in if j == i then rest else j ∷ rest

unfoldable pub peers_of : ℕ → List ℕ
unfolding others
peers_of i = others i (0 ∷ 1 ∷ 2 ∷ [])

-- What becomes of a request: it is lost, its answer is lost, or the answer arrives.
pub data Delivery : Type 0 where
  lost unanswered answered : Delivery

unfoldable pub deliver : Delivery → RequestVoteRpc → World → World × Option RequestVoteResponse
deliver Delivery.lost r w = (w, none)
deliver Delivery.unanswered r w = ((request_vote r w).0, none)
deliver Delivery.answered r w = ((request_vote r w).0, some (request_vote r w).1)

abbrev pub is_newer : ℕ → Option RequestVoteResponse → Bool
is_newer t none = false
is_newer t (some resp) = ltb t resp.term

-- The requests to the peers in turn; the candidate returns at the first newer term.
unfoldable pub gather :
    List ℕ → (ℕ → Delivery) → RequestVoteRpc → Cluster → Cluster × List (Option RequestVoteResponse)
gather [] net r c = (c, [])
gather (j ∷ js) net r c =
    let (w, reply) = deliver (net j) r (c j) in
    let rest = gather js net r (update j w c) in
    if is_newer r.term reply then (update j w c, reply ∷ []) else (rest.0, reply ∷ rest.1)

-- start_election of node `i` with its peers
unfoldable pub hold_election : Env → ℕ → (ℕ → Delivery) → Cluster → Cluster
hold_election env i net c =
    let request = vote_request (begin_election (c i)).node in
    let (c', replies) = gather (peers_of i) net request c in
    if (c i).node.shutdown_requested
    then c
    else update i (start_election env num_nodes replies (c i)) c'
