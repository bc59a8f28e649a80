-- ===== src/Raft/Election/Race.antt =====
-- A candidate that hears of a newer term while it waits for the answers of its peers: the handler
-- of its own server takes the newer term over, and start_election goes on without a test of it.
use kv_store_project.Prelude.{ℕ, ◌*◌, ◌<◌, ◌≡◌, false, true, arith}
use kv_store_project.Raft.State.{World, Env, NodeState}
use kv_store_project.Raft.Vote.{RequestVoteRpc, request_vote}
use kv_store_project.Raft.Vote.Rules.{request_vote_granted}
use kv_store_project.Raft.Election.{finish_election}

-- A candidate with the votes of a majority that, before it comes to count them, grants the request
-- of another candidate in a newer term becomes the leader of that newer term, in which its own vote
-- is the other candidate's. The node is not shutting down.
pub finish_election_after_vote :
    (env : Env) (nodes votes : ℕ) (r : RequestVoteRpc) (w : World)
    → w.node.shutdown_requested ≡ false
    → w.node.current_term < r.term
    → (request_vote r w).1.vote_granted ≡ true
    → nodes < 2 * votes
    → let w' = finish_election env nodes votes (request_vote r w).0 in
      (w'.node.state ≡ NodeState.leader)
      × (w'.node.current_term ≡ r.term)
      × (w'.node.voted_for ≡ r.candidate_id)
      × (w.node.current_term < w'.node.current_term)
unfolding finish_election
finish_election_after_vote env nodes votes r w live newer grant most =
    ground (arith, request_vote_granted r w live grant)
