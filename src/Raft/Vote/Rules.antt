-- ===== src/Raft/Vote/Rules.antt =====
-- What a RequestVote does to the term and the vote of the node that answers it.
use kv_store_project.Prelude.{
  ◌+◌, ◌<◌, ◌≤◌, ◌≡◌, ◌⊎◌, refl, true, false, none, some, [], arith, length,
}
use kv_store_project.Prelude.Int.{minus_one, eq_ℤ_iff, sub_ℕ, ◌≤ℤ◌}
use kv_store_project.Raft.State.{Node, World, Metadata}
use kv_store_project.Raft.Persist.{persist_metadata}
use kv_store_project.Raft.Ballot.{KeepsVote}
use kv_store_project.Raft.Vote.{RequestVoteRpc, request_vote, count_request, candidate_up_to_date}
use kv_store_project.Raft.Log.{get_log_size, get_log_term, base_index}

-- No RequestVote lowers the term, and none replaces a vote of the same term by another.
pub request_vote-KeepsVote :
    (r : RequestVoteRpc) (w : World) → KeepsVote w.node (request_vote r w).0.node
unfolding request_vote
request_vote-KeepsVote r w =
    ground (arith, eq_ℤ_iff w.node.voted_for minus_one, eq_ℤ_iff w.node.voted_for r.candidate_id)

-- A granted vote is the one the node then holds. The node is then in the term of the request, and
-- answers with it. The metadata file then holds the candidate as the vote, the term of the request,
-- and the log of the node. The node must not be shutting down.
pub request_vote_granted :
    (r : RequestVoteRpc) (w : World)
    → w.node.shutdown_requested ≡ false
    → (request_vote r w).1.vote_granted ≡ true
    → let w' = (request_vote r w).0 in
      (w'.node.voted_for ≡ r.candidate_id)
      × ((request_vote r w).1.term ≡ r.term)
      × (w'.node.current_term ≡ r.term)
      × (j : Metadata) × (w'.metadata_file ≡ some j)
      × (j.voted_for ≡ r.candidate_id)
      × (j.current_term ≡ r.term)
      × (j.log_entries ≡ w'.node.log)
unfolding request_vote persist_metadata
request_vote_granted r w live h =
    let w' = (request_vote r w).0 in
    let voted : w'.node.voted_for ≡ r.candidate_id = ground arith in
    let term : w'.node.current_term ≡ r.term = ground arith in
    let disk : w'.metadata_file ≡ (persist_metadata w').metadata_file = ground arith in
    (voted, ground arith, term, _, disk, voted, term, refl)

-- A request of an older term is refused with the node's own term, and only the counter of requests
-- changes.
pub request_vote_stale :
    (r : RequestVoteRpc) (w : World)
    → r.term < w.node.current_term
    → (request_vote r w).1.vote_granted ≡ false
      × ((request_vote r w).1.term ≡ w.node.current_term)
      × ((request_vote r w).0 ≡ count_request w)
unfolding request_vote
request_vote_stale r w h = ground arith

-- The candidate's log is not behind the one of the node: by the term of the last entry, then by
-- the size.
abbrev pub IsUpToDate : RequestVoteRpc → Node → Type 0
IsUpToDate r n =
    let last = sub_ℕ (get_log_size n) 1 in
    (get_log_term n last < r.last_log_term)
    ⊎ ((r.last_log_term ≡ get_log_term n last) × (last ≤ℤ r.last_log_index))

IsUpToDate-read :
    (r : RequestVoteRpc) (n : Node)
    → n.latest_snapshot ≡ none
    → candidate_up_to_date n r ≡ true
    → IsUpToDate r n
unfolding get_log_size get_log_term
IsUpToDate-read r n s h =
    let size : base_index n.latest_snapshot + length n.log ≡ length n.log = rw s (omega arith) in
    rw (size, s) (ground arith)

-- While a node has no snapshot it votes only for candidates whose log is not behind its own.
pub request_vote-IsUpToDate :
    (r : RequestVoteRpc) (w : World)
    → w.node.latest_snapshot ≡ none
    → (request_vote r w).1.vote_granted ≡ true
    → IsUpToDate r w.node
unfolding request_vote get_log_size get_log_term
request_vote-IsUpToDate r w s h = IsUpToDate-read r w.node s (ground arith)

-- A node whose log is empty, as after a snapshot of all of it, and that is not shutting down votes
-- for any candidate of a newer term whose last index is not below -1, even one with an empty log.
pub request_vote_after_snapshot :
    (r : RequestVoteRpc) (w : World)
    → w.node.log ≡ []
    → w.node.shutdown_requested ≡ false
    → w.node.current_term < r.term
    → minus_one ≤ℤ r.last_log_index
    → (request_vote r w).1.vote_granted ≡ true
unfolding request_vote
request_vote_after_snapshot r w e s t i = ground arith

IsUpToDate-holds :
    (r : RequestVoteRpc) (n : Node)
    → n.latest_snapshot ≡ none
    → IsUpToDate r n
    → candidate_up_to_date n r ≡ true
unfolding get_log_size get_log_term
IsUpToDate-holds r n s h =
    let size : base_index n.latest_snapshot + length n.log ≡ length n.log = rw s (omega arith) in
    ground (arith, rw (size, s) at h)

-- A node without a snapshot that is not shutting down grants a request of a newer term from a
-- candidate whose log is not behind its own.
pub request_vote_grants :
    (r : RequestVoteRpc) (w : World)
    → w.node.shutdown_requested ≡ false
    → w.node.latest_snapshot ≡ none
    → w.node.current_term < r.term
    → IsUpToDate r w.node
    → (request_vote r w).1.vote_granted ≡ true
unfolding request_vote get_log_size get_log_term
request_vote_grants r w live s t h = ground (arith, IsUpToDate-holds r w.node s h)

pub request_vote_term :
    (r : RequestVoteRpc) (w : World)
    → w.node.current_term ≤ r.term
    → (request_vote r w).1.term ≤ r.term
unfolding request_vote
request_vote_term r w h = ground arith
