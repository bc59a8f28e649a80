-- ===== src/Raft/Vote.antt =====
-- The RequestVote branch of handle_node_client in src/rpc_server.cpp. The handler takes no lock:
-- it reads the node and then writes it, and `check_vote` and `cast_vote` are the two halves, here one
-- behind the other. Raft.Threads has them as steps of a thread, between which others run.
pub mod Rules
use kv_store_project.Prelude.{
  ℕ, ◌+◌, ◌-◌, Bool, true, false, ◌&&◌, ◌||◌, ltb, ◌==◌, length, if◌then◌else◌,
}
use kv_store_project.Prelude.Int.{ℤ, pos, negsuc, minus_one, eq_ℤ, leb_ℤ, sub_ℕ}
use kv_store_project.Raft.State.{Node, World, RaftEntry}
use kv_store_project.Raft.Log.{term_at}
use kv_store_project.Raft.Persist.{persist_metadata}
use kv_store_project.Raft.Role.{become_follower}

pub record RequestVoteRpc : Type 0 where
  pub term : ℕ
  pub candidate_id : ℤ
  pub last_log_index : ℤ
  pub last_log_term : ℕ

pub record RequestVoteResponse : Type 0 where
  pub term : ℕ
  pub vote_granted : Bool

-- `static_cast<int>(node->log.size()) - 1`: the length of the vector, whatever the snapshot.
abbrev pub my_last_index : Node → ℤ
my_last_index n = sub_ℕ (length n.log) 1

abbrev pub my_last_term : Node → ℕ
my_last_term n = term_at n.log (my_last_index n)

abbrev pub not_voted_yet : Node → RequestVoteRpc → Bool
not_voted_yet n r = eq_ℤ n.voted_for minus_one || eq_ℤ n.voted_for r.candidate_id

abbrev pub candidate_up_to_date : Node → RequestVoteRpc → Bool
candidate_up_to_date n r =
    ltb (my_last_term n) r.last_log_term
    || (r.last_log_term == my_last_term n && leb_ℤ (my_last_index n) r.last_log_index)

-- The first half: a newer term is taken over, and the tests are read. `false` too where the term
-- of the candidate is old.
unfoldable pub check_vote : RequestVoteRpc → World → World × Bool
unfolding become_follower
check_vote r w =
    if ltb r.term w.node.current_term
    then (w, false)
    else (let w' = if ltb w.node.current_term r.term then become_follower r.term w else w in
        (w', not_voted_yet w'.node r && candidate_up_to_date w'.node r))

-- The second half: the vote is recorded, persisted and counted where the tests passed.
unfoldable pub cast_vote : RequestVoteRpc → Bool → World → World
unfolding persist_metadata
cast_vote r false w = w
cast_vote r true w =
    let w' = persist_metadata (record w { node = record w.node { voted_for = r.candidate_id } }) in
    record w' {
      node = record w'.node {
        metrics = record w'.node.metrics { votes_received = w'.node.metrics.votes_received + 1 };
      };
    }

abbrev pub count_request : World → World
count_request w = record w {
  node = record w.node {
    metrics = record w.node.metrics {
      request_votes_received = w.node.metrics.request_votes_received + 1;
    };
  };
}

unfoldable pub request_vote : RequestVoteRpc → World → World × RequestVoteResponse
unfolding check_vote cast_vote
request_vote r w =
    let (w1, granted) = check_vote r (count_request w) in
    let w2 = cast_vote r granted w1 in
    (w2, record { term = w2.node.current_term; vote_granted = granted })
