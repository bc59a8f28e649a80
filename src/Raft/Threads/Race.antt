-- ===== src/Raft/Threads/Race.antt =====
-- Two RequestVote threads of one node.
use kv_store_project.Prelude.{ℕ, ◌≡◌, true, false, List, [], ◌∷◌, none, arith, ◌==◌, if◌then◌else◌}
use kv_store_project.Raft.State.{World, Env}
use kv_store_project.Raft.Vote.{RequestVoteRpc, RequestVoteResponse, request_vote}
use kv_store_project.Raft.Threads.{
  Place, vote_starts, vote_done, Threads, thread_move, thread_step, run_threads,
}

-- Thread 0 is about to handle one request, thread 1 another; the mutex is free.
abbrev pub two_requests : RequestVoteRpc → RequestVoteRpc → (ℕ → Place) → World → Threads
two_requests r s rest w = record {
  world = w;
  holder = none;
  place = λ k. if k == 0 then vote_starts r else if k == 1 then vote_starts s else rest k;
}

-- The two threads in turn
abbrev pub in_turn : List ℕ
in_turn = 0 ∷ 1 ∷ 0 ∷ 1 ∷ 0 ∷ 1 ∷ 0 ∷ 1 ∷ []

abbrev pub grant_in : ℕ → RequestVoteResponse
grant_in term = record { term = term; vote_granted = true }

-- Two requests of one term, each of which the node would grant if it came alone, are both granted
-- where their threads take their steps in turn, whoever the candidates are: no lock keeps the
-- second from reading the vote before the first has written it. Both answers carry the term of the
-- requests, and the vote that is kept is the second one. The mutex is free at the start, and the
-- node is not shutting down.
pub in_turn_double_vote :
    (env : Env) (r s : RequestVoteRpc) (rest : ℕ → Place) (w : World)
    → w.node.shutdown_requested ≡ false
    → r.term ≡ s.term
    → (request_vote r w).1.vote_granted ≡ true
    → (request_vote s w).1.vote_granted ≡ true
    → let t = run_threads env in_turn (two_requests r s rest w) in
      (t.place 0 ≡ vote_done (grant_in r.term))
      × (t.place 1 ≡ vote_done (grant_in r.term))
      × (t.world.node.voted_for ≡ s.candidate_id)
unfolding run_threads thread_step thread_move request_vote
in_turn_double_vote env r s rest w live same first second = ground arith
