-- ===== src/Raft/Threads/Examples.antt =====
-- The threads of a follower of term 2.
use kv_store_project.Prelude.{ℕ, ◌≡◌, refl, true, false, [], ◌∷◌, none, some, arith, inl}
use kv_store_project.Prelude.Int.{pos}
use kv_store_project.Raft.Samples.{env, world, ask, entry_2}
use kv_store_project.Raft.Vote.{RequestVoteRpc, request_vote}
use kv_store_project.Raft.Append.{AppendEntriesRpc}
use kv_store_project.Raft.Threads.{
  Place, vote_done, append_starts, append_steps_down, Threads, run_threads,
}
use kv_store_project.Raft.Threads.Race.{two_requests, in_turn, grant_in, in_turn_double_vote}
use kv_store_project.Raft.Threads.Deadlock.{needs_mutex, three_steps, append_deadlock}

-- The other connections are done.
abbrev idle : ℕ → Place
idle k = vote_done (record { term = 0; vote_granted = false })

-- Another candidate of the same term
abbrev rival : RequestVoteRpc
rival = record ask { candidate_id = pos 0 }

granted :
    ((request_vote ask world).1.vote_granted ≡ true)
    × ((request_vote rival world).1.vote_granted ≡ true)
unfolding request_vote
granted = (refl, refl)

in_turn_double_vote_example :
    let t = run_threads env in_turn (two_requests ask rival idle world) in
    (t.place 0 ≡ vote_done (grant_in 3))
    × (t.place 1 ≡ vote_done (grant_in 3))
    × (t.world.node.voted_for ≡ pos 0)
in_turn_double_vote_example =
    in_turn_double_vote env ask rival idle world refl refl granted.0 granted.1

abbrev newer : AppendEntriesRpc
newer = record {
  term = 3;
  leader_id = pos 2;
  prev_log_index = pos 1;
  prev_log_term = 2;
  entries = entry_2 ∷ [];
  leader_commit = pos 0;
}

-- Thread 1 has the heartbeat of the new term, every other thread the same one.
abbrev heartbeats : Threads
heartbeats = record { world = world; holder = none; place = λ k. append_starts newer }

append_deadlock_example :
    let t = run_threads env (0 ∷ 1 ∷ 0 ∷ 2 ∷ 0 ∷ []) (run_threads env (three_steps 1) heartbeats) in
    (t.place 1 ≡ append_steps_down newer) × (t.holder ≡ some 1) × (needs_mutex (t.place 0) ≡ true)
append_deadlock_example =
    append_deadlock env newer 1 0 (0 ∷ 1 ∷ 0 ∷ 2 ∷ 0 ∷ []) heartbeats refl refl (λ k. refl) refl
      (omega arith) (inl (omega arith)) refl refl
