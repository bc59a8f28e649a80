-- ===== src/Raft/Threads/Alone.antt =====
-- A thread that runs alone does what its handler does, where the handler is one function.
use kv_store_project.Prelude.{ℕ, ◌≡◌, List, [], ◌∷◌, Option, none, some, arith, ◌==◌, if◌then◌else◌}
use kv_store_project.Raft.State.{World, Env}
use kv_store_project.Raft.Vote.{RequestVoteRpc, request_vote}
use kv_store_project.Raft.Append.{
  AppendEntriesRpc, AppendReply, blocked, accept_entries, append_entries,
}
use kv_store_project.Raft.Threads.{
  Place, vote_starts, vote_done, append_starts, append_steps_down, append_done, Threads,
  thread_move, thread_step, run_threads,
}

-- Thread 0 is at this place, and the mutex is free.
abbrev pub starting : Place → (ℕ → Place) → World → Threads
starting p rest w = record { world = w; holder = none; place = λ k. if k == 0 then p else rest k }

abbrev pub four_steps : List ℕ
four_steps = 0 ∷ 0 ∷ 0 ∷ 0 ∷ []

-- Where an AppendEntries thread is in the end, and the holder of the mutex: the handler that is
-- blocked is in becomeFollower and keeps the mutex it waits for.
abbrev pub final_place : AppendEntriesRpc → AppendReply → Place
final_place r blocked = append_steps_down r
final_place r reply = append_done reply

abbrev pub final_holder : AppendReply → Option ℕ
final_holder blocked = some 0
final_holder _ = none

-- Four steps leave the world and the answer of the handler.
request_vote_alone :
    (env : Env) (r : RequestVoteRpc) (rest : ℕ → Place) (w : World)
    → let t = run_threads env four_steps (starting (vote_starts r) rest w) in
      (t.world ≡ (request_vote r w).0)
      × (t.place 0 ≡ vote_done (request_vote r w).1)
      × (t.holder ≡ none)
unfolding run_threads thread_step thread_move request_vote
request_vote_alone env r rest w = ground arith

-- The AppendEntries that never answers is the one that waits for the mutex that it holds.
append_entries_alone :
    (env : Env) (r : AppendEntriesRpc) (rest : ℕ → Place) (w : World)
    → let t = run_threads env four_steps (starting (append_starts r) rest w) in
      let (w', reply) = append_entries env r w in
      (t.world ≡ w') × (t.place 0 ≡ final_place r reply) × (t.holder ≡ final_holder reply)
unfolding run_threads thread_step thread_move append_entries accept_entries
append_entries_alone env r rest w = ground arith
