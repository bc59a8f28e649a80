-- ===== src/Raft/Threads.antt =====
-- The threads of a node that answer RequestVote and AppendEntries, in src/rpc_server.cpp: each
-- connection has its own, and all of them share the node and its mutex `mtx`. Other threads may run
-- between two steps of a thread. The steps are coarser than the accesses of the code: the tests of a
-- vote are one, its writes another, and so are the tests of an AppendEntries and what follows them,
-- which the mutex keeps together. The other mutexes, and other threads, are left out.
pub mod Alone
pub mod Race
pub mod Deadlock
mod Examples
use kv_store_project.Prelude.{
  ℕ, Bool, true, false, ◌&&◌, ◌||◌, List, [], ◌∷◌, Option, none, some, ltb, ◌==◌, if◌then◌else◌,
}
use kv_store_project.Prelude.Int.{eq_ℤ}
use kv_store_project.Raft.State.{World, Env}
use kv_store_project.Raft.Role.{become_follower}
use kv_store_project.Raft.Vote.{
  RequestVoteRpc, RequestVoteResponse, not_voted_yet, candidate_up_to_date, cast_vote,
  count_request,
}
use kv_store_project.Raft.Append.{
  AppendEntriesRpc, AppendReply, answers, null_reply, count_received, is_candidate, accept_entries,
}

-- Where a thread stands: before its first line; inside becomeFollower before the lock; before the
-- tests of the vote; behind them, with their outcome; before the lock of AppendEntries; behind it,
-- before and behind its tests; and done.
pub data Place : Type 0 where
  vote_starts vote_steps_down vote_reads : RequestVoteRpc → Place
  vote_writes : RequestVoteRpc → Bool → Place
  vote_done : RequestVoteResponse → Place
  append_starts append_locks append_tests append_steps_down append_accepts :
      AppendEntriesRpc → Place
  append_done : AppendReply → Place

-- The world, the thread that holds the mutex, and the threads by their numbers
pub record Threads : Type 0 where
  pub world : World
  pub holder : Option ℕ
  pub place : ℕ → Place

-- The world, the holder and the place after a step
abbrev Moved : Type 0
Moved = World × Option ℕ × Place

-- A thread that wants the mutex waits where any thread holds it, itself included: a std::mutex is
-- not recursive.
abbrev locking : Option ℕ → Moved → Moved → Moved
locking none taken waits = taken
locking (some i) taken waits = waits

-- Behind the lock of AppendEntries; the mutex is released where the handler returns.
unfoldable pub test_append : Env → ℕ → World → AppendEntriesRpc → Moved
test_append env i w r =
    if w.node.receiving_snapshot && eq_ℤ w.node.snapshot_leader_id r.leader_id
    then (w, none, append_done null_reply)
    else if ltb r.term w.node.current_term
    then (w, none, append_done (answers w.node.current_term false))
    else if ltb w.node.current_term r.term || is_candidate w.node.state
    then (w, some i, append_steps_down r)
    else (w, some i, append_accepts r)

-- A step of thread `i`
unfoldable pub thread_move : Env → ℕ → World → Option ℕ → Place → Moved
unfolding test_append
thread_move env i w holder (vote_starts r) =
    let w' = count_request w in
    if ltb r.term w'.node.current_term
    then (w', holder, vote_done (record { term = w'.node.current_term; vote_granted = false }))
    else if ltb w'.node.current_term r.term
    then (w', holder, vote_steps_down r)
    else (w', holder, vote_reads r)
thread_move env i w holder (vote_steps_down r) =
    locking holder (become_follower r.term w, holder, vote_reads r) (w, holder, vote_steps_down r)
thread_move env i w holder (vote_reads r) =
    (w, holder, vote_writes r (not_voted_yet w.node r && candidate_up_to_date w.node r))
thread_move env i w holder (vote_writes r granted) =
    let w' = cast_vote r granted w in
    (w', holder, vote_done (record { term = w'.node.current_term; vote_granted = granted }))
thread_move env i w holder (append_starts r) = (count_received w, holder, append_locks r)
thread_move env i w holder (append_locks r) =
    locking holder (w, some i, append_tests r) (w, holder, append_locks r)
thread_move env i w holder (append_tests r) = test_append env i w r
thread_move env i w holder (append_steps_down r) =
    locking holder (become_follower r.term w, some i, append_accepts r)
      (w, holder, append_steps_down r)
thread_move env i w holder (append_accepts r) =
    let (w', reply) = accept_entries env r w in (w', none, append_done reply)
thread_move env i w holder (vote_done answer) = (w, holder, vote_done answer)
thread_move env i w holder (append_done reply) = (w, holder, append_done reply)

unfoldable pub thread_step : Env → ℕ → Threads → Threads
thread_step env i t =
    let (w, holder, here) = thread_move env i t.world t.holder (t.place i) in
    record { world = w; holder = holder; place = λ j. if j == i then here else t.place j }

-- The threads take their steps in this order.
unfoldable pub run_threads : Env → List ℕ → Threads → Threads
run_threads env [] t = t
run_threads env (i ∷ is) t = run_threads env is (thread_step env i t)
