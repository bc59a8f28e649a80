-- ===== src/Raft/Threads/Deadlock.antt =====
-- The thread that takes the mutex and then waits for it.
use kv_store_project.Prelude.{
  ℕ, ◌≡◌, ◌≤◌, ◌<◌, ◌⊎◌, refl, ◌∙◌, Bool, true, false, List, [], ◌∷◌, none, some, arith, ◌==◌,
  Bool-cases, inl, inr,
}
use kv_store_project.Raft.State.{World, Env, NodeState}
use kv_store_project.Raft.Append.{AppendEntriesRpc}
use kv_store_project.Raft.Threads.{
  Place, vote_starts, vote_steps_down, vote_reads, vote_writes, vote_done, append_starts,
  append_locks, append_tests, append_steps_down, append_accepts, append_done, Threads, thread_move,
  thread_step, run_threads,
}

-- The places behind the lock of AppendEntries
abbrev pub is_inside : Place → Bool
is_inside (append_tests r) = true
is_inside (append_steps_down r) = true
is_inside (append_accepts r) = true
is_inside _ = false

-- The places from which a thread does not answer without the mutex
abbrev pub needs_mutex : Place → Bool
needs_mutex (append_starts r) = true
needs_mutex (append_locks r) = true
needs_mutex (vote_steps_down r) = true
needs_mutex _ = false

-- The step of a thread that is not inside, while the mutex is held
held_move :
    (env : Env) (i j : ℕ) (w : World) (p : Place)
    → is_inside p ≡ false
    → let m = thread_move env j w (some i) p in
      (m.1 ≡ some i) × (is_inside m.2 ≡ false) × (needs_mutex p ≡ true → needs_mutex m.2 ≡ true)
unfolding thread_move
held_move env i j w (vote_starts r) h = ground arith
held_move env i j w (vote_steps_down r) h = (refl, refl, λ n. n)
held_move env i j w (vote_reads r) h = (refl, refl, λ n. n)
held_move env i j w (vote_writes r granted) h = (refl, refl, λ n. n)
held_move env i j w (vote_done answer) h = (refl, refl, λ n. n)
held_move env i j w (append_starts r) h = (refl, refl, λ n. n)
held_move env i j w (append_locks r) h = (refl, refl, λ n. n)
held_move env i j w (append_tests r) h = absurd (cc h)
held_move env i j w (append_steps_down r) h = absurd (cc h)
held_move env i j w (append_accepts r) h = absurd (cc h)
held_move env i j w (append_done reply) h = (refl, refl, λ n. n)

-- Thread `i` waits for the mutex that it holds, and no other thread is inside.
record IsStuck (i : ℕ) (r : AppendEntriesRpc) (t : Threads) : Type 0 where
  holder : t.holder ≡ some i
  waits : t.place i ≡ append_steps_down r
  outside : (j : ℕ) → (j == i) ≡ false → is_inside (t.place j) ≡ false

IsStuck-same :
    (env : Env) (i : ℕ) (r : AppendEntriesRpc) (t : Threads)
    → IsStuck i r t
    → thread_move env i t.world t.holder (t.place i) ≡ (t.world, some i, append_steps_down r)
unfolding thread_move
IsStuck-same env i r t s = rw (s.holder, s.waits)

thread_step-IsStuck :
    (env : Env) (i j : ℕ) (r : AppendEntriesRpc) (t : Threads)
    → IsStuck i r t
    → IsStuck i r (thread_step env j t)
      × ((k : ℕ)
          → needs_mutex (t.place k) ≡ true
          → needs_mutex ((thread_step env j t).place k) ≡ true)
unfolding thread_step
thread_step-IsStuck env i j r t s = elim (Bool-cases (j == i)) [
  | inl same ↦
      let e : j ≡ i = ground (arith, same) in
      let m = IsStuck-same env i r t s in
      rw (e, m)
        (
          record { holder = refl; waits = ground arith; outside = λ k ne. rw ne (s.outside k ne) },
          λ k n. ground (arith, s.waits, n),
        )
  | inr other ↦
      let m = rw (← s.holder) at (held_move env i j t.world (t.place j) (s.outside j other)) in
      (
        record {
          holder = m.0 ∙ s.holder;
          waits = ground (arith, s.waits, other);
          outside = λ k ne. ground (arith, s.outside k ne, m.1);
        },
        λ k n. ground (arith, m.2, n),
      )
]

run_threads-IsStuck :
    (env : Env) (i : ℕ) (r : AppendEntriesRpc) (is : List ℕ) (t : Threads)
    → IsStuck i r t
    → IsStuck i r (run_threads env is t)
      × ((k : ℕ)
          → needs_mutex (t.place k) ≡ true
          → needs_mutex ((run_threads env is t).place k) ≡ true)
unfolding run_threads
run_threads-IsStuck env i r [] t s = (s, λ k n. n)
run_threads-IsStuck env i r (j ∷ is) t s =
    let (now, kept) = thread_step-IsStuck env i j r t s in
    let (then_on, all) = run_threads-IsStuck env i r is (thread_step env j t) now in
    (then_on, λ k n. all k (kept k n))

abbrev pub three_steps : ℕ → List ℕ
three_steps i = i ∷ i ∷ i ∷ []

three_steps-IsStuck :
    (env : Env) (i : ℕ) (r : AppendEntriesRpc) (t : Threads)
    → t.place i ≡ append_starts r
    → t.holder ≡ none
    → ((k : ℕ) → is_inside (t.place k) ≡ false)
    → t.world.node.receiving_snapshot ≡ false
    → t.world.node.current_term ≤ r.term
    → (t.world.node.current_term < r.term) ⊎ (t.world.node.state ≡ NodeState.candidate)
    → IsStuck i r (run_threads env (three_steps i) t)
      × ((k : ℕ) → (k == i) ≡ false → (run_threads env (three_steps i) t).place k ≡ t.place k)
unfolding run_threads thread_step thread_move
three_steps-IsStuck env i r t here free outside e recent steps_down =
    let self : (i == i) ≡ true = ground arith in
    (
      record {
        holder = ground (arith, here, free, e, recent, steps_down, self);
        waits = ground (arith, here, free, e, recent, steps_down, self);
        outside = λ k ne. rw ne (outside k);
      },
      λ k ne. rw ne refl,
    )

-- An AppendEntries of a newer term, or of its own term at a candidate, never answers, and stops
-- other threads: in whatever order the threads run after the first three steps of its own, it waits
-- in becomeFollower for the mutex that it holds, and any other thread that had to take the mutex, to
-- handle an AppendEntries or to become a follower for a RequestVote, has not taken it. At the start
-- the mutex is free, no thread is behind the lock of AppendEntries, and no snapshot is being
-- received.
pub append_deadlock :
    (env : Env) (r : AppendEntriesRpc) (i j : ℕ) (order : List ℕ) (t : Threads)
    → t.place i ≡ append_starts r
    → t.holder ≡ none
    → ((k : ℕ) → is_inside (t.place k) ≡ false)
    → t.world.node.receiving_snapshot ≡ false
    → t.world.node.current_term ≤ r.term
    → (t.world.node.current_term < r.term) ⊎ (t.world.node.state ≡ NodeState.candidate)
    → (j == i) ≡ false
    → needs_mutex (t.place j) ≡ true
    → let t' = run_threads env order (run_threads env (three_steps i) t) in
      (t'.place i ≡ append_steps_down r) × (t'.holder ≡ some i) × (needs_mutex (t'.place j) ≡ true)
append_deadlock env r i j order t here free outside e recent steps_down other needs =
    let (stuck, rest) = three_steps-IsStuck env i r t here free outside e recent steps_down in
    let (still, all) =
      run_threads-IsStuck env i r order (run_threads env (three_steps i) t) stuck in
    (still.waits, still.holder, all j (rw (rest j other) needs))
