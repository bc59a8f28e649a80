-- ===== src/Raft/Answers/Reports.antt =====
-- What the answers to questions about a node say.
use kv_store_project.Prelude.{
  ℕ, ◌+◌, ◌-◌, ◌≡◌, refl, true, ◌++◌, some, arith, min, length, length-drop, take, take-append-drop,
}
use kv_store_project.Prelude.Int.{pos, pos_part, ◌-ℤ◌}
use kv_store_project.Wal.{truncate_up_to}
use kv_store_project.Raft.State.{World, Env, Node, Snapshot, record_snapshot}
use kv_store_project.Raft.Log.{get_log_term, truncate_log_safe}
use kv_store_project.Raft.Snapshots.{new_snapshot, take_snapshot, trigger_snapshot}
use kv_store_project.Raft.Snapshots.Restore.{take_snapshot-IsTaken}
use kv_store_project.Raft.Answers.{get_status, snapshot_now, get_logs}

-- GET_LOGS with a count that is not negative answers the last entries of the log, as many as asked
-- for or all of them, and says how many.
pub get_logs_lem :
    (count : ℕ) (n : Node)
    → let answer = get_logs (pos count) n in
      (answer.returned_count ≡ min count (length n.log))
      × (length answer.logs ≡ answer.returned_count)
      × (take (length n.log - count) n.log ++ answer.logs ≡ n.log)
unfolding get_logs
get_logs_lem count n =
    let start : pos_part (pos (length n.log) -ℤ pos count) ≡ length n.log - count = ground arith in
    rw start (
      omega (arith, length-drop (length n.log - count) n.log),
      refl,
      take-append-drop (length n.log - count) n.log,
    )

take_snapshot-count :
    (env : Env) (w : World)
    → (take_snapshot env w).0.node.metrics.snapshot_count ≡ w.node.metrics.snapshot_count
unfolding take_snapshot truncate_up_to truncate_log_safe
take_snapshot-count env w = ground arith

-- What the status says of a snapshot
get_status-latest :
    (n : Node) (snap : Snapshot)
    → n.latest_snapshot ≡ some snap
    → let s = (get_status n).1 in
      (s.last_snapshot_index ≡ snap.last_included_index)
      × (s.snapshot_count ≡ n.metrics.snapshot_count)
      × (s.last_applied ≡ n.last_applied)
unfolding get_status
get_status-latest n snap e = ground arith

trigger_snapshot-latest :
    (env : Env) (w : World)
    → (trigger_snapshot env w).1 ≡ true
    → let n = (trigger_snapshot env w).0.node in
      (n.latest_snapshot ≡ some (new_snapshot w))
      × (n.metrics.snapshot_count ≡ w.node.metrics.snapshot_count + 1)
      × (n.last_applied ≡ w.node.last_applied)
unfolding trigger_snapshot record_snapshot
trigger_snapshot-latest env w h =
    let taken = take_snapshot-IsTaken env w in
    let count = take_snapshot-count env w in ground (arith, taken.latest, taken.applied, count)

snapshot_now-success :
    (env : Env) (w : World) (index term : ℕ)
    → (snapshot_now env w).1 ≡ some (index, term)
    → (trigger_snapshot env w).1 ≡ true
unfolding snapshot_now
snapshot_now-success env w index term h = ground arith

-- An answer of success to SNAPSHOT_NOW names the last entry that the node has applied and its term,
-- and the status that the node then answers agrees: this is its last snapshot, counted once more,
-- and its last applied entry.
snapshot_now-get_status :
    (env : Env) (w : World) (index term : ℕ)
    → (snapshot_now env w).1 ≡ some (index, term)
    → let s = (get_status (snapshot_now env w).0.node).1 in
      (index ≡ w.node.last_applied)
      × (term ≡ get_log_term w.node (pos w.node.last_applied))
      × (s.last_snapshot_index ≡ index)
      × (s.snapshot_count ≡ w.node.metrics.snapshot_count + 1)
      × (s.last_applied ≡ index)
unfolding snapshot_now new_snapshot
snapshot_now-get_status env w index term h =
    let done = snapshot_now-success env w index term h in
    let (latest, count, applied) = trigger_snapshot-latest env w done in
    let status = get_status-latest (trigger_snapshot env w).0.node (new_snapshot w) latest in
    ground (arith, done, latest, count, applied, status)
