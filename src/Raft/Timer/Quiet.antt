-- ===== src/Raft/Timer/Quiet.antt =====
-- A heartbeat keeps the timer of a follower quiet.
use kv_store_project.Prelude.{ℕ, ◌+◌, ◌-◌, ◌≡◌, true, false, arith, leb, ◌%◌, if◌then◌else◌}
use kv_store_project.Prelude.Int.{ℤ}
use kv_store_project.Wal.{truncate_up_to}
use kv_store_project.Raft.State.{World, Env}
use kv_store_project.Raft.Log.{truncate_log_safe}
use kv_store_project.Raft.Client.{is_leader}
use kv_store_project.Raft.Apply.{apply_committed}
use kv_store_project.Raft.Apply.Progress.{apply_committed-node}
use kv_store_project.Raft.Snapshots.{take_snapshot}
use kv_store_project.Raft.Append.{
  AppendEntriesRpc, answers, new_commit, advance_commit, accept_entries, append_entries,
}
use kv_store_project.Raft.Timer.{elects, waits, timer_turn}

-- What the timer reads
record SameTimer (v w : World) : Type 0 where
  heard : w.node.last_heartbeat ≡ v.node.last_heartbeat
  timeout : w.node.election_timeout ≡ v.node.election_timeout

take_snapshot-SameTimer : (env : Env) (w : World) → SameTimer w (take_snapshot env w).0
unfolding take_snapshot truncate_up_to truncate_log_safe
take_snapshot-SameTimer env w = ground arith

advance_commit-SameTimer : (env : Env) (c : ℤ) (w : World) → SameTimer w (advance_commit env c w).0
unfolding advance_commit
advance_commit-SameTimer env c w =
    let w1 : World = record w { node = record w.node { commit_index = new_commit w.node c } } in
    ground
      (arith, apply_committed-node env w1, take_snapshot-SameTimer env (apply_committed env w1).0)

-- Hearing from the leader restarts the timer.
record IsFresh (env : Env) (w : World) : Type 0 where
  heard : w.node.last_heartbeat ≡ env.now
  timeout : w.node.election_timeout ≡ 2000 + env.rand % 2000

accept_entries-IsFresh :
    (env : Env) (r : AppendEntriesRpc) (w : World) → IsFresh env (accept_entries env r w).0
unfolding accept_entries
accept_entries-IsFresh env r w = grind (arith, advance_commit-SameTimer)

append_entries-IsFresh :
    (env : Env) (r : AppendEntriesRpc) (w : World) (t : ℕ)
    → (append_entries env r w).1 ≡ answers t true
    → IsFresh env (append_entries env r w).0
unfolding append_entries
append_entries-IsFresh env r w t h = grind (arith, accept_entries-IsFresh)

-- A node that has answered an AppendEntries with success starts an election when from two to four
-- seconds, a random time that is drawn then, have gone by without another message; before that it
-- waits for what is left of that time. Its timer is not stopped, and it is no leader and not
-- shutting down.
pub timer_turn_after_heartbeat :
    (env : Env) (r : AppendEntriesRpc) (w : World) (t now : ℕ)
    → (append_entries env r w).1 ≡ answers t true
    → (append_entries env r w).0.node.shutdown_requested ≡ false
    → is_leader (append_entries env r w).0.node.state ≡ false
    → let timeout = 2000 + env.rand % 2000 in
      timer_turn false now (append_entries env r w).0.node
      ≡ (if leb timeout (now - env.now) then elects else waits (timeout - (now - env.now)))
unfolding timer_turn
timer_turn_after_heartbeat env r w t now h up other =
    let fresh = append_entries-IsFresh env r w t h in
    ground (arith, up, other, fresh.heard, fresh.timeout)
