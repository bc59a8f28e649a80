-- ===== src/Raft/Append/Disk.antt =====
-- What an AppendEntries leaves in the metadata file: the term and the vote of the node.
use kv_store_project.Prelude.{ℕ, zero, suc, [], arith}
use kv_store_project.Prelude.Text.{Bytes}
use kv_store_project.Wal.{truncate_up_to}
use kv_store_project.Prelude.Int.{ℤ}
use kv_store_project.Raft.State.{World, Env}
use kv_store_project.Raft.Log.{truncate_log_safe}
use kv_store_project.Raft.Ballot.{OnDisk}
use kv_store_project.Raft.Apply.{apply_next, apply_loop, apply_committed}
use kv_store_project.Raft.Snapshots.{take_snapshot, trigger_snapshot}
use kv_store_project.Raft.Append.{
  AppendEntriesRpc, advance_commit, accept_entries, append_entries, new_commit,
}

apply_next-OnDisk :
    (env : Env) (w : World) (r : Bytes) → OnDisk w → OnDisk (apply_next env (w, r)).0
unfolding apply_next
apply_next-OnDisk env w r d = ground arith

apply_loop-OnDisk :
    (k : ℕ) (env : Env) (w : World) (r : Bytes) → OnDisk w → OnDisk (apply_loop k env (w, r)).0
unfolding apply_loop
apply_loop-OnDisk zero env w r d = d
apply_loop-OnDisk (suc k) env w r d =
    apply_loop-OnDisk k env (apply_next env (w, r)).0 (apply_next env (w, r)).1
      (apply_next-OnDisk env w r d)

pub apply_committed-OnDisk : (env : Env) (w : World) → OnDisk w → OnDisk (apply_committed env w).0
unfolding apply_committed
apply_committed-OnDisk env w d = apply_loop-OnDisk _ env w [] d

pub take_snapshot-OnDisk : (env : Env) (w : World) → OnDisk w → OnDisk (take_snapshot env w).0
unfolding take_snapshot truncate_log_safe truncate_up_to
take_snapshot-OnDisk env w d = ground arith

pub trigger_snapshot-OnDisk : (env : Env) (w : World) → OnDisk w → OnDisk (trigger_snapshot env w).0
unfolding trigger_snapshot
trigger_snapshot-OnDisk env w d = ground (arith, take_snapshot-OnDisk env w d)

advance_commit-OnDisk :
    (env : Env) (c : ℤ) (w : World) → OnDisk w → OnDisk (advance_commit env c w).0
unfolding advance_commit
advance_commit-OnDisk env c w d =
    let w1 : World = record w { node = record w.node { commit_index = new_commit w.node c } } in
    let applied = apply_committed-OnDisk env w1 (record { term = d.term; vote = d.vote }) in
    ground (arith, applied, take_snapshot-OnDisk env (apply_committed env w1).0 applied)

accept_entries-OnDisk :
    (env : Env) (r : AppendEntriesRpc) (w : World) → OnDisk w → OnDisk (accept_entries env r w).0
unfolding accept_entries
accept_entries-OnDisk env r w d = grind (arith, advance_commit-OnDisk)

pub append_entries-OnDisk :
    (env : Env) (r : AppendEntriesRpc) (w : World) → OnDisk w → OnDisk (append_entries env r w).0
unfolding append_entries
append_entries-OnDisk env r w d = grind (arith, accept_entries-OnDisk)
