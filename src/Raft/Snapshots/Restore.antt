-- ===== src/Raft/Snapshots/Restore.antt =====
-- What a snapshot keeps, and what a node that starts from it has.
use kv_store_project.Prelude.{ℕ, ◌≤◌, ◌≡◌, refl, ◌∙◌, true, some, arith}
use kv_store_project.Prelude.Int.{ℤ, pos}
use kv_store_project.KvStore.{KvStore, dump_to_map, load_from_map}
use kv_store_project.Wal.{truncate_up_to}
use kv_store_project.Raft.State.{Node, World, Env}
use kv_store_project.Raft.Log.{get_log_term, get_log_size, truncate_log_safe}
use kv_store_project.Raft.Log.Compaction.{
  InLog, compact, get_log_size-compact, get_log_term-compact,
}
use kv_store_project.Raft.Persist.{restart, start, load_metadata}
use kv_store_project.Raft.Snapshots.{new_snapshot, take_snapshot, trigger_snapshot}

-- Whether or not the truncation of the write-ahead log throws, the node's log is compacted, the
-- snapshot is on disk and the map is as before.
pub record IsTaken (w w' : World) : Type 0 where
  pub log : w'.node.log ≡ (truncate_log_safe w.node.last_applied w.node).log
  pub latest : w'.node.latest_snapshot ≡ some (new_snapshot w)
  pub on_disk : w'.snapshot_file ≡ some (new_snapshot w)
  pub mp : w'.store.mp ≡ w.store.mp
  pub applied : w'.node.last_applied ≡ w.node.last_applied
  pub term : w'.node.current_term ≡ w.node.current_term
  pub vote : w'.node.voted_for ≡ w.node.voted_for

pub take_snapshot-IsTaken : (env : Env) (w : World) → IsTaken w (take_snapshot env w).0
unfolding take_snapshot truncate_up_to truncate_log_safe
take_snapshot-IsTaken env w = ground arith

trigger_snapshot-IsTaken :
    (env : Env) (w : World)
    → (trigger_snapshot env w).1 ≡ true
    → IsTaken w (trigger_snapshot env w).0
unfolding trigger_snapshot
trigger_snapshot-IsTaken env w h = ground (arith, take_snapshot-IsTaken env w)

module _ {w w' : World} (t : IsTaken w w') where
  log_of : w'.node.log ≡ (compact (new_snapshot w) w.node).log
  unfolding new_snapshot
  log_of = t.log

  latest_of : w'.node.latest_snapshot ≡ (compact (new_snapshot w) w.node).latest_snapshot
  latest_of = t.latest

module _ (m n : Node) where
  same_size :
      m.log ≡ n.log → m.latest_snapshot ≡ n.latest_snapshot → get_log_size m ≡ get_log_size n
  unfolding get_log_size
  same_size e f = rw (e, f)

  same_term :
      (i : ℤ)
      → m.log ≡ n.log
      → m.latest_snapshot ≡ n.latest_snapshot
      → get_log_term m i ≡ get_log_term n i
  unfolding get_log_term
  same_term i e f = rw (e, f)

-- A snapshot that succeeds, of an applied entry that is in the log, does not change the size of the
-- log or the term at any index from that entry on, and the map of the store stays.
pub trigger_snapshot_lem :
    (env : Env) (w : World) (i : ℕ)
    → InLog w.node w.node.last_applied
    → w.node.last_applied ≤ i
    → (trigger_snapshot env w).1 ≡ true
    → let w' = (trigger_snapshot env w).0 in
      (get_log_size w'.node ≡ get_log_size w.node)
      × (get_log_term w'.node (pos i) ≡ get_log_term w.node (pos i))
      × (w'.store.mp ≡ w.store.mp)
trigger_snapshot_lem env w i inside le h =
    let t = trigger_snapshot-IsTaken env w h in
    let snap = new_snapshot w in
    (
      same_size _ (compact snap w.node) (log_of t) (latest_of t)
          ∙ get_log_size-compact w.node snap (unfold new_snapshot in inside),
      same_term _ (compact snap w.node) (pos i) (log_of t) (latest_of t)
          ∙ get_log_term-compact w.node snap i (unfold new_snapshot in inside)
              (unfold new_snapshot in refl) (unfold new_snapshot in le),
      t.mp,
    )

-- A node that is started again from the files that a successful snapshot left has the snapshot's
-- map and counts its entries as applied and committed, whatever the write-ahead log had rebuilt
-- before.
pub restart-trigger_snapshot :
    (env : Env) (now : ℕ) (rebuilt : KvStore) (w : World)
    → (trigger_snapshot env w).1 ≡ true
    → let v = restart now rebuilt (trigger_snapshot env w).0 in
      (v.store.mp ≡ w.store.mp)
      × (v.node.last_applied ≡ w.node.last_applied)
      × (v.node.commit_index ≡ pos w.node.last_applied)
unfolding restart start load_metadata new_snapshot dump_to_map load_from_map
restart-trigger_snapshot env now rebuilt w h =
    let t = trigger_snapshot-IsTaken env w h in ground (arith, t.on_disk)
