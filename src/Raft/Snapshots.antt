-- ===== src/Raft/Snapshots.antt =====
-- Taking a snapshot of the store: RaftNode::triggerSnapshot of src/raft_node.cpp. The same lines
-- stand in handleClientCommand and in the AppendEntries handler.
pub mod Restore
use kv_store_project.Prelude.{
  ℕ, ◌+◌, Bool, true, false, List, [], ◌∷◌, Option, none, some, leb, map, if◌then◌else◌,
}
use kv_store_project.Prelude.Int.{pos}
use kv_store_project.KvStore.{KvStore, dump_to_map, write_ahead_log_truncate}
use kv_store_project.Raft.State.{Node, Snapshot, World, Env, record_snapshot}
use kv_store_project.Raft.Log.{get_log_term, truncate_log_safe}
use kv_store_project.Raft.Persist.{persist_metadata, save_snapshot}

-- `newSnapshot`, with the state of the store
unfoldable pub new_snapshot : World → Snapshot
unfolding dump_to_map
new_snapshot w = record {
  last_included_index = w.node.last_applied;
  last_included_term = get_log_term w.node (pos w.node.last_applied);
  kv_state = dump_to_map w.store;
}

-- `if (nextIndex[i] <= lastIncludedIndex) nextIndex[i] = lastIncludedIndex + 1;`
unfoldable pub raise_next : ℕ → ℕ → ℕ
raise_next last i = if leb i last then last + 1 else i

-- The snapshot is saved, the log truncated and the snapshot kept; then the write-ahead log is
-- truncated, and only where that does not throw the indices are raised and the metadata written.
unfoldable pub take_snapshot : Env → World → World × Bool
unfolding new_snapshot save_snapshot persist_metadata write_ahead_log_truncate
take_snapshot env w =
    let snap = new_snapshot w in
    let w' = save_snapshot snap w in
    let n = record (truncate_log_safe snap.last_included_index w'.node) {
      latest_snapshot = some snap;
    } in
    elim (write_ahead_log_truncate env.can_open (pos snap.last_included_index) w'.store) [
      | none ↦ (record w' { node = n }, false)
      | some s ↦ (
        persist_metadata (record w' {
          node = record n { next_index = map (raise_next snap.last_included_index) n.next_index };
          store = s;
        }),
        true,
      )
    ]

abbrev pub is_empty_list {ℓ} : {A : Type ℓ} → List A → Bool
is_empty_list [] = true
is_empty_list (_ ∷ _) = false

-- RaftNode::triggerSnapshot: `false` where the log is empty or an exception was caught.
unfoldable pub trigger_snapshot : Env → World → World × Bool
trigger_snapshot env w =
    if is_empty_list w.node.log
    then (w, false)
    else (let (w', done) = take_snapshot env w in
        if done
        then (
          record w' {
            node = record w'.node {
              metrics =
                  record_snapshot (new_snapshot w).last_included_index
                    (new_snapshot w).last_included_term w'.node.metrics;
            };
          },
          true,
        )
        else (w', false))
