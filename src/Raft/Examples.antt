-- ===== src/Raft/Examples.antt =====
-- The theorems on a node at concrete nodes, requests and files.
use kv_store_project.Prelude.{
  ◌≡◌, refl, true, [], ◌∷◌, ◌++◌, none, some, take, if◌then◌else◌, arith,
}
use kv_store_project.Prelude.Int.{pos, minus_one}
use kv_store_project.KvStore.{construct}
use kv_store_project.Wal.{truncate_up_to}
use kv_store_project.Raft.State.{World, Snapshot, Metadata}
use kv_store_project.Raft.Log.{get_log_size, get_log_term, get_log_entries}
use kv_store_project.Raft.Log.Compaction.{
  InLog, compact, get_log_size-compact, get_log_entries-compact,
}
use kv_store_project.Raft.Persist.{restart}
use kv_store_project.Raft.Vote.{RequestVoteRpc, request_vote}
use kv_store_project.Raft.Vote.Rules.{
  IsUpToDate, request_vote_granted, request_vote-IsUpToDate, request_vote_after_snapshot,
}
use kv_store_project.Raft.Apply.{apply_committed}
use kv_store_project.Raft.Apply.Progress.{
  store_after, advanced, apply_committed_lem, apply_committed_skips_first,
}
use kv_store_project.Raft.Snapshots.{take_snapshot, trigger_snapshot}
use kv_store_project.Raft.Snapshots.Restore.{restart-trigger_snapshot}
use kv_store_project.Raft.Append.{
  AppendEntriesRpc, answers, accept_entries, append_entries, term_matches, is_consistent,
}
use kv_store_project.Raft.Append.Replies.{append_entries_stores}
use kv_store_project.Raft.Samples.{env, node, world, applied, entry_0, entry_1, entry_2, ask}

ask_granted : (request_vote ask world).1.vote_granted ≡ true
unfolding request_vote
ask_granted = refl

request_vote_granted_example :
    let w = (request_vote ask world).0 in
    (w.node.voted_for ≡ pos 2)
    × ((request_vote ask world).1.term ≡ 3)
    × (w.node.current_term ≡ 3)
    × (j : Metadata) × (w.metadata_file ≡ some j)
    × (j.voted_for ≡ pos 2)
    × (j.current_term ≡ 3)
    × (j.log_entries ≡ w.node.log)
request_vote_granted_example = request_vote_granted ask world refl ask_granted

request_vote-IsUpToDate_example : IsUpToDate ask node
request_vote-IsUpToDate_example = request_vote-IsUpToDate ask world refl ask_granted

-- Everything up to entry 1 is in the snapshot, and the log is empty.
abbrev snap : Snapshot
snap = record { last_included_index = 1; last_included_term = 2; kv_state = [] }

abbrev compacted : World
compacted = record world {
  node = record node { log = []; latest_snapshot = some snap; last_applied = 1 };
}

abbrev empty_ask : RequestVoteRpc
empty_ask = record { term = 3; candidate_id = pos 2; last_log_index = minus_one; last_log_term = 0 }

request_vote_after_snapshot_example : (request_vote empty_ask compacted).1.vote_granted ≡ true
request_vote_after_snapshot_example =
    request_vote_after_snapshot empty_ask compacted refl refl (omega arith) (omega arith)

in_log : InLog node 1
unfolding get_log_size
in_log = record { low = omega arith; high = omega arith }

get_log_size-compact_example : get_log_size (compact snap node) ≡ get_log_size node
get_log_size-compact_example = get_log_size-compact node snap in_log

get_log_entries-compact_example : get_log_entries (compact snap node) 2 5 ≡ get_log_entries node 2 5
get_log_entries-compact_example = get_log_entries-compact node snap 2 5 in_log (omega arith)

apply_committed_lem_example :
    (apply_committed env world).0
    ≡ advanced world 1 (store_after true (get_log_entries node 1 2) (construct none))
apply_committed_lem_example =
    apply_committed_lem env world 1 refl refl (omega arith) (omega arith) in_log.high

InLog-applied : InLog applied.node 1
unfolding get_log_size
InLog-applied = record { low = omega arith; high = omega arith }

snapshot_taken : (trigger_snapshot env applied).1 ≡ true
unfolding trigger_snapshot take_snapshot truncate_up_to
snapshot_taken = refl

restart-trigger_snapshot_example :
    let v = restart 9 (construct none) (trigger_snapshot env applied).0 in
    (v.store.mp ≡ applied.store.mp) × (v.node.last_applied ≡ 1) × (v.node.commit_index ≡ pos 1)
restart-trigger_snapshot_example =
    restart-trigger_snapshot env 9 (construct none) applied snapshot_taken

abbrev request : AppendEntriesRpc
request = record {
  term = 2;
  leader_id = pos 2;
  prev_log_index = pos 1;
  prev_log_term = 2;
  entries = entry_2 ∷ [];
  leader_commit = pos 0;
}

request_success : (append_entries env request world).1 ≡ answers 2 true
unfolding append_entries accept_entries is_consistent
request_success = refl

append_entries_stores_example :
    ((append_entries env request world).0.node.log
      ≡ (if term_matches node.log (pos 2) 2 then node.log else take 2 node.log ++ entry_2 ∷ []))
    × (get_log_term node (pos 1) ≡ 2)
append_entries_stores_example =
    append_entries_stores env request world 1 2 entry_2 [] request_success refl refl (refl, tt)
      (omega arith)

-- Entry 0 is committed with entry 1 and is not applied.
apply_committed_skips_first_example :
    (apply_committed env world).0.store ≡ store_after true (entry_1 ∷ []) (construct none)
apply_committed_skips_first_example =
    apply_committed_skips_first env world 1 entry_0 (entry_1 ∷ []) refl refl refl refl refl
      (omega arith)
