-- ===== src/Raft/Persist/Restart.antt =====
-- What a node has after it is stopped and started again.
use kv_store_project.Prelude.{ℕ, ◌≡◌, arith}
use kv_store_project.Prelude.Map
use kv_store_project.KvStore.{KvStore}
use kv_store_project.Raft.State.{Node, World}
use kv_store_project.Raft.Persist.{persist_metadata, load_metadata, start, restart}

-- What the Raft protocol keeps in stable storage, with the answers that the client table holds.
pub record SameStable (m n : Node) : Type 0 where
  pub current_term : m.current_term ≡ n.current_term
  pub voted_for : m.voted_for ≡ n.voted_for
  pub log : m.log ≡ n.log
  pub latest_snapshot : m.latest_snapshot ≡ n.latest_snapshot
  pub last_request : m.client_last_request ≡ n.client_last_request
  pub result_cache : m.client_result_cache ≡ n.client_result_cache

-- A node that persists its metadata and whose snapshot file holds its latest snapshot comes back
-- after a restart with the term, the vote, the log, the snapshot and the client table it had. The
-- two maps of the client table have no key twice.
pub restart-persist_metadata :
    (now : ℕ) (store : KvStore) (w : World)
    → w.snapshot_file ≡ w.node.latest_snapshot
    → Map.IsDistinct w.node.client_last_request
    → Map.IsDistinct w.node.client_result_cache
    → SameStable (restart now store (persist_metadata w)).node w.node
unfolding restart persist_metadata load_metadata start
restart-persist_metadata now store w s d e =
    let requests = Map.insert_all-nil w.node.client_last_request d in
    let results = Map.insert_all-nil w.node.client_result_cache e in
    record {
      current_term = ground arith;
      voted_for = ground arith;
      log = ground arith;
      latest_snapshot = ground (arith, s);
      last_request = ground (arith, requests);
      result_cache = ground (arith, results);
    }
