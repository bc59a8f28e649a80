-- ===== src/Raft/Client/Stale.antt =====
-- A client id and a request number that come again after a restart. The ids of handle_client in
-- src/server.cpp are made of the number of a socket, and each process counts its requests from 1,
-- but the table of requests is kept in the metadata file.
use mathlib.Core.Path.{subst}
use kv_store_project.Prelude.{ℕ, ◌≡◌, refl, ap, ◌∙◌, true, false, List, [], Option, some, arith}
use kv_store_project.Prelude.Text.{Bytes, bytes_eq_refl}
use kv_store_project.Prelude.Map
use kv_store_project.KvStore.{KvStore}
use kv_store_project.Raft.State.{World, Env, Metadata}
use kv_store_project.Raft.Persist.{persist_metadata, load_metadata, start, restart}
use kv_store_project.Raft.Client.{
  PeerReply, ClientResult, text, thrown, remember, handle_client_command, is_leader, seen,
}
use kv_store_project.Raft.Client.Again.{newly_seen, recalled, recall-some}

-- The file has the tables of the node, and the table of answers has this one.
abbrev IsSaved : Bytes → World × ClientResult → Type 0
IsSaved c (w, thrown) = Unit {0}
IsSaved c (w, text t) =
    (j : Metadata) × (w.metadata_file ≡ some j)
    × (j.client_last_request ≡ w.node.client_last_request)
    × (j.client_result_cache ≡ w.node.client_result_cache)
    × (Map.lookup c w.node.client_result_cache ≡ some t)

remember-IsSaved :
    (c : Bytes) (id : ℕ) (t : Bytes) (w : World) → IsSaved c (remember c id t w, text t)
unfolding remember persist_metadata
remember-IsSaved c id t w =
    let found : Map.lookup c (Map.insert c t w.node.client_result_cache) ≡ some t =
      rw (Map.lookup-insert c c t w.node.client_result_cache, bytes_eq_refl c) in
    (_, refl, refl, refl, found)

-- A restart reads the tables of the file.
restart-requests :
    (now : ℕ) (store : KvStore) (w : World) (j : Metadata)
    → w.metadata_file ≡ some j
    → (restart now store w).node.client_last_request ≡ Map.insert_all [] j.client_last_request
unfolding restart load_metadata start
restart-requests now store w j e = ground (arith, e)

restart-results :
    (now : ℕ) (store : KvStore) (w : World) (j : Metadata)
    → w.metadata_file ≡ some j
    → (restart now store w).node.client_result_cache ≡ Map.insert_all [] j.client_result_cache
unfolding restart load_metadata start
restart-results now store w j e = ground (arith, e)

-- A leader with the client's tables of the restarted node answers a command by the answer of the
-- command that had the same client id and number before the restart, whatever the two commands
-- are, and changes nothing: the new command is neither logged nor carried out. The old request was
-- new to a leader that was not shutting down and is in its table afterwards; no table has a key
-- twice; the answering node is not shutting down.
pub handle_client_command_stale :
    (env env' : Env) (replies replies' : List (Option PeerReply)) (c : Bytes) (id : ℕ)
    (command key value command' key' value' : Bytes) (now : ℕ) (store : KvStore) (w w' v : World)
    (t : Bytes)
    → handle_client_command env replies c id command key value w ≡ (w', text t)
    → w.node.shutdown_requested ≡ false
    → is_leader w.node.state ≡ true
    → seen c id w.node ≡ false
    → seen c id w'.node ≡ true
    → Map.IsDistinct w'.node.client_last_request
    → Map.IsDistinct w'.node.client_result_cache
    → v.node.client_last_request ≡ (restart now store w').node.client_last_request
    → v.node.client_result_cache ≡ (restart now store w').node.client_result_cache
    → v.node.shutdown_requested ≡ false
    → is_leader v.node.state ≡ true
    → handle_client_command env' replies' c id command' key' value' v ≡ (v, text t)
handle_client_command_stale env env' replies replies' c id command key value command' key' value'
      now store w w' v t h live leads new known d e requests results live' leads' =
    let (j, file, same, same', found) = subst (IsSaved c) h (
      newly_seen env replies c id command key value w (IsSaved c) (remember-IsSaved c id) (λ _. tt)
        live leads new (ap (λ (p : World × ClientResult). seen c id p.0.node) h ∙ known)) in
    let table : v.node.client_last_request ≡ w'.node.client_last_request =
      requests
      ∙ restart-requests now store w' j file
      ∙ ap (Map.insert_all []) same
      ∙ Map.insert_all-nil w'.node.client_last_request d in
    let answers : v.node.client_result_cache ≡ w'.node.client_result_cache =
      results
      ∙ restart-results now store w' j file
      ∙ ap (Map.insert_all []) same'
      ∙ Map.insert_all-nil w'.node.client_result_cache e in
    recalled env' replies' c id command' key' value' v live' leads' (rw table known)
    ∙ recall-some c t v (rw answers found)
