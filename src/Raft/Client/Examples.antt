-- ===== src/Raft/Client/Examples.antt =====
-- A leader of three nodes: its first command, and the same request again.
use kv_store_project.Prelude.{◌≡◌, refl, true, false, [], ◌∷◌, none, some, List, Option}
use kv_store_project.Prelude.Text.{codes, bytes_eq}
use kv_store_project.Prelude.Map
use kv_store_project.Prelude.Stream.{next_word}
use kv_store_project.Raft.State.{World, NodeState}
use kv_store_project.Raft.Log.{get_log_size, get_log_term}
use kv_store_project.Raft.Apply.{apply_committed, apply_loop, apply_next, run_command, execute}
use kv_store_project.Raft.Samples.{env, world}
use kv_store_project.Raft.Client.{
  PeerReply, text, replicate_all, replicate_to, after_replication, commit_entry, remember,
  append_command, handle_client_command, is_leader, seen,
}
use kv_store_project.KvStore.{construct}
use kv_store_project.Raft.Persist.{restart, load_metadata, start}
use kv_store_project.Raft.Client.Stale.{handle_client_command_stale}
use kv_store_project.Raft.Client.Again.{handle_client_command_again}

abbrev leading : World
leading = record world { node = record world.node { state = NodeState.leader } }

abbrev replies : List (Option PeerReply)
replies =
    some (record { term = 2; success = true; chunks_sent = 0; transferred = false }) ∷ none ∷ []

abbrev after : World
after =
    (handle_client_command env replies (codes "c1") 7 (codes "PUT") (codes "k") (codes "v")
      leading).0

outcome :
    handle_client_command env replies (codes "c1") 7 (codes "PUT") (codes "k") (codes "v") leading
    ≡ (after, text (codes "OK"))
unfolding handle_client_command replicate_all replicate_to after_replication get_log_term
    get_log_size commit_entry append_command apply_committed Map.lookup Map.insert apply_loop
    apply_next run_command execute bytes_eq next_word remember
outcome = refl

after-state :
    (after.node.shutdown_requested ≡ false)
    × (is_leader after.node.state ≡ true)
    × (seen (codes "c1") 7 after.node ≡ true)
unfolding handle_client_command replicate_all replicate_to after_replication get_log_term
    get_log_size commit_entry append_command apply_committed Map.lookup Map.insert apply_loop
    apply_next run_command execute bytes_eq next_word remember
after-state = (refl, refl, refl)

handle_client_command_again_example :
    handle_client_command env [] (codes "c1") 7 (codes "PUT") (codes "k") (codes "v") after
    ≡ (after, text (codes "OK"))
handle_client_command_again_example =
    handle_client_command_again env env replies [] (codes "c1") 7 (codes "PUT") (codes "k")
      (codes "v") leading after (codes "OK") outcome after-state.0 after-state.1 after-state.2

-- The node after its process was restarted, as the leader again
abbrev again : World
again =
    let v = restart 9 (construct none) after in
    record v { node = record v.node { state = NodeState.leader } }

leading-state :
    (leading.node.shutdown_requested ≡ false)
    × (is_leader leading.node.state ≡ true)
    × (seen (codes "c1") 7 leading.node ≡ false)
unfolding Map.lookup
leading-state = (refl, refl, refl)

after-IsDistinct :
    Map.IsDistinct after.node.client_last_request × Map.IsDistinct after.node.client_result_cache
unfolding handle_client_command replicate_all replicate_to after_replication get_log_term
    get_log_size commit_entry append_command apply_committed Map.lookup Map.insert apply_loop
    apply_next run_command execute bytes_eq next_word remember
after-IsDistinct = ((refl, tt), (refl, tt))

again-state : (again.node.shutdown_requested ≡ false) × (is_leader again.node.state ≡ true)
unfolding restart load_metadata start handle_client_command replicate_all replicate_to
    after_replication get_log_term get_log_size commit_entry append_command apply_committed
    Map.lookup Map.insert apply_loop apply_next run_command execute bytes_eq next_word remember
again-state = (refl, refl)

handle_client_command_stale_example :
    handle_client_command env [] (codes "c1") 7 (codes "DELETE") (codes "k") [] again
    ≡ (again, text (codes "OK"))
handle_client_command_stale_example =
    handle_client_command_stale env env replies [] (codes "c1") 7 (codes "PUT") (codes "k")
      (codes "v") (codes "DELETE") (codes "k") [] 9 (construct none) leading after again
      (codes "OK") outcome leading-state.0 leading-state.1 leading-state.2 after-state.2
      after-IsDistinct.0 after-IsDistinct.1 refl refl again-state.0 again-state.1
