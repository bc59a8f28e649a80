-- ===== src/Raft/Submit/Examples.antt =====
-- A command to a leader of term 2 with two entries: one follower has both, one cannot be reached.
use kv_store_project.Prelude.{◌+◌, ◌*◌, ◌<◌, ◌≡◌, ◌⊎◌, refl, [], ◌∷◌, arith}
use kv_store_project.Prelude.Int.{pos}
use kv_store_project.Prelude.Text.{codes}
use kv_store_project.Prelude.Map
use kv_store_project.Raft.State.{World, NodeState, RaftEntry}
use kv_store_project.Raft.Log.{get_log_size, get_log_term, append_log_entry}
use kv_store_project.Raft.Append.{is_consistent}
use kv_store_project.Raft.Client.{append_command}
use kv_store_project.Raft.Cluster.{Delivery}
use kv_store_project.Raft.Samples.{env, node, world, entry_0, entry_1}
use kv_store_project.Raft.Submit.{Peers, submit}
use kv_store_project.Raft.Submit.Majority.{holding, submit-majority}
use kv_store_project.Raft.Submit.Unstored.{submit_unstored}

abbrev leader : World
leader = record world {
  node = record node { id = 0; state = NodeState.leader; next_index = 2 ∷ 2 ∷ [] };
}

abbrev entry : RaftEntry
entry = record { term = 2; index = 2; command = codes "PUT k v" }

abbrev peers : Peers
peers = (world, Delivery.answered) ∷ (world, Delivery.lost) ∷ []

submit-majority_example :
    let (w', result, peers') =
      submit env env peers (codes "c1") 7 (codes "PUT") (codes "k") (codes "v") leader in
    (w'.node.commit_index ≡ pos 1) ⊎ (2 + 1 < 2 * (1 + holding 2 entry peers'))
unfolding append_command get_log_size append_log_entry
submit-majority_example =
    submit-majority env env peers (codes "c1") 7 (codes "PUT") (codes "k") (codes "v") leader refl (
      record {
        bare = refl;
        bare' = refl;
        size = refl;
        numbered = (refl, (refl, (refl, tt)));
        behind = omega arith;
        room = omega arith;
      },
      (
        record {
          bare = refl;
          bare' = refl;
          size = refl;
          numbered = (refl, (refl, (refl, tt)));
          behind = omega arith;
          room = omega arith;
        },
        tt,
      ),
    )

-- The leader takes its followers to have one entry only.
abbrev forgetful : World
forgetful = record leader { node = record leader.node { next_index = 1 ∷ 1 ∷ [] } }

submit_unstored_example :
    let (w', result, peers') =
      submit env env peers (codes "c1") 7 (codes "PUT") (codes "k") (codes "v") forgetful in
    (w'.node.commit_index ≡ pos 2) × (holding 2 entry peers' ≡ 0)
unfolding append_command get_log_size append_log_entry get_log_term is_consistent Map.lookup
submit_unstored_example =
    submit_unstored env env (codes "c1") 7 (codes "PUT") (codes "k") (codes "v") forgetful world
      world entry_1 (entry_0 ∷ []) refl refl (omega arith)
      (record {
        bare = refl;
        bare' = refl;
        idle = refl;
        follows = refl;
        term = refl;
        size = refl;
        behind = omega arith;
        same = refl;
        passes = refl;
        committed = refl;
      })
      refl refl (omega arith)
