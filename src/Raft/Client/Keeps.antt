-- ===== src/Raft/Client/Keeps.antt =====
-- What a client's command does to the vote and to the file of the leader.
use kv_store_project.Prelude.{
  ℕ, ◌+◌, inl, inr, List, [], ◌∷◌, Option, none, some, arith, Option-cases, Bool-cases, leb, length,
}
use kv_store_project.Prelude.Int.{pos}
use kv_store_project.Prelude.Text.{Bytes}
use kv_store_project.Raft.State.{World, Env}
use kv_store_project.Raft.Log.{get_log_size}
use kv_store_project.Raft.Ballot.{OnDisk, Holds, Holds-refl, Holds-trans}
use kv_store_project.Raft.Apply.{send_command, apply_committed}
use kv_store_project.Raft.Snapshots.{take_snapshot}
use kv_store_project.Raft.Snapshots.Restore.{take_snapshot-IsTaken}
use kv_store_project.Raft.Append.{snapshot_threshold}
use kv_store_project.Raft.Append.Votes.{apply_committed-SameBallot}
use kv_store_project.Raft.Append.Disk.{apply_committed-OnDisk, take_snapshot-OnDisk}
use kv_store_project.Raft.Client.{
  PeerReply, replicate_to, replicate_all, remember, recall, can_commit, commit_entry,
  after_replication, append_command, is_leader, seen, handle_client_command,
}

replicate_to-Holds :
    (i : ℕ) (reply : Option PeerReply) (new_index count : ℕ) (w : World)
    → OnDisk w
    → Holds w (replicate_to i reply new_index count w).0
unfolding replicate_to
replicate_to-Holds i reply new_index count w d = ground arith

replicate_all-Holds :
    (i : ℕ) (replies : List (Option PeerReply)) (new_index count : ℕ) (w : World)
    → OnDisk w
    → Holds w (replicate_all i replies new_index count w).0
unfolding replicate_all
replicate_all-Holds i [] new_index count w d = Holds-refl w d
replicate_all-Holds i (reply ∷ replies) new_index count w d =
    let one = replicate_to-Holds i reply new_index count w d in
    elim (Option-cases (replicate_to i reply new_index count w).1) [
      | inl over ↦ rw (over, replicate_all) one
      | inr (more, on) ↦
          let rest =
            replicate_all-Holds (i + 1) replies new_index more
              (replicate_to i reply new_index count w).0 one.disk in
          rw (on, replicate_all) (Holds-trans one rest)
    ]

remember-Holds :
    (client_id : Bytes) (request_id : ℕ) (result : Bytes) (w : World)
    → OnDisk w
    → Holds w (remember client_id request_id result w)
unfolding remember
remember-Holds client_id request_id result w d = ground arith

recall-Holds : (client_id : Bytes) (w : World) → OnDisk w → Holds w (recall client_id w).0
unfolding recall
recall-Holds client_id w d = ground arith

apply_committed-Holds : (env : Env) (w : World) → OnDisk w → Holds w (apply_committed env w).0
apply_committed-Holds env w d = record {
  ballot = ground (arith, apply_committed-SameBallot env w);
  disk = apply_committed-OnDisk env w d;
}

take_snapshot-Holds : (env : Env) (w : World) → OnDisk w → Holds w (take_snapshot env w).0
take_snapshot-Holds env w d = record {
  ballot = ground (arith, take_snapshot-IsTaken env w);
  disk = take_snapshot-OnDisk env w d;
}

commit_entry-Holds :
    (env : Env) (client_id : Bytes) (request_id new_index : ℕ) (w : World)
    → OnDisk w
    → Holds w (commit_entry env client_id request_id new_index w).0
unfolding commit_entry
commit_entry-Holds env client_id request_id new_index w d =
    let w1 : World = record w { node = record w.node { commit_index = pos new_index } } in
    let moved : Holds w w1 = ground arith in
    let (w2, result) = apply_committed env w1 in
    let applied = Holds-trans moved (apply_committed-Holds env w1 moved.disk) in
    let shot = Holds-trans applied (take_snapshot-Holds env w2 applied.disk) in
    let kept = remember-Holds client_id request_id result in
    elim (Bool-cases (leb snapshot_threshold (length w2.node.log))) [
      | inl full ↦ elim (Bool-cases (take_snapshot env w2).1) [
        | inl done ↦ rw (full, done) (Holds-trans shot (kept (take_snapshot env w2).0 shot.disk))
        | inr thrown ↦ rw (full, thrown) shot
      ]
      | inr short ↦ rw short (Holds-trans applied (kept w2 applied.disk))
    ]

after_replication-Holds :
    (env : Env) (client_id : Bytes) (request_id new_index : ℕ) (w : World) (c : Option ℕ)
    → OnDisk w
    → Holds w (after_replication env client_id request_id new_index (w, c)).0
unfolding after_replication
after_replication-Holds env client_id request_id new_index w none d = Holds-refl w d
after_replication-Holds env client_id request_id new_index w (some count) d =
    elim (Bool-cases (can_commit new_index count w.node)) [
      | inl can ↦ rw can (commit_entry-Holds env client_id request_id new_index w d)
      | inr not_yet ↦ rw not_yet (Holds-refl w d)
    ]

-- A command of a client keeps the vote, and the file holds it.
pub handle_client_command-Holds :
    (env : Env) (replies : List (Option PeerReply)) (client_id : Bytes) (request_id : ℕ)
    (command key value : Bytes) (w : World)
    → OnDisk w
    → Holds w (handle_client_command env replies client_id request_id command key value w).0
unfolding handle_client_command append_command
handle_client_command-Holds env replies client_id request_id command key value w d =
    let line = send_command command key value in
    let w1 = append_command line w in
    let index = get_log_size w.node in
    let appended : Holds w w1 = ground arith in
    let all = Holds-trans appended (replicate_all-Holds 0 replies index 1 w1 appended.disk) in
    let (w2, counted) = replicate_all 0 replies index 1 w1 in
    let rest =
      Holds-trans all
        (after_replication-Holds env client_id request_id index w2 counted all.disk) in
    let stays = Holds-refl w d in
    let again = recall-Holds client_id w d in
    elim (Bool-cases w.node.shutdown_requested) [
      | inl down ↦ ground (arith, down, stays)
      | inr up ↦ elim (Bool-cases (is_leader w.node.state)) [
        | inr other ↦ ground (arith, up, other, stays)
        | inl leads ↦ elim (Bool-cases (seen client_id request_id w.node)) [
          | inl known ↦ ground (arith, up, leads, known, again)
          | inr fresh ↦ ground (arith, up, leads, fresh, rest)
        ]
      ]
    ]
