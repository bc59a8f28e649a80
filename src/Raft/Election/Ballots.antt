-- ===== src/Raft/Election/Ballots.antt =====
-- The vote of a node over any sequence of handlers, elections and restarts: one vote in each term.
use kv_store_project.Prelude.{ℕ, ◌<◌, ◌≡◌, ◌≢◌, true, false, List, Option, arith}
use kv_store_project.Prelude.Int.{minus_one}
use kv_store_project.KvStore.{KvStore}
use kv_store_project.Raft.State.{World, Snapshot, Env}
use kv_store_project.Raft.Persist.{restart}
use kv_store_project.Raft.Role.{become_follower, reset_timeout}
use kv_store_project.Raft.Ballot.{OnDisk, KeepsVote, KeepsVote-refl, KeepsVote-trans, Holds}
use kv_store_project.Raft.Vote.{RequestVoteRpc, RequestVoteResponse, request_vote}
use kv_store_project.Raft.Vote.Rules.{request_vote-KeepsVote, request_vote_granted}
use kv_store_project.Raft.Snapshots.{trigger_snapshot}
use kv_store_project.Raft.Append.{AppendEntriesRpc, append_entries}
use kv_store_project.Raft.Append.Votes.{append_entries-SameBallot}
use kv_store_project.Raft.Append.Disk.{append_entries-OnDisk, trigger_snapshot-OnDisk}
use kv_store_project.Raft.Install.{InstallSnapshotRpc, install_snapshot}
use kv_store_project.Prelude.Text.{Bytes}
use kv_store_project.Raft.Client.{PeerReply, handle_client_command}
use kv_store_project.Raft.Client.Keeps.{handle_client_command-Holds}
use kv_store_project.Raft.Heartbeat.{Replies, heartbeat_round}
use kv_store_project.Raft.Heartbeat.Keeps.{heartbeat_round-Holds}
use kv_store_project.Raft.Election.{start_election}
use kv_store_project.Raft.Election.Keeps.{
  request_vote-OnDisk, start_election-Holds, become_follower-Holds, install_snapshot-Holds,
  restart-Holds, reset_timeout-Holds, SameBallot-KeepsVote, trigger_snapshot-SameBallot,
}

-- One handler, election or restart. The callers of becomeFollower know a newer term.
pub data Step : World → World → Type 0 where
  votes : (r : RequestVoteRpc) (w : World) → Step w (request_vote r w).0
  appends : (env : Env) (r : AppendEntriesRpc) (w : World) → Step w (append_entries env r w).0
  elects :
      (env : Env) (nodes : ℕ) (replies : List (Option RequestVoteResponse)) (w : World)
      → Step w (start_election env nodes replies w)
  follows : (t : ℕ) (w : World) → w.node.current_term < t → Step w (become_follower t w)
  resets : (env : Env) (w : World) → Step w (reset_timeout env w)
  snapshots : (env : Env) (w : World) → Step w (trigger_snapshot env w).0
  installs :
      (old : Snapshot) (r : InstallSnapshotRpc) (w : World) → Step w (install_snapshot old r w).0
  beats : (env : Env) (replies : Replies) (w : World) → Step w (heartbeat_round env replies w).0
  commands :
      (env : Env) (replies : List (Option PeerReply)) (client_id : Bytes) (request_id : ℕ)
      (command key value : Bytes) (w : World)
      → Step w (handle_client_command env replies client_id request_id command key value w).0
  restarts : (now : ℕ) (store : KvStore) (w : World) → Step w (restart now store w)

pub data Run (u : World) : World → Type 0 where
  here : Run u u
  next : {v w : World} → Run u v → Step v w → Run u w

-- Every step keeps the vote and the file.
Step-Holds : {v w : World} → Step v w → OnDisk v → Holds v w
Step-Holds (votes r w) d = record {
  ballot = request_vote-KeepsVote r w;
  disk = request_vote-OnDisk r w d;
}
Step-Holds (appends env r w) d = record {
  ballot =
      SameBallot-KeepsVote w.node (append_entries env r w).0.node
        (append_entries-SameBallot env r w);
  disk = append_entries-OnDisk env r w d;
}
Step-Holds (elects env nodes replies w) d = start_election-Holds env nodes replies w d
Step-Holds (follows t w h) d = become_follower-Holds t w h d
Step-Holds (resets env w) d = reset_timeout-Holds env w d
Step-Holds (snapshots env w) d = record {
  ballot =
      SameBallot-KeepsVote w.node (trigger_snapshot env w).0.node
        (trigger_snapshot-SameBallot env w);
  disk = trigger_snapshot-OnDisk env w d;
}
Step-Holds (installs old r w) d = install_snapshot-Holds old r w d
Step-Holds (beats env replies w) d = heartbeat_round-Holds env replies w d
Step-Holds (commands env replies client_id request_id command key value w) d =
    handle_client_command-Holds env replies client_id request_id command key value w d
Step-Holds (restarts now store w) d = restart-Holds now store w d

-- Over any run the term does not fall, and a vote stays as long as the term does; the file always
-- holds the term and the vote, as it does at the start.
pub Run-KeepsVote : (u w : World) → Run u w → OnDisk u → KeepsVote u.node w.node × OnDisk w
Run-KeepsVote u w here d = (KeepsVote-refl u.node, d)
Run-KeepsVote u w (next {v} run step) d =
    let (kept, disk) = Run-KeepsVote u v run d in
    let after = Step-Holds step disk in
    (KeepsVote-trans u.node v.node w.node kept after.ballot, after.disk)

-- However a node runs on after it has granted its vote, through any sequence of RequestVote,
-- AppendEntries and InstallSnapshot handlers, client commands, elections, rounds of heartbeats,
-- snapshots, timer resets and restarts, if it then grants another request of the same term, that is for the same candidate. At the start the
-- metadata file holds the term and the vote of the node, the first candidate's number is not -1,
-- and the node is not shutting down at either request. The handlers run one after another.
pub one_vote_per_term :
    (r s : RequestVoteRpc) (u v : World)
    → OnDisk u
    → Run (request_vote r u).0 v
    → u.node.shutdown_requested ≡ false
    → v.node.shutdown_requested ≡ false
    → r.candidate_id ≢ minus_one
    → r.term ≡ s.term
    → (request_vote r u).1.vote_granted ≡ true
    → (request_vote s v).1.vote_granted ≡ true
    → r.candidate_id ≡ s.candidate_id
one_vote_per_term r s u v d run live still real same first second =
    let grant = request_vote_granted r u live first in
    let again = request_vote_granted s v still second in
    let kept = (Run-KeepsVote (request_vote r u).0 v run (request_vote-OnDisk r u d)).0 in
    let all =
      KeepsVote-trans (request_vote r u).0.node v.node (request_vote s v).0.node kept
        (request_vote-KeepsVote s v) in
    ground (arith, all, grant.0, grant.2, again.0, again.2)
