-- ===== src/Raft/Election/Keeps.antt =====
-- What the handlers, elections and restarts of a node do to its vote and to its file.
use kv_store_project.Prelude.{
  ℕ, ◌<◌, inl, inr, refl, sym, Bool, true, false, List, [], ◌∷◌, Option, none, some, Option-cases,
  Bool-cases, arith, ltb, if◌then◌else◌,
}
use kv_store_project.KvStore.{KvStore}
use kv_store_project.Raft.State.{Node, World, Snapshot, Env}
use kv_store_project.Raft.Persist.{load_metadata, start, restart}
use kv_store_project.Raft.Role.{become_follower, reset_timeout}
use kv_store_project.Raft.Ballot.{OnDisk, KeepsVote, KeepsVote-refl, Holds, Holds-trans}
use kv_store_project.Raft.Vote.{RequestVoteRpc, RequestVoteResponse, request_vote}
use kv_store_project.Raft.Snapshots.{trigger_snapshot}
use kv_store_project.Raft.Snapshots.Restore.{take_snapshot-IsTaken}
use kv_store_project.Raft.Append.Votes.{SameBallot}
use kv_store_project.Raft.Install.{
  InstallSnapshotRpc, install_snapshot, take_chunk, install, receive_term, count_install,
}
use kv_store_project.Raft.Election.{
  ask_peer, ask_peers, begin_election, finish_election, after_count, start_election,
}

pub request_vote-OnDisk : (r : RequestVoteRpc) (w : World) → OnDisk w → OnDisk (request_vote r w).0
unfolding request_vote
request_vote-OnDisk r w d = ground (arith)

begin_election-Holds : (w : World) → Holds w (begin_election w)
unfolding begin_election
begin_election-Holds w = ground (arith)

ask_peer-Holds :
    (r : Option RequestVoteResponse) (k : ℕ) (w : World) → OnDisk w → Holds w (ask_peer r k w).0
unfolding ask_peer
ask_peer-Holds r k w d = ground (arith)

finish_election-Holds :
    (env : Env) (nodes k : ℕ) (w : World) → OnDisk w → Holds w (finish_election env nodes k w)
unfolding finish_election
finish_election-Holds env nodes k w d = ground (arith)

pub become_follower-Holds :
    (t : ℕ) (w : World) → w.node.current_term < t → OnDisk w → Holds w (become_follower t w)
unfolding become_follower
become_follower-Holds t w h d = ground (arith)

take_chunk-Holds :
    (old : Snapshot) (r : InstallSnapshotRpc) (w : World)
    → OnDisk w
    → Holds w (take_chunk old r w).0
unfolding take_chunk install
take_chunk-Holds old r w d = ground arith

receive_term-Holds : (r : InstallSnapshotRpc) (w : World) → OnDisk w → Holds w (receive_term r w)
unfolding receive_term
receive_term-Holds r w d = ground arith

pub install_snapshot-Holds :
    (old : Snapshot) (r : InstallSnapshotRpc) (w : World)
    → OnDisk w
    → Holds w (install_snapshot old r w).0
unfolding install_snapshot
install_snapshot-Holds old r w d =
    let counted : Holds w (count_install w) = record {
      ballot = inr (refl, inr refl);
      disk = record { term = d.term; vote = d.vote };
    } in
    let heard = receive_term-Holds r (count_install w) counted.disk in
    let chunk = take_chunk-Holds old r (receive_term r (count_install w)) heard.disk in
    let both = Holds-trans counted (Holds-trans heard chunk) in
    elim (Bool-cases (ltb r.term w.node.current_term)) [
      | inl stale ↦ ground (arith, stale, counted)
      | inr current ↦ ground (arith, current, both)
    ]

pub restart-Holds :
    (now : ℕ) (store : KvStore) (w : World) → OnDisk w → Holds w (restart now store w)
unfolding restart load_metadata start
restart-Holds now store w d = ground (arith)

pub reset_timeout-Holds : (env : Env) (w : World) → OnDisk w → Holds w (reset_timeout env w)
unfolding reset_timeout
reset_timeout-Holds env w d = ground arith

ask_peers-Holds :
    (replies : List (Option RequestVoteResponse)) (k : ℕ) (w : World)
    → OnDisk w
    → Holds w (ask_peers replies k w).0
unfolding ask_peers
ask_peers-Holds [] k w d = record { ballot = KeepsVote-refl w.node; disk = d }
ask_peers-Holds (r ∷ replies) k w d =
    let one = ask_peer-Holds r k w d in
    elim (Option-cases (ask_peer r k w).1) [
      | inl over ↦ rw (over, ask_peers) one
      | inr (more, on) ↦
          let rest = ask_peers-Holds replies more (ask_peer r k w).0 one.disk in
          rw (on, ask_peers) (Holds-trans one rest)
    ]

after_count-Holds :
    (env : Env) (nodes : ℕ) (w : World) (c : Option ℕ)
    → OnDisk w
    → Holds w (after_count env nodes (w, c))
unfolding after_count
after_count-Holds env nodes w none d = record { ballot = KeepsVote-refl w.node; disk = d }
after_count-Holds env nodes w (some k) d = finish_election-Holds env nodes k w d

Holds-if : {v x y : World} → (b : Bool) → Holds v x → Holds v y → Holds v (if b then x else y)
Holds-if true hx hy = hx
Holds-if false hx hy = hy

pub start_election-Holds :
    (env : Env) (nodes : ℕ) (replies : List (Option RequestVoteResponse)) (w : World)
    → OnDisk w
    → Holds w (start_election env nodes replies w)
unfolding start_election
start_election-Holds env nodes replies w d =
    let begun = begin_election-Holds w in
    let asked = ask_peers-Holds replies 1 (begin_election w) begun.disk in
    let (w1, c) = ask_peers replies 1 (begin_election w) in
    Holds-if w.node.shutdown_requested (record { ballot = KeepsVote-refl w.node; disk = d })
      (Holds-trans begun (Holds-trans asked (after_count-Holds env nodes w1 c asked.disk)))

pub SameBallot-KeepsVote : (m n : Node) → SameBallot m n → KeepsVote m n
SameBallot-KeepsVote m n s = inr (s.0, inr (sym s.1))

pub trigger_snapshot-SameBallot :
    (env : Env) (w : World) → SameBallot w.node (trigger_snapshot env w).0.node
unfolding trigger_snapshot
trigger_snapshot-SameBallot env w = ground (arith, take_snapshot-IsTaken env w)
