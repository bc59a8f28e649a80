-- ===== src/Raft/Client/Commit.antt =====
-- When a command is committed.
use kv_store_project.Prelude.{
  ℕ, ◌+◌, ◌*◌, ◌<◌, ◌≡◌, ◌⊎◌, inl, inr, refl, ap, ◌∙◌, Bool, true, false, List, [], ◌∷◌, Option,
  none, some, Option-cases, Bool-cases, length, arith, if◌then◌else◌,
}
use kv_store_project.Prelude.Text.{Bytes}
use kv_store_project.Raft.State.{Node, World, Env}
use kv_store_project.Raft.Log.{get_log_size}
use kv_store_project.Raft.Apply.{send_command}
use kv_store_project.Raft.Client.{
  PeerReply, ClientResult, replicate_to, replicate_all, after_replication, can_commit, recall,
  append_command, handle_client_command, is_leader, seen,
}

-- The peers that answer success
unfoldable pub accepted : List (Option PeerReply) → ℕ
accepted [] = 0
accepted (none ∷ replies) = accepted replies
accepted (some r ∷ replies) = if r.success then 1 + accepted replies else accepted replies

-- What replication does not touch, as long as the leader does not step down
record SameCore (v w : Node) : Type 0 where
  current_term : v.current_term ≡ w.current_term
  state : v.state ≡ w.state
  log : v.log ≡ w.log
  commit_index : v.commit_index ≡ w.commit_index
  peers : v.peer_rpc_ports ≡ w.peer_rpc_ports
  shutdown : v.shutdown_requested ≡ w.shutdown_requested

SameCore-refl : (n : Node) → SameCore n n
SameCore-refl n = record {
  current_term = refl;
  state = refl;
  log = refl;
  commit_index = refl;
  peers = refl;
  shutdown = refl;
}

SameCore-trans : {u v w : Node} → SameCore u v → SameCore v w → SameCore u w
SameCore-trans a b = record {
  current_term = a.current_term ∙ b.current_term;
  state = a.state ∙ b.state;
  log = a.log ∙ b.log;
  commit_index = a.commit_index ∙ b.commit_index;
  peers = a.peers ∙ b.peers;
  shutdown = a.shutdown ∙ b.shutdown;
}

-- One reply to the count
abbrev pub one : Option PeerReply → ℕ
one none = 0
one (some r) = if r.success then 1 else 0

replicate_to-some :
    (i : ℕ) (reply : Option PeerReply) (ni count total : ℕ) (w : World)
    → (replicate_to i reply ni count w).1 ≡ some total
    → (total ≡ count + one reply) × SameCore (replicate_to i reply ni count w).0.node w.node
unfolding replicate_to
replicate_to-some i none ni count total w h = ground arith
replicate_to-some i (some r) ni count total w h = ground arith

pub accepted-one :
    (reply : Option PeerReply) (replies : List (Option PeerReply))
    → accepted (reply ∷ replies) ≡ one reply + accepted replies
unfolding accepted
accepted-one none replies = omega arith
accepted-one (some r) replies = ground arith

commit_index-replicate_to :
    (i : ℕ) (reply : Option PeerReply) (ni count : ℕ) (w : World)
    → (replicate_to i reply ni count w).0.node.commit_index ≡ w.node.commit_index
unfolding replicate_to
commit_index-replicate_to i none ni count w = refl
commit_index-replicate_to i (some r) ni count w = ground arith

-- A replication that comes to its end has counted the successes.
replicate_all-some :
    (i : ℕ) (replies : List (Option PeerReply)) (ni count total : ℕ) (w : World)
    → (replicate_all i replies ni count w).1 ≡ some total
    → (total ≡ count + accepted replies)
      × SameCore (replicate_all i replies ni count w).0.node w.node
unfolding replicate_all accepted
replicate_all-some i [] ni count total w h = (ground arith, SameCore-refl w.node)
replicate_all-some i (reply ∷ replies) ni count total w h =
    elim (Option-cases (replicate_to i reply ni count w).1) [
      | inl over ↦ absurd (cc (rw (replicate_all, over) at h))
      | inr (more, on) ↦
          let (counted, same) = replicate_to-some i reply ni count more w on in
          let (rest, core) =
            replicate_all-some (i + 1) replies ni more total (replicate_to i reply ni count w).0
              (rw (replicate_all, on) at h) in
          rw (replicate_all, on)
            (omega (arith, counted, rest, accepted-one reply replies), SameCore-trans core same)
    ]

-- A replication that breaks off has not moved the commit index.
replicate_all-none :
    (i : ℕ) (replies : List (Option PeerReply)) (ni count : ℕ) (w : World)
    → (replicate_all i replies ni count w).1 ≡ none
    → (replicate_all i replies ni count w).0.node.commit_index ≡ w.node.commit_index
unfolding replicate_all
replicate_all-none i [] ni count w h = refl
replicate_all-none i (reply ∷ replies) ni count w h =
    let step = commit_index-replicate_to i reply ni count w in
    elim (Option-cases (replicate_to i reply ni count w).1) [
      | inl over ↦ rw (replicate_all, over) step
      | inr (more, on) ↦
          rw (replicate_all, on)
            (replicate_all-none (i + 1) replies ni more (replicate_to i reply ni count w).0
                (rw (replicate_all, on) at h)
              ∙ step)
    ]

-- The commit index after what follows the loop
commit_index-after_replication :
    (env : Env) (c : Bytes) (id ni : ℕ) (w : World) (counted : Option ℕ)
    → ((after_replication env c id ni (w, counted)).0.node.commit_index ≡ w.node.commit_index)
      ⊎ ((total : ℕ) × (counted ≡ some total) × (length w.node.peer_rpc_ports + 1 < 2 * total))
unfolding after_replication
commit_index-after_replication env c id ni w none = inl refl
commit_index-after_replication env c id ni w (some total) =
    elim (Bool-cases (can_commit ni total w.node)) [
      | inl yes_commit ↦ inr (total, refl, ground (arith, yes_commit))
      | inr no_commit ↦ inl (rw (after_replication, no_commit))
    ]

-- What is claimed of an outcome for a leader in `w`
abbrev Moves : List (Option PeerReply) → World → World × ClientResult → Type 0
Moves replies w p =
    (p.0.node.commit_index ≡ w.node.commit_index)
    ⊎ (length w.node.peer_rpc_ports + 1 < 2 * (1 + accepted replies))

Moves-if :
    (replies : List (Option PeerReply)) (w : World) (b : Bool) (x y : World × ClientResult)
    → Moves replies w x
    → Moves replies w y
    → Moves replies w (if b then x else y)
Moves-if replies w true x y hx hy = hx
Moves-if replies w false x y hx hy = hy

module _ (env : Env) (replies : List (Option PeerReply)) (c : Bytes) (id ni : ℕ) (w : World) where
  Moves-counted :
      (counted : Option ℕ)
      → (replicate_all 0 replies ni 1 w).1 ≡ counted
      → Moves replies w
          (after_replication env c id ni ((replicate_all 0 replies ni 1 w).0, counted))
  unfolding after_replication
  Moves-counted none e = inl (replicate_all-none 0 replies ni 1 w e)
  Moves-counted (some total) e =
      let (sum, core) = replicate_all-some 0 replies ni 1 total w e in
      let after =
        commit_index-after_replication env c id ni (replicate_all 0 replies ni 1 w).0
          (some total) in
      ground (arith, sum, core.commit_index, ap (λ (l : List ℕ). length l) core.peers, after)

  Moves-replicated :
      Moves replies w (after_replication env c id ni (replicate_all 0 replies ni 1 w))
  Moves-replicated = Moves-counted (replicate_all 0 replies ni 1 w).1 refl

pub recall-node : (c : Bytes) (w : World) → (recall c w).0.node.commit_index ≡ w.node.commit_index
unfolding recall
recall-node c w = ground arith

-- The commit index of a node that handles a command stays as it was, or the peers that answered
-- success are, with the node itself, more than half of the cluster.
pub handle_client_command-majority :
    (env : Env) (replies : List (Option PeerReply)) (c : Bytes) (id : ℕ) (command key value : Bytes)
    (w : World)
    → ((handle_client_command env replies c id command key value w).0.node.commit_index
        ≡ w.node.commit_index)
      ⊎ (length w.node.peer_rpc_ports + 1 < 2 * (1 + accepted replies))
unfolding handle_client_command append_command
handle_client_command-majority env replies c id command key value w =
    let w1 = append_command (send_command command key value) w in
    Moves-if replies w w.node.shutdown_requested _ _ (inl refl) (
      Moves-if replies w (is_leader w.node.state) _ _
        (Moves-if replies w (seen c id w.node) _ _ (inl (recall-node c w))
          (Moves-replicated env replies c id (get_log_size w.node) w1))
        (inl refl))
