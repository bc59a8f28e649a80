-- ===== src/Raft/Cluster/Safety.antt =====
-- No term has two leaders.
use kv_store_project.Prelude.{
  ℕ, zero, suc, ◌<◌, ◌≤◌, ◌≡◌, ◌≢◌, ◌⊎◌, inl, inr, refl, ap, ◌∙◌, false, List, [], ◌∷◌, arith, ◌+◌,
  ◌==◌, Bool-cases, ==_iff,
}
use kv_store_project.Prelude.Int.{pos}
use kv_store_project.Raft.State.{NodeState, World, Env}
use kv_store_project.Raft.Ballot.{OnDisk, KeepsVote-trans, Holds}
use kv_store_project.Raft.Vote.{RequestVoteRpc}
use kv_store_project.Raft.Election.{begin_election, vote_request, start_election}
use kv_store_project.Raft.Election.Majority.{start_election_lem, start_election-leader}
use kv_store_project.Raft.Election.Ballots.{Run, Run-KeepsVote}
use kv_store_project.Raft.Election.Keeps.{start_election-Holds}
use kv_store_project.Raft.Cluster.{
  num_nodes, Cluster, update, others, peers_of, Delivery, gather, hold_election,
}
use kv_store_project.Raft.Cluster.Votes.{
  Backs, Has, Distinct, update_self, update_ne, gather-Holds, gather-Backs,
}

-- Every node has its number, is not shutting down, and has its term and vote in its file.
pub record IsRunning (c : Cluster) : Type 0 where
  pub numbered : (j : ℕ) → j < num_nodes → (c j).node.id ≡ j
  pub live : (j : ℕ) → j < num_nodes → (c j).node.shutdown_requested ≡ false
  pub disk : (j : ℕ) → j < num_nodes → OnDisk (c j)

pub peers_of-Distinct : (i : ℕ) → i < num_nodes → Distinct (peers_of i)
unfolding peers_of
peers_of-Distinct zero h = ((λ e. omega (arith, e), tt), (tt, tt))
peers_of-Distinct (suc zero) h = ((λ e. omega (arith, e), tt), (tt, tt))
peers_of-Distinct (suc (suc zero)) h = ((λ e. omega (arith, e), tt), (tt, tt))
peers_of-Distinct (suc (suc (suc i))) h = absurd (omega arith)

others-Has : (i j : ℕ) (js : List ℕ) → Has j (others i js) → Has j js × (j ≢ i)
unfolding others
others-Has i j [] h = absurd h
others-Has i j (k ∷ js) h = elim (Bool-cases (k == i)) [
  | inl same ↦ let (has, ne) = others-Has i j js (rw (same, ◌==◌) at h) in (inr has, ne)
  | inr other ↦ elim (rw (other, ◌==◌) at h) [
    | inl e ↦ (inl e, ground (arith, other, e))
    | inr has ↦ let (in_js, ne) = others-Has i j js has in (inr in_js, ne)
  ]
]

pub peers_of-Has : (i j : ℕ) → Has j (peers_of i) → (j < num_nodes) × (j ≢ i)
unfolding peers_of
peers_of-Has i j h = let (has, ne) = others-Has i j (0 ∷ 1 ∷ 2 ∷ []) h in (ground (arith, has), ne)

module _ (env : Env) (i : ℕ) (net : ℕ → Delivery) (c : Cluster) (here : i < num_nodes)
    (running : IsRunning c) where
  abbrev pub request : RequestVoteRpc
  request = vote_request (begin_election (c i)).node

  pub request_lem : (request.term ≡ (c i).node.current_term + 1) × (request.candidate_id ≡ pos i)
  unfolding vote_request begin_election
  request_lem = (refl, ap pos (running.numbered i here))

  pub hold_election_lem : hold_election env i net c ≡ (
      let (c', replies) = gather (peers_of i) net request c in
      update i (start_election env num_nodes replies (c i)) c')
  unfolding hold_election
  hold_election_lem = rw (running.live i here)

  pub hold_election-Holds : (k : ℕ) → k < num_nodes → Holds (c k) (hold_election env i net c k)
  hold_election-Holds k h =
      let asked =
        gather-Holds (peers_of i) net request c (λ j has. running.disk j (peers_of-Has i j has).0) k
          (running.disk k h) in
      let (c', replies) = gather (peers_of i) net request c in
      let w = start_election env num_nodes replies (c i) in
      elim (Bool-cases (k == i)) [
        | inl same ↦
            let e = (==_iff k i).0 same in
            rw (hold_election_lem, e, update_self i w c')
              (start_election-Holds env num_nodes replies (c i) (running.disk i here))
        | inr other ↦ rw (hold_election_lem, other) asked
      ]

  -- The winner and at least one other node have their votes with the winner.
  hold_election-Backs :
      (hold_election env i net c i).node.state ≡ NodeState.leader
      → let c' = hold_election env i net c in
        let t = (c i).node.current_term + 1 in
        Backs i t (c' i) × ((j : ℕ) × (j < num_nodes) × (j ≢ i) × Backs i t (c' j))
  hold_election-Backs wins =
      let asked = gather (peers_of i) net request c in
      let w = start_election env num_nodes asked.1 (c i) in
      let self : hold_election env i net c i ≡ w = rw hold_election_lem (update_self i w asked.0) in
      let led : w.node.state ≡ NodeState.leader = rw self at wins in
      let live = running.live i here in
      let (term, vote) = start_election-leader env num_nodes asked.1 (c i) live led in
      let (calm, most) = (start_election_lem env num_nodes asked.1 (c i) live).0 led in
      let (j, has, backs) =
        gather-Backs i request request_lem.1 (peers_of i) net c (peers_of-Distinct i here)
          (λ j has. running.live j (peers_of-Has i j has).0) (omega (arith, most)) in
      let (small, ne) = peers_of-Has i j has in
      let other : hold_election env i net c j ≡ asked.0 j =
        rw hold_election_lem (update_ne i j w asked.0 ne) in
      (
        rw self (record { term = term; vote = vote ∙ ap pos (running.numbered i here) }),
        (j, small, ne, rw other (rw (← request_lem.0) backs)),
      )

-- A node that has its vote with `i` in term `t`, runs on, takes part in an election and then has it
-- with `i'` in term `t'`: the term is later, or it is one candidate in one term.
Backs-Run :
    (i i' t t' : ℕ) (u v w : World)
    → Backs i t u
    → OnDisk u
    → Run u v
    → Holds v w
    → Backs i' t' w
    → (t < t') ⊎ ((t ≡ t') × (i ≡ i'))
Backs-Run i i' t t' u v w first disk run held second =
    let kept = (Run-KeepsVote u v run disk).0 in
    let all = KeepsVote-trans u.node v.node w.node kept held.ballot in
    ground (arith, all, first.term, first.vote, second.term, second.vote)

-- Two pairs of nodes of the three have a node in common.
majorities_meet :
    (i j i' j' : ℕ)
    → i < num_nodes
    → j < num_nodes
    → j ≢ i
    → i' < num_nodes
    → j' < num_nodes
    → j' ≢ i'
    → (i ≡ i') ⊎ (i ≡ j') ⊎ (j ≡ i') ⊎ (j ≡ j')
majorities_meet i j i' j' hi hj ne hi' hj' ne' = ground arith

-- If a node wins an election, the nodes then run on through any handlers, commands, elections,
-- heartbeats, snapshots and restarts, and a node wins another election, that one leads a later term than the first: no term
-- has two leaders. At the start of each of the two elections the nodes are numbered 0 to 2 and are
-- not shutting down, and their metadata files hold their terms and votes; nothing else runs during
-- the two elections. Any of their requests and answers may be lost.
pub leader_terms_increase :
    (env env' : Env) (i i' : ℕ) (net net' : ℕ → Delivery) (c d : Cluster)
    → i < num_nodes
    → i' < num_nodes
    → IsRunning c
    → IsRunning d
    → ((j : ℕ) → j < num_nodes → Run (hold_election env i net c j) (d j))
    → (hold_election env i net c i).node.state ≡ NodeState.leader
    → (hold_election env' i' net' d i').node.state ≡ NodeState.leader
    → (hold_election env i net c i).node.current_term
      < (hold_election env' i' net' d i').node.current_term
leader_terms_increase env env' i i' net net' c d here here' running running' runs wins wins' =
    let (own, (j, small, ne, backs)) = hold_election-Backs env i net c here running wins in
    let (own', (j', small', ne', backs')) =
      hold_election-Backs env' i' net' d here' running' wins' in
    let t = (c i).node.current_term + 1 in
    let t' = (d i').node.current_term + 1 in
    let after = hold_election-Holds env i net c here running in
    let at : (k : ℕ)
        → k < num_nodes
        → Backs i t (hold_election env i net c k)
        → Backs i' t' (hold_election env' i' net' d k)
        → (t < t') ⊎ ((t ≡ t') × (i ≡ i')) =
      λ k h first second.
        Backs-Run i i' t t' (hold_election env i net c k) (d k) (hold_election env' i' net' d k)
          first (after k h).disk (runs k h) (hold_election-Holds env' i' net' d here' running' k h)
          second in
    let met : (t < t') ⊎ ((t ≡ t') × (i ≡ i')) =
      elim (majorities_meet i j i' j' here small ne here' small' ne') [
        | inl e ↦ at i here own (rw e own')
        | inr (inl e) ↦ at i here own (rw e backs')
        | inr (inr (inl e)) ↦ at i' here' (rw (← e) backs) own'
        | inr (inr (inr e)) ↦ at j small backs (rw e backs')
      ] in
    let grown =
      (Run-KeepsVote (hold_election env i net c i) (d i) (runs i here) (after i here).disk).0 in
    elim met [
      | inl later ↦ omega (arith, later, own.term, own'.term)
      | inr (same, e) ↦
          let step : t ≤ (d i).node.current_term = ground (arith, grown, own.term) in
          absurd (omega (arith, same, step, ap (λ (k : ℕ). (d k).node.current_term) e))
    ]
