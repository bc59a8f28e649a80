-- ===== src/Raft/Cluster/Liveness.antt =====
-- An election that is won.
use kv_store_project.Prelude.{
  ℕ, ◌<◌, ◌≤◌, ◌≡◌, ◌≢◌, inl, inr, refl, true, false, List, [], ◌∷◌, Option, none, some, arith, ◌+◌,
  Bool-cases, ◌==◌,
}
use kv_store_project.Raft.State.{NodeState, World, Env}
use kv_store_project.Raft.Vote.{RequestVoteRpc, RequestVoteResponse}
use kv_store_project.Raft.Vote.Rules.{IsUpToDate, request_vote_grants, request_vote_term}
use kv_store_project.Raft.Election.{begin_election, vote_request, start_election}
use kv_store_project.Raft.Election.Majority.{
  grants, NoNewer, start_election_lem, start_election-leader,
}
use kv_store_project.Raft.Cluster.{
  num_nodes, Cluster, update, others, peers_of, Delivery, deliver, is_newer, gather, hold_election,
}
use kv_store_project.Raft.Cluster.Votes.{
  Has, Has-ne, Distinct, update_self, update_ne, gather_on, granted, grants-cons,
}
use kv_store_project.Raft.Cluster.Safety.{
  IsRunning, peers_of-Has, peers_of-Distinct, hold_election_lem, request_lem,
}

-- The answer carries no term above the request's.
IsCalm : ℕ → Option RequestVoteResponse → Type 0
IsCalm t none = Unit {0}
IsCalm t (some resp) = resp.term ≤ t

module _ (r : RequestVoteRpc) where
  deliver-IsCalm :
      (how : Delivery) (w : World)
      → w.node.current_term ≤ r.term
      → IsCalm r.term (deliver how r w).1
  unfolding deliver IsCalm
  deliver-IsCalm Delivery.lost w h = tt
  deliver-IsCalm Delivery.unanswered w h = tt
  deliver-IsCalm Delivery.answered w h = request_vote_term r w h

  IsCalm-is_newer :
      (reply : Option RequestVoteResponse) → IsCalm r.term reply → is_newer r.term reply ≡ false
  unfolding IsCalm
  IsCalm-is_newer none h = refl
  IsCalm-is_newer (some resp) h = ground (arith, h)

  NoNewer-cons :
      (reply : Option RequestVoteResponse) (replies : List (Option RequestVoteResponse))
      → IsCalm r.term reply
      → NoNewer r.term replies
      → NoNewer r.term (reply ∷ replies)
  unfolding IsCalm
  NoNewer-cons none replies h rest = rest
  NoNewer-cons (some resp) replies h rest = (h, rest)

  -- No peer is in a newer term: all are asked.
  gather_calm :
      (js : List ℕ) (net : ℕ → Delivery) (c : Cluster)
      → Distinct js
      → ((k : ℕ) → Has k js → (c k).node.current_term ≤ r.term)
      → NoNewer r.term (gather js net r c).1
        × ((j : ℕ)
            → Has j js
            → granted (deliver (net j) r (c j)).1 ≡ true
            → 0 < grants (gather js net r c).1)
  unfolding gather
  gather_calm [] net c apart terms = (tt, λ j has. absurd has)
  gather_calm (k ∷ js) net c apart terms =
      let (w, reply) = deliver (net k) r (c k) in
      let calm = deliver-IsCalm (net k) (c k) (terms k (inl refl)) in
      let e = gather_on k js net r c (IsCalm-is_newer reply calm) in
      let c' = update k w c in
      let kept : (m : ℕ) → Has m js → c' m ≡ c m =
        λ m has. update_ne k m w c (Has-ne js apart.0 has) in
      let (no_newer, some_grant) =
        gather_calm js net c' apart.1 (λ m has. rw (kept m has) (terms m (inr has))) in
      let count = grants-cons reply (gather js net r c').1 in
      rw e (
        NoNewer-cons reply (gather js net r c').1 calm no_newer,
        λ j has won. elim has [
          | inl same ↦ ground (arith, count, rw same at won)
          | inr later ↦ ground (arith, count, some_grant j later (rw (kept j later) won))
        ],
      )

Has-others : (i j : ℕ) (js : List ℕ) → j ≢ i → Has j js → Has j (others i js)
unfolding others
Has-others i j [] ne h = h
Has-others i j (k ∷ js) ne (inl e) =
    let kept : (k == i) ≡ false = ground (arith, e, ne) in rw (kept, ◌==◌) (inl e)
Has-others i j (k ∷ js) ne (inr h) =
    let rest = Has-others i j js ne h in
    elim (Bool-cases (k == i)) [ inl e ↦ rw (e, ◌==◌) rest | inr e ↦ rw (e, ◌==◌) (inr rest) ]

Has-peers_of : (i j : ℕ) → j < num_nodes → j ≢ i → Has j (peers_of i)
unfolding peers_of
Has-peers_of i j small ne =
    let has : Has j (0 ∷ 1 ∷ 2 ∷ []) = ground arith in Has-others i j (0 ∷ 1 ∷ 2 ∷ []) ne has

-- A node wins its election, and leads the next term, if no other node is in a newer term than its
-- own and one of them answers: one that is reached both ways, has no snapshot, and whose log is not
-- ahead of the candidate's. The other answer may be lost. The nodes are numbered 0 to 2 and are not
-- shutting down, and their metadata files hold their terms and votes.
pub hold_election_wins :
    (env : Env) (i j : ℕ) (net : ℕ → Delivery) (c : Cluster)
    → i < num_nodes
    → j < num_nodes
    → j ≢ i
    → IsRunning c
    → ((k : ℕ) → k < num_nodes → (c k).node.current_term ≤ (c i).node.current_term)
    → net j ≡ Delivery.answered
    → (c j).node.latest_snapshot ≡ none
    → IsUpToDate (vote_request (begin_election (c i)).node) (c j).node
    → let w = hold_election env i net c i in
      (w.node.state ≡ NodeState.leader) × (w.node.current_term ≡ (c i).node.current_term + 1)
unfolding deliver
hold_election_wins env i j net c here small ne running terms answers snap up_to_date =
    let r = vote_request (begin_election (c i)).node in
    let (term, id) = request_lem env i net c here running in
    let asked = gather (peers_of i) net r c in
    let (no_newer, some_grant) =
      gather_calm r (peers_of i) net c (peers_of-Distinct i here)
        (λ k has. let le = terms k (peers_of-Has i k has).0 in omega (arith, le, term)) in
    let grant : granted (deliver (net j) r (c j)).1 ≡ true =
      rw (answers, deliver)
        (request_vote_grants r (c j) (running.live j small) snap
          (omega (arith, terms j small, term)) up_to_date) in
    let counted = some_grant j (Has-peers_of i j small ne) grant in
    let live = running.live i here in
    let w = start_election env num_nodes asked.1 (c i) in
    let led : w.node.state ≡ NodeState.leader =
      (start_election_lem env num_nodes asked.1 (c i) live).1
        (rw (← term) no_newer, omega (arith, counted)) in
    let self : hold_election env i net c i ≡ w =
      rw (hold_election_lem env i net c here running) (update_self i w asked.0) in
    rw self (led, (start_election-leader env num_nodes asked.1 (c i) live led).0)
