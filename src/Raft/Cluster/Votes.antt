-- ===== src/Raft/Cluster/Votes.antt =====
-- What the requests of a candidate do to the votes of the nodes that it asks.
use kv_store_project.Prelude.{
  ℕ, ◌<◌, ◌≡◌, ◌≢◌, ◌⊎◌, inl, inr, refl, sym, ◌∙◌, Bool, true, false, List, [], ◌∷◌, Option, none,
  some, arith, if◌then◌else◌, All, Bool-cases, ◌+◌,
}
use kv_store_project.Prelude.Int.{pos}
use kv_store_project.Raft.State.{World}
use kv_store_project.Raft.Ballot.{OnDisk, Holds, Holds-refl, Holds-trans}
use kv_store_project.Raft.Vote.{RequestVoteRpc, RequestVoteResponse, request_vote}
use kv_store_project.Raft.Vote.Rules.{request_vote-KeepsVote, request_vote_granted}
use kv_store_project.Raft.Election.Majority.{grants}
use kv_store_project.Raft.Election.Keeps.{request_vote-OnDisk}
use kv_store_project.Raft.Cluster.{Cluster, update, Delivery, deliver, is_newer, gather}

-- In term `t` the vote of the node is that of node `i`.
pub record Backs (i t : ℕ) (w : World) : Type 0 where
  pub term : w.node.current_term ≡ t
  pub vote : w.node.voted_for ≡ pos i

abbrev pub Has : ℕ → List ℕ → Type 0
Has j [] = ⊥
Has j (k ∷ ks) = (j ≡ k) ⊎ Has j ks

abbrev pub Distinct : List ℕ → Type 0
Distinct [] = Unit {0}
Distinct (j ∷ js) = All (λ k. k ≢ j) js × Distinct js

pub update_self : (j : ℕ) (w : World) (c : Cluster) → update j w c j ≡ w
update_self j w c = ground arith

pub update_ne : (j k : ℕ) (w : World) (c : Cluster) → k ≢ j → update j w c k ≡ c k
update_ne j k w c h = ground arith

Holds-update :
    (j : ℕ) (w : World) (c : Cluster)
    → Holds (c j) w
    → (k : ℕ) → OnDisk (c k)
    → Holds (c k) (update j w c k)
Holds-update j w c h k d = ground (arith, h, Holds-refl (c k) d)

request_vote-Holds : (r : RequestVoteRpc) (w : World) → OnDisk w → Holds w (request_vote r w).0
request_vote-Holds r w d = record {
  ballot = request_vote-KeepsVote r w;
  disk = request_vote-OnDisk r w d;
}

deliver-Holds :
    (how : Delivery) (r : RequestVoteRpc) (w : World) → OnDisk w → Holds w (deliver how r w).0
unfolding deliver
deliver-Holds Delivery.lost r w d = Holds-refl w d
deliver-Holds Delivery.unanswered r w d = request_vote-Holds r w d
deliver-Holds Delivery.answered r w d = request_vote-Holds r w d

-- The two ways of a request
module _ (j : ℕ) (js : List ℕ) (net : ℕ → Delivery) (r : RequestVoteRpc) (c : Cluster) where
  gather_newer :
      is_newer r.term (deliver (net j) r (c j)).1 ≡ true
      → gather (j ∷ js) net r c
        ≡ (update j (deliver (net j) r (c j)).0 c, (deliver (net j) r (c j)).1 ∷ [])
  unfolding gather
  gather_newer h = rw h

  pub gather_on :
      is_newer r.term (deliver (net j) r (c j)).1 ≡ false
      → let rest = gather js net r (update j (deliver (net j) r (c j)).0 c) in
        gather (j ∷ js) net r c ≡ (rest.0, (deliver (net j) r (c j)).1 ∷ rest.1)
  unfolding gather
  gather_on h = rw h

pub gather-Holds :
    (js : List ℕ) (net : ℕ → Delivery) (r : RequestVoteRpc) (c : Cluster)
    → ((j : ℕ) → Has j js → OnDisk (c j))
    → (k : ℕ) → OnDisk (c k)
    → Holds (c k) ((gather js net r c).0 k)
unfolding gather
gather-Holds [] net r c all k d = Holds-refl (c k) d
gather-Holds (j ∷ js) net r c all k d =
    let w = (deliver (net j) r (c j)).0 in
    let one = Holds-update j w c (deliver-Holds (net j) r (c j) (all j (inl refl))) in
    let first = one k d in
    elim (Bool-cases (is_newer r.term (deliver (net j) r (c j)).1)) [
      | inl newer ↦ rw (gather_newer j js net r c newer) first
      | inr on ↦
          let rest =
            gather-Holds js net r (update j w c) (λ i h. (one i (all i (inr h))).disk) k
              first.disk in
          rw (gather_on j js net r c on) (Holds-trans first rest)
    ]

pub gather_other :
    (js : List ℕ) (net : ℕ → Delivery) (r : RequestVoteRpc) (c : Cluster) (k : ℕ)
    → All (λ j. j ≢ k) js
    → (gather js net r c).0 k ≡ c k
unfolding gather
gather_other [] net r c k h = refl
gather_other (j ∷ js) net r c k h =
    let w = (deliver (net j) r (c j)).0 in
    let first = update_ne j k w c (λ e. h.0 (sym e)) in
    elim (Bool-cases (is_newer r.term (deliver (net j) r (c j)).1)) [
      | inl newer ↦ rw (gather_newer j js net r c newer) first
      | inr on ↦ rw (gather_on j js net r c on) (gather_other js net r (update j w c) k h.1 ∙ first)
    ]

abbrev pub granted : Option RequestVoteResponse → Bool
granted none = false
granted (some resp) = resp.vote_granted

pub grants-cons :
    (reply : Option RequestVoteResponse) (replies : List (Option RequestVoteResponse))
    → grants (reply ∷ replies) ≡ (if granted reply then 1 + grants replies else grants replies)
unfolding grants
grants-cons none replies = refl
grants-cons (some resp) replies = refl

pub Has-ne : {j k : ℕ} (js : List ℕ) → All (λ m. m ≢ j) js → Has k js → k ≢ j
Has-ne [] all h = absurd h
Has-ne (m ∷ js) all (inl same) = λ e. all.0 (sym same ∙ e)
Has-ne (m ∷ js) all (inr h) = Has-ne js all.1 h

module _ (i : ℕ) (r : RequestVoteRpc) (named : r.candidate_id ≡ pos i) where
  deliver-Backs :
      (how : Delivery) (w : World)
      → w.node.shutdown_requested ≡ false
      → granted (deliver how r w).1 ≡ true
      → Backs i r.term (deliver how r w).0
  unfolding deliver
  deliver-Backs Delivery.lost w live h = absurd (cc h)
  deliver-Backs Delivery.unanswered w live h = absurd (cc h)
  deliver-Backs Delivery.answered w live h =
      let grant = request_vote_granted r w live h in
      record { term = grant.2; vote = grant.0 ∙ named }

  pub gather-Backs :
      (js : List ℕ) (net : ℕ → Delivery) (c : Cluster)
      → Distinct js
      → ((j : ℕ) → Has j js → (c j).node.shutdown_requested ≡ false)
      → 0 < grants (gather js net r c).1
      → (j : ℕ) × Has j js × Backs i r.term ((gather js net r c).0 j)
  unfolding gather grants
  gather-Backs [] net c apart live h = absurd (omega (arith, h))
  gather-Backs (j ∷ js) net c apart live h =
      let (w, reply) = deliver (net j) r (c j) in
      let self = update_self j w c in
      let backs = deliver-Backs (net j) (c j) (live j (inl refl)) in
      elim (Bool-cases (is_newer r.term reply)) [
        | inl newer ↦
            let e = gather_newer j js net r c newer in
            let won : granted reply ≡ true = ground (arith, rw e at h, grants-cons reply []) in
            (j, inl refl, rw (e, self) (backs won))
        | inr on ↦
            let e = gather_on j js net r c on in
            let c' = update j w c in
            let rest = gather js net r c' in
            elim (Bool-cases (granted reply)) [
              | inl won ↦
                  let kept = gather_other js net r c' j apart.0 ∙ self in
                  (j, inl refl, rw (e, kept) (backs won))
              | inr not_won ↦
                  let alive : (m : ℕ) → Has m js → (c' m).node.shutdown_requested ≡ false =
                    λ m has. rw (update_ne j m w c (Has-ne js apart.0 has)) (live m (inr has)) in
                  let more : 0 < grants rest.1 =
                    ground (arith, rw e at h, grants-cons reply rest.1) in
                  let (k, has, found) = gather-Backs js net c' apart.1 alive more in
                  (k, inr has, rw e found)
            ]
      ]
