-- ===== src/Raft/Election/Majority.antt =====
-- Who wins an election: exactly the candidate with a majority that meets no newer term.
use kv_store_project.Prelude.{
  ℕ, ◌+◌, ◌*◌, ◌/◌, ◌<◌, ◌≤◌, ◌≡◌, refl, Bool, true, false, List, [], ◌∷◌, Option, none, some,
  arith, if◌then◌else◌, ltb, ◌↔◌, ap, ◌∙◌, sym, Bool-cases, Option-cases, inl, inr,
}
use kv_store_project.Prelude.Int.{pos}
use kv_store_project.Raft.State.{NodeState, World, Env}
use kv_store_project.Raft.Vote.{RequestVoteResponse}
use kv_store_project.Raft.Election.{
  begin_election, count_sent, ask_peers, finish_election, after_count, start_election,
}

-- The peers whose reply grants the vote
unfoldable pub grants : List (Option RequestVoteResponse) → ℕ
grants [] = 0
grants (none ∷ replies) = grants replies
grants (some r ∷ replies) = if r.vote_granted then 1 + grants replies else grants replies

-- No reply carries a term above `t`.
abbrev pub NoNewer : ℕ → List (Option RequestVoteResponse) → Type 0
NoNewer t [] = Unit {0}
NoNewer t (none ∷ replies) = NoNewer t replies
NoNewer t (some r ∷ replies) = (r.term ≤ t) × NoNewer t replies

-- What asking does not touch
record SameRace (v w : World) : Type 0 where
  current_term : v.node.current_term ≡ w.node.current_term
  voted_for : v.node.voted_for ≡ w.node.voted_for
  state : v.node.state ≡ w.node.state

-- The two ways of a reply
module _ (r : RequestVoteResponse) (replies : List (Option RequestVoteResponse)) (votes : ℕ)
    (w : World) where
  ask_peers_counted :
      ltb w.node.current_term r.term ≡ false
      → ask_peers (some r ∷ replies) votes w
        ≡ ask_peers replies (if r.vote_granted then votes + 1 else votes) (count_sent w)
  unfolding ask_peers
  ask_peers_counted h = ground arith

  ask_peers_newer :
      ltb w.node.current_term r.term ≡ true
      → ((ask_peers (some r ∷ replies) votes w).1 ≡ none)
        × ((ask_peers (some r ∷ replies) votes w).0.node.state ≡ NodeState.follower)
        × ((ask_peers (some r ∷ replies) votes w).0.node.current_term ≡ r.term)
  unfolding ask_peers
  ask_peers_newer h = ground arith

SameRace-sent : {v w : World} → SameRace v (count_sent w) → SameRace v w
SameRace-sent s = record { current_term = s.current_term; voted_for = s.voted_for; state = s.state }

-- Without a newer term all replies are counted.
ask_peers-NoNewer :
    (replies : List (Option RequestVoteResponse)) (votes : ℕ) (w : World)
    → NoNewer w.node.current_term replies
    → ((ask_peers replies votes w).1 ≡ some (votes + grants replies))
      × SameRace (ask_peers replies votes w).0 w
unfolding ask_peers grants
ask_peers-NoNewer [] votes w h =
    (ap some (omega arith), record { current_term = refl; voted_for = refl; state = refl })
ask_peers-NoNewer (none ∷ replies) votes w h =
    let ih = ask_peers-NoNewer replies votes (count_sent w) h in (ih.0, SameRace-sent ih.1)
ask_peers-NoNewer (some r ∷ replies) votes w h =
    let step = ask_peers_counted r replies votes w (ground (arith, h.0)) in
    let ih =
      ask_peers-NoNewer replies (if r.vote_granted then votes + 1 else votes) (count_sent w) h.1 in
    let sum : (if r.vote_granted then votes + 1 else votes) + grants replies
        ≡ votes + grants (some r ∷ replies) =
      ground arith in
    rw step (ih.0 ∙ ap some sum, SameRace-sent ih.1)

-- A count that comes to its end has met no newer term.
ask_peers-some :
    (replies : List (Option RequestVoteResponse)) (votes total : ℕ) (w : World)
    → (ask_peers replies votes w).1 ≡ some total
    → NoNewer w.node.current_term replies
unfolding ask_peers
ask_peers-some [] votes total w h = tt
ask_peers-some (none ∷ replies) votes total w h =
    ask_peers-some replies votes total (count_sent w) h
ask_peers-some (some r ∷ replies) votes total w h =
    elim (Bool-cases (ltb w.node.current_term r.term)) [
      | inl newer ↦ absurd (cc (h, (ask_peers_newer r replies votes w newer).0))
      | inr current ↦ (
        ground (arith, current),
        ask_peers-some replies (if r.vote_granted then votes + 1 else votes) total (count_sent w) (
            sym (ap (λ (p : World × Option ℕ). p.1) (ask_peers_counted r replies votes w current))
            ∙ h),
      )
    ]

-- A count that breaks off leaves a follower of a newer term.
ask_peers-none :
    (replies : List (Option RequestVoteResponse)) (votes : ℕ) (w : World)
    → (ask_peers replies votes w).1 ≡ none
    → ((ask_peers replies votes w).0.node.state ≡ NodeState.follower)
      × (w.node.current_term < (ask_peers replies votes w).0.node.current_term)
unfolding ask_peers
ask_peers-none [] votes w h = absurd (cc h)
ask_peers-none (none ∷ replies) votes w h = ask_peers-none replies votes (count_sent w) h
ask_peers-none (some r ∷ replies) votes w h = elim (Bool-cases (ltb w.node.current_term r.term)) [
  | inl newer ↦
      let step = ask_peers_newer r replies votes w newer in (step.1, ground (arith, newer, step.2))
  | inr current ↦
      let step = ask_peers_counted r replies votes w current in
      rw step (
        ask_peers-none replies (if r.vote_granted then votes + 1 else votes) (count_sent w)
          (sym (ap (λ (p : World × Option ℕ). p.1) step) ∙ h))
]

-- What follows the count
finish_election-state :
    (env : Env) (nodes votes : ℕ) (w : World)
    → w.node.state ≡ NodeState.candidate
    → ((finish_election env nodes votes w).node.state ≡ NodeState.leader) ↔ (nodes < 2 * votes)
unfolding finish_election
finish_election-state env nodes votes w c = elim (Bool-cases (ltb (nodes / 2) votes)) [
  | inl most ↦ (λ h. ground (arith, most), λ h. ground (arith, most))
  | inr few ↦ (λ h. ground (arith, few, c), λ h. ground (arith, few))
]

after_count-none :
    (env : Env) (nodes : ℕ) (p : World × Option ℕ) → p.1 ≡ none → after_count env nodes p ≡ p.0
unfolding after_count
after_count-none env nodes (w, none) h = refl
after_count-none env nodes (w, some votes) h = absurd (cc h)

after_count-some :
    (env : Env) (nodes total : ℕ) (p : World × Option ℕ)
    → p.1 ≡ some total
    → after_count env nodes p ≡ finish_election env nodes total p.0
unfolding after_count
after_count-some env nodes total (w, none) h = absurd (cc h)
after_count-some env nodes total (w, some votes) h = ap (λ k. finish_election env nodes k w) (cc h)

-- The two outcomes of the count
module _ (env : Env) (nodes : ℕ) (replies : List (Option RequestVoteResponse)) (w : World)
    (live : w.node.shutdown_requested ≡ false) where
  counts :
      start_election env nodes replies w
      ≡ after_count env nodes (ask_peers replies 1 (begin_election w))
  unfolding start_election
  counts =
      ap
        (λ (b : Bool).
          if b then w else after_count env nodes (ask_peers replies 1 (begin_election w)))
        live

  start_election-none :
      (ask_peers replies 1 (begin_election w)).1 ≡ none
      → start_election env nodes replies w ≡ (ask_peers replies 1 (begin_election w)).0
  start_election-none h =
      counts ∙ after_count-none env nodes (ask_peers replies 1 (begin_election w)) h

  start_election-some :
      (total : ℕ)
      → (ask_peers replies 1 (begin_election w)).1 ≡ some total
      → start_election env nodes replies w
        ≡ finish_election env nodes total (ask_peers replies 1 (begin_election w)).0
  start_election-some total h =
      counts ∙ after_count-some env nodes total (ask_peers replies 1 (begin_election w)) h

-- A node that is not shutting down is the leader after an election exactly if no reply carries a
-- term above the new one and the grants with its own vote are more than half of the nodes.
pub start_election_lem :
    (env : Env) (nodes : ℕ) (replies : List (Option RequestVoteResponse)) (w : World)
    → w.node.shutdown_requested ≡ false
    → ((start_election env nodes replies w).node.state ≡ NodeState.leader)
      ↔ (NoNewer (w.node.current_term + 1) replies × (nodes < 2 * (1 + grants replies)))
unfolding begin_election
start_election_lem env nodes replies w live =
    let w1 = begin_election w in
    elim (Option-cases (ask_peers replies 1 w1).1) [
      | inl ended ↦
          let stopped = ask_peers-none replies 1 w1 ended in
          let step = start_election-none env nodes replies w live ended in
          (
            λ h. absurd (cc (rw step at h, stopped.0)),
            λ h. absurd (cc (ended, (ask_peers-NoNewer replies 1 w1 h.0).0)),
          )
      | inr (total, counted) ↦
          let calm = ask_peers-some replies 1 total w1 counted in
          let all = ask_peers-NoNewer replies 1 w1 calm in
          let same : total ≡ 1 + grants replies = cc (counted, all.0) in
          let wins = finish_election-state env nodes total (ask_peers replies 1 w1).0 all.1.state in
          rw (start_election-some env nodes replies w live total counted)
            (λ h. (calm, omega (arith, same, wins.0 h)), λ h. wins.1 (omega (arith, same, h.1)))
    ]

finish_election-ballot :
    (env : Env) (nodes votes : ℕ) (w : World)
    → ((finish_election env nodes votes w).node.current_term ≡ w.node.current_term)
      × ((finish_election env nodes votes w).node.voted_for ≡ w.node.voted_for)
unfolding finish_election
finish_election-ballot env nodes votes w = ground arith

-- A node that wins has gone up by one term, in which its vote is its own.
pub start_election-leader :
    (env : Env) (nodes : ℕ) (replies : List (Option RequestVoteResponse)) (w : World)
    → w.node.shutdown_requested ≡ false
    → (start_election env nodes replies w).node.state ≡ NodeState.leader
    → ((start_election env nodes replies w).node.current_term ≡ w.node.current_term + 1)
      × ((start_election env nodes replies w).node.voted_for ≡ pos w.node.id)
unfolding begin_election
start_election-leader env nodes replies w live wins =
    let w1 = begin_election w in
    let (calm, most) = (start_election_lem env nodes replies w live).0 wins in
    let (counted, same) = ask_peers-NoNewer replies 1 w1 calm in
    let ballot = finish_election-ballot env nodes (1 + grants replies) (ask_peers replies 1 w1).0 in
    rw (start_election-some env nodes replies w live (1 + grants replies) counted)
      (ballot.0 ∙ same.current_term, ballot.1 ∙ same.voted_for)
