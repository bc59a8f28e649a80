-- ===== src/Raft/Heartbeat/Refusal.antt =====
-- What a peer makes of one heartbeat: it accepts it, or refuses it and stays as it is.
use kv_store_project.Prelude.{
  ℕ, ◌+◌, ◌-◌, ◌≤◌, ◌<◌, ◌≡◌, refl, sym, ap, ◌∙◌, Bool, true, false, List, [], ◌∷◌, ◌++◌, Option,
  none, some, arith, ltb, ◌==◌, length, drop, length-append, length-take, Bool-cases, inl, inr, set,
  get_elem?-set_self, length-set,
}
use kv_store_project.Prelude.Int.{ℤ, pos, negsuc, sub_ℕ, ◌+ℤ◌, leb_ℤ}
use kv_store_project.Raft.State.{Node, World, Env, RaftEntry, Snapshot}
use kv_store_project.Raft.Log.{get_log_term}
use kv_store_project.Raft.Apply.Progress.{apply_committed-node}
use kv_store_project.Raft.Append.{
  AppendEntriesRpc, answers, vector_place, is_consistent, push_entries, erase_from, merge_entries,
  new_commit, advance_commit, accept_entries, append_entries, is_candidate, snapshot_threshold,
  count_received,
}
use kv_store_project.Raft.Append.Log.{is_consistent-hear_leader}
use kv_store_project.Raft.Append.Votes.{advance_commit-SameBallot}
use kv_store_project.Raft.Append.Replies.{is_consistent-count_received, reaches_accept_entries}
use kv_store_project.Raft.Client.{next_of}
use kv_store_project.Raft.Heartbeat.{
  max_entries_per_batch, heartbeat_message, beat_peer, needed_snapshot, exchange,
}
use kv_store_project.Raft.Heartbeat.Agreement.{batch_lem}

length-push_entries :
    (s : Option Snapshot) (es log : List RaftEntry)
    → length (push_entries s es log) ≤ length log + length es
unfolding push_entries
length-push_entries s [] log = omega arith
length-push_entries s (e ∷ es) log =
    elim (Bool-cases (leb_ℤ (pos (length log)) (vector_place s (pos e.index)))) [
      | inl fits ↦
          rw (fits, ◌==◌)
            (omega (arith, length-push_entries s es (log ++ e ∷ []), length-append log (e ∷ [])))
      | inr gap ↦ rw (gap, ◌==◌) (omega (arith, length-push_entries s es log))
    ]

length-erase_from : (place : ℤ) (log : List RaftEntry) → length (erase_from place log) ≤ length log
length-erase_from (pos i) log = omega (arith, length-take i log)
length-erase_from (negsuc i) log = omega arith

-- A merge adds at most the entries that were sent.
length-merge_entries :
    (s : Option Snapshot) (prev : ℤ) (es log : List RaftEntry)
    → length (merge_entries s prev es log) ≤ length log + length es
unfolding merge_entries
length-merge_entries s prev [] log = omega arith
length-merge_entries s prev (first ∷ es) log =
    let place = vector_place s (prev +ℤ pos 1) in
    ground (
      arith,
      length-push_entries s (first ∷ es) log,
      length-push_entries s (first ∷ es) (erase_from place log),
      length-erase_from place log,
    )

advance_commit-done :
    (env : Env) (c : ℤ) (w : World)
    → length w.node.log < snapshot_threshold
    → (advance_commit env c w).1 ≡ true
unfolding advance_commit
advance_commit-done env c w h =
    let w1 : World = record w { node = record w.node { commit_index = new_commit w.node c } } in
    let same = ap (λ (n : Node). n.log) (apply_committed-node env w1) in ground (arith, same)

-- What a peer that answers keeps of its state, and what makes it answer at all
pub record Listens (t : ℕ) (w : World) : Type 0 where
  pub idle : w.node.receiving_snapshot ≡ false
  pub follows : is_candidate w.node.state ≡ false
  pub term : w.node.current_term ≡ t
  pub room : length w.node.log + max_entries_per_batch < snapshot_threshold

-- A message that passes the check is answered with success.
accept_entries-success :
    (env : Env) (r : AppendEntriesRpc) (w : World)
    → is_consistent w.node r.prev_log_index r.prev_log_term ≡ true
    → length w.node.log + length r.entries < snapshot_threshold
    → (accept_entries env r w).1 ≡ answers w.node.current_term true
unfolding accept_entries
accept_entries-success env r w ok small =
    let check = is_consistent-hear_leader env r.leader_id w r.prev_log_index r.prev_log_term in
    let merged =
      length-merge_entries w.node.latest_snapshot r.prev_log_index r.entries w.node.log in
    grind (arith, check, merged, advance_commit-done, advance_commit-SameBallot)

-- One that fails it is refused, and the log stays.
accept_entries-refused :
    (env : Env) (r : AppendEntriesRpc) (w : World) (t : ℕ)
    → is_consistent w.node r.prev_log_index r.prev_log_term ≡ false
    → Listens t w
    → ((accept_entries env r w).1 ≡ answers t false)
      × Listens t (accept_entries env r w).0
      × ((accept_entries env r w).0.node.log ≡ w.node.log)
      × ((accept_entries env r w).0.node.latest_snapshot ≡ w.node.latest_snapshot)
unfolding accept_entries
accept_entries-refused env r w t no_match h =
    let check = is_consistent-hear_leader env r.leader_id w r.prev_log_index r.prev_log_term in
    ground (arith, check, no_match)

pub record Sends (t : ℕ) (l : World) : Type 0 where
  pub bare : l.node.latest_snapshot ≡ none
  pub term : l.node.current_term ≡ t

-- The leader's side of a refusal
beat_peer-refused :
    (env : Env) (i t : ℕ) (chunks : ℕ → Option Bool) (l : World)
    → Sends t l
    → let l' = (beat_peer env i (some (record { term = t; success = false })) chunks l).0 in
      Sends t l' × (l'.node.next_index ≡ set l.node.next_index i (next_of l.node i - 1))
unfolding beat_peer
beat_peer-refused env i t chunks l s =
    let need : needed_snapshot (next_of l.node i) l.node.latest_snapshot ≡ none = rw s.bare in
    let calm : ltb l.node.current_term t ≡ false = ground (arith, s.term) in
    rw (need, beat_peer, calm) (record { bare = s.bare; term = s.term }, refl)

-- The check that the peer makes on the message for `next`
abbrev pub passes : ℕ → World → World → Bool
passes next l w = is_consistent w.node (sub_ℕ next 1) (get_log_term l.node (sub_ℕ next 1))

module _ (env env' : Env) (i t : ℕ) (l w : World) (s : Sends t l) (h : Listens t w) where
  abbrev pub sent : AppendEntriesRpc
  sent = heartbeat_message (next_of l.node i) l.node

  heard : Listens t (count_received w)
  heard = record { idle = h.idle; follows = h.follows; term = h.term; room = h.room }

  reaches : append_entries env' sent w ≡ accept_entries env' sent (count_received w)
  unfolding heartbeat_message
  reaches = reaches_accept_entries env' sent w h.idle h.follows (s.term ∙ sym h.term)

  pub answered :
      passes (next_of l.node i) l w ≡ true → (append_entries env' sent w).1 ≡ answers t true
  unfolding heartbeat_message
  answered ok =
      let check = is_consistent-count_received w sent.prev_log_index sent.prev_log_term in
      let few : length sent.entries ≤ max_entries_per_batch =
        rw (batch_lem (next_of l.node i) l.node s.bare)
          (omega (arith, length-take 20 (drop (next_of l.node i) l.node.log))) in
      rw (reaches, ← h.term)
        (accept_entries-success env' sent (count_received w) (check ∙ ok)
          (omega (arith, h.room, few)))

  pub refused :
      passes (next_of l.node i) l w ≡ false
      → i < length l.node.next_index
      → let (l', w') = exchange env env' i l w in
        Sends t l'
        × Listens t w'
        × (next_of l'.node i ≡ next_of l.node i - 1)
        × (length l'.node.next_index ≡ length l.node.next_index)
        × (w'.node.log ≡ w.node.log)
  unfolding heartbeat_message exchange
  refused no_match inside =
      let check = is_consistent-count_received w sent.prev_log_index sent.prev_log_term in
      let (reply, listens, log, snap) =
        accept_entries-refused env' sent (count_received w) t (check ∙ no_match) heard in
      let (sends, indices) = beat_peer-refused env i t (λ k. none) l s in
      let next = next_of l.node i - 1 in
      rw (reaches, reply)
        (
          sends,
          listens,
          rw (indices, next_of) (rw (get_elem?-set_self i next l.node.next_index inside)),
          rw indices (length-set l.node.next_index i next),
          log,
        )
