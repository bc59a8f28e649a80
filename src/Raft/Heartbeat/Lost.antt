-- ===== src/Raft/Heartbeat/Lost.antt =====
-- A turn after which the leader counts on entries that the peer has dropped.
use kv_store_project.Prelude.{
  ℕ, ◌+◌, ◌<◌, ◌≡◌, ◌∙◌, true, false, List, [], ◌∷◌, ◌++◌, none, arith, length, take, drop,
  length-append,
}
use kv_store_project.Prelude.Int.{pos, ltb_ℤ, ◌+ℤ◌, sub_ℕ}
use kv_store_project.Raft.State.{World, Env, RaftEntry}
use kv_store_project.Raft.Log.{get_log_term}
use kv_store_project.Raft.Append.{is_candidate, is_consistent}
use kv_store_project.Raft.Append.Replies.{append_entries_lost}
use kv_store_project.Raft.Client.{next_of, count_append}
use kv_store_project.Raft.Heartbeat.{
  max_entries_per_batch, heartbeat_message, batch, exchange, advance_peer,
}
use kv_store_project.Raft.Heartbeat.Agreement.{batch_lem, beat_peer-success, next_of-advance_peer}

-- Where the last entry of the peer's log already is the first of several that the leader sends it,
-- with its term, the leader's next index for the peer afterwards is above the size of the peer's
-- log by the number of the other entries: it takes them to be stored, and they are not. Neither has
-- a snapshot; they are in the same term, the peer is no candidate and receives no snapshot, its log
-- ends at the next index, which is above 0, the check of the entry before passes, and the leader
-- has not committed more than the peer.
pub exchange_lost :
    (env env' : Env) (i p : ℕ) (l w : World) (front es : List RaftEntry)
    (old first second : RaftEntry)
    → l.node.latest_snapshot ≡ none
    → next_of l.node i ≡ p + 1
    → i < length l.node.next_index
    → take max_entries_per_batch (drop (p + 1) l.node.log) ≡ first ∷ second ∷ es
    → w.node.latest_snapshot ≡ none
    → w.node.receiving_snapshot ≡ false
    → is_candidate w.node.state ≡ false
    → l.node.current_term ≡ w.node.current_term
    → w.node.log ≡ front ++ old ∷ []
    → length front ≡ p + 1
    → is_consistent w.node (pos p) (get_log_term l.node (pos p)) ≡ true
    → old.term ≡ first.term
    → ltb_ℤ w.node.commit_index l.node.commit_index ≡ false
    → let (l', w') = exchange env env' i l w in
      next_of l'.node i ≡ length w'.node.log + length (second ∷ es)
unfolding exchange heartbeat_message
exchange_lost env env' i p l w front es old first second bare next ni some_left bare' idle follows
      same log size ok term c =
    let m = heartbeat_message (p + 1) l.node in
    let sent : batch (p + 1) l.node ≡ first ∷ second ∷ es =
      batch_lem (p + 1) l.node bare ∙ some_left in
    let prev : sub_ℕ (p + 1) 1 ≡ pos p = ground arith in
    let behind : sub_ℕ (p + 1) 1 +ℤ pos 1 ≡ pos (length front) = rw (prev, size) (ground arith) in
    let (answer, kept, gone) =
      append_entries_lost env' m w front es old first second idle follows same bare' log behind
        (rw prev ok) sent term c in
    let noted =
      beat_peer-success env i w.node.current_term (λ k. none) first (second ∷ es) l bare
        (omega (arith, same)) (rw next sent) in
    let left : (exchange env env' i l w).0.node
        ≡ advance_peer i (p + 1 + length (first ∷ second ∷ es)) (count_append l).node =
      rw (next, answer) (rw next at noted) in
    let right : (exchange env env' i l w).1.node.log ≡ w.node.log = rw next kept in
    let short : length w.node.log ≡ p + 2 =
      rw log (omega (arith, length-append front (old ∷ []), size)) in
    rw (left, right, next_of-advance_peer i (p + 1 + length (first ∷ second ∷ es)) l.node ni)
      (omega (arith, short))
