-- ===== src/Raft/Heartbeat/Agreement.antt =====
-- A turn with a peer that answers: what the leader then takes the peer to have, and what it has.
use kv_store_project.Prelude.{
  ℕ, zero, suc, ◌+◌, ◌-◌, ◌≤◌, ◌<◌, ◌≡◌, refl, ap, ◌∙◌, Bool, true, false, List, [], ◌∷◌, ◌++◌,
  Option, none, some, arith, ltb, leb, length, take, drop, min, get_elem?, drop-past,
  take-min-length, get_elem?-set_self, length-append, length-take, length-drop, Bool-cases, inl,
  inr,
}
use kv_store_project.Prelude.Int.{pos, sub_ℕ}
use kv_store_project.Raft.State.{Node, World, Env, RaftEntry}
use kv_store_project.Raft.Log.{base_index, get_log_size, get_log_entries}
use kv_store_project.Raft.Log.Compaction.{IsNumbered}
use kv_store_project.Raft.Append.{answers, term_matches, append_entries, snapshot_threshold}
use kv_store_project.Raft.Append.Votes.{append_entries-answers_true}
use kv_store_project.Raft.Append.Replies.{append_entries-room, append_entries_stores}
use kv_store_project.Raft.Client.{next_of, count_append}
use kv_store_project.Raft.Heartbeat.{
  max_entries_per_batch, batch, heartbeat_message, beat_peer, needed_snapshot, exchange,
  advance_peer,
}

-- Without a snapshot the batch is the next twenty entries of the log.
pub batch_lem :
    (next : ℕ) (n : Node)
    → n.latest_snapshot ≡ none
    → batch next n ≡ take max_entries_per_batch (drop next n.log)
unfolding batch get_log_size get_log_entries
batch_lem next n e =
    let base : base_index n.latest_snapshot ≡ 0 = rw e in
    let ending : min (length n.log) (min (next + 20) (0 + length n.log) - 0) - (next - 0)
        ≡ min 20 (length n.log - next) =
      omega arith in
    let here : next - 0 ≡ next = omega arith in
    rw (base, ending, here)
      (elim (Bool-cases (ltb next (0 + length n.log))) [
        | inl more ↦
            let room : leb (min (length n.log) (min (next + 20) (0 + length n.log) - 0)) next
                ≡ false =
              ground (arith, more) in
            rw (more, room) (rw (← length-drop next n.log) (take-min-length 20 (drop next n.log)))
        | inr past ↦
            let none_left = drop-past next n.log (ground (arith, past)) in rw (past, none_left)
      ])

-- The answer `success` to a batch that is not empty
pub beat_peer-success :
    (env : Env) (i t : ℕ) (chunks : ℕ → Option Bool) (first : RaftEntry) (es : List RaftEntry)
    (l : World)
    → l.node.latest_snapshot ≡ none
    → t ≤ l.node.current_term
    → batch (next_of l.node i) l.node ≡ first ∷ es
    → (beat_peer env i (some (record { term = t; success = true })) chunks l).0.node
      ≡ advance_peer i (next_of l.node i + length (first ∷ es)) (count_append l).node
unfolding beat_peer
beat_peer-success env i t chunks first es l none_yet le e =
    let need : needed_snapshot (next_of l.node i) l.node.latest_snapshot ≡ none = rw none_yet in
    let calm : ltb l.node.current_term t ≡ false = ground arith in
    rw (need, beat_peer, e, calm) refl

pub IsNumbered-drop :
    (k i : ℕ) (log : List RaftEntry) → IsNumbered i log → IsNumbered (i + k) (drop k log)
IsNumbered-drop zero i log h = let e : i + 0 ≡ i = omega arith in rw e h
IsNumbered-drop (suc k) i [] h = tt
IsNumbered-drop (suc k) i (e ∷ log) h =
    let same : i + suc k ≡ i + 1 + k = omega arith in rw same (IsNumbered-drop k (i + 1) log h.1)

IsNumbered-take : (k i : ℕ) (log : List RaftEntry) → IsNumbered i log → IsNumbered i (take k log)
IsNumbered-take zero i log h = tt
IsNumbered-take (suc k) i [] h = tt
IsNumbered-take (suc k) i (e ∷ log) h = (h.0, IsNumbered-take k (i + 1) log h.1)

pub next_of-advance_peer :
    (i next : ℕ) (n : Node) → i < length n.next_index → next_of (advance_peer i next n) i ≡ next
next_of-advance_peer i next n h = rw (get_elem?-set_self i next n.next_index h, next_of)

size_after :
    (k : ℕ) (log front : List RaftEntry)
    → k ≤ length log
    → length (take k log ++ front) ≡ k + length front
size_after k log front h = omega (arith, length-append (take k log) front, length-take k log)

-- A leader without a snapshot sends the entries from the peer's next index on. Where the peer
-- answers success and does not have the first of them, its log is then its old one up to that index
-- and the leader's next twenty entries behind it; the leader's next index for it is the size of
-- that log, and the match index the place before. The leader's log is numbered from 0, the next
-- index is above 0 and inside that log, the peer has no snapshot, and its log stays below the
-- threshold for one.
pub exchange-agreement :
    (env env' : Env) (i p t : ℕ) (l w : World) (first : RaftEntry) (es : List RaftEntry)
    → l.node.latest_snapshot ≡ none
    → w.node.latest_snapshot ≡ none
    → IsNumbered 0 l.node.log
    → next_of l.node i ≡ p + 1
    → i < length l.node.next_index
    → i < length l.node.match_index
    → take max_entries_per_batch (drop (p + 1) l.node.log) ≡ first ∷ es
    → (append_entries env' (heartbeat_message (p + 1) l.node) w).1 ≡ answers t true
    → term_matches w.node.log (pos (p + 1)) first.term ≡ false
    → length w.node.log + max_entries_per_batch < snapshot_threshold
    → let (l', w') = exchange env env' i l w in
      (w'.node.log
        ≡ take (p + 1) w.node.log ++ take max_entries_per_batch (drop (p + 1) l.node.log))
      × (next_of l'.node i ≡ length w'.node.log)
      × (get_elem? l'.node.match_index i ≡ some (pos (length w'.node.log - 1)))
unfolding exchange heartbeat_message
exchange-agreement env env' i p t l w first es bare bare' numbered next ni mi some_left ok fresh
      small =
    let m = heartbeat_message (p + 1) l.node in
    let sent : batch (p + 1) l.node ≡ first ∷ es = batch_lem (p + 1) l.node bare ∙ some_left in
    let prev : sub_ℕ (p + 1) 1 ≡ pos p = ground arith in
    let zero_add : 0 + (p + 1) ≡ p + 1 = omega arith in
    let numbers =
      IsNumbered-take 20 (p + 1) (drop (p + 1) l.node.log)
        (rw zero_add at (IsNumbered-drop (p + 1) 0 l.node.log numbered)) in
    let count = ap length some_left in
    let few = length-take 20 (drop (p + 1) l.node.log) in
    let (stored, same_term) =
      append_entries_stores env' m w p t first es ok prev sent (rw some_left at numbers)
        (omega (arith, small, count, few)) in
    let (term, answer) = append_entries-answers_true env' m w t ok in
    let room = (append_entries-room env' m w p t ok prev).1 in
    let base : p + 1 - base_index w.node.latest_snapshot ≡ p + 1 = rw bare' (omega arith) in
    let log : (append_entries env' m w).0.node.log ≡ take (p + 1) w.node.log ++ (first ∷ es) =
      rw (base, fresh) at stored in
    let size = size_after (p + 1) w.node.log (first ∷ es) (rw base at room) in
    let noted =
      beat_peer-success env i t (λ k. none) first es l bare (omega (arith, term, answer))
        (rw next sent) in
    let left : (exchange env env' i l w).0.node
        ≡ advance_peer i (p + 1 + length (first ∷ es)) (count_append l).node =
      rw (next, ok) (rw next at noted) in
    let right : (exchange env env' i l w).1.node.log ≡ take (p + 1) w.node.log ++ (first ∷ es) =
      rw next log in
    rw (left, right, size, some_left)
      (
        refl,
        next_of-advance_peer i (p + 1 + length (first ∷ es)) l.node ni,
        get_elem?-set_self i _ l.node.match_index mi ∙ ap some (ground arith),
      )
