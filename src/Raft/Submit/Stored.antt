-- ===== src/Raft/Submit/Stored.antt =====
-- What a peer has when it has answered success to a client's command.
use kv_store_project.Prelude.{
  ℕ, ◌+◌, ◌-◌, ◌≤◌, ◌<◌, ◌≡◌, ap, ◌∙◌, true, false, List, ◌∷◌, ◌++◌, none, arith, leb, min, length,
  drop, get_elem?, get_elem?-none, get_elem?-append_right, take-all, length-drop, length-append,
  drop-get_elem?, get_elem?-some, get_elem?-drop,
}
use kv_store_project.Prelude.Int.{pos, sub_ℕ, ◌+ℤ◌}
use kv_store_project.Raft.State.{Node, World, Env, RaftEntry}
use kv_store_project.Raft.Log.{base_index, get_log_entries}
use kv_store_project.Raft.Log.Compaction.{IsNumbered}
use kv_store_project.Raft.Append.{
  answers, term_matches, merge_entries, append_entries, snapshot_threshold, count_received,
}
use kv_store_project.Raft.Append.Log.{merge_entries_lem, log-accept_entries}
use kv_store_project.Raft.Append.Replies.{append_entries-accept}
use kv_store_project.Raft.Heartbeat.Agreement.{IsNumbered-drop}
use kv_store_project.Raft.Submit.{client_message}

-- A leader and a peer without snapshots, where the leader knows how long the peer's log is and has
-- more entries
pub record Knows (next : ℕ) (l w : Node) : Type 0 where
  pub bare : l.latest_snapshot ≡ none
  pub bare' : w.latest_snapshot ≡ none
  pub size : next ≡ length w.log
  pub numbered : IsNumbered 0 l.log
  pub behind : next < length l.log
  pub room : length w.log + length l.log < snapshot_threshold

-- The entries of the message: all that the peer does not have
pub sent_entries :
    (next ni : ℕ) (n : Node)
    → n.latest_snapshot ≡ none
    → length n.log ≡ ni + 1
    → next ≤ ni
    → get_log_entries n next (ni + 1) ≡ drop next n.log
unfolding get_log_entries
sent_entries next ni n bare size le =
    let base : base_index n.latest_snapshot ≡ 0 = rw bare in
    let here : next - 0 ≡ next = omega arith in
    let end : min (length n.log) (ni + 1 - 0) ≡ length n.log = omega (arith, size) in
    let some_left : leb (length n.log) next ≡ false = ground (arith, size) in
    rw (base, here, end, some_left)
      (take-all (length n.log - next) (drop next n.log) (omega (arith, length-drop next n.log)))

-- An entry that stands in the whole stands behind a front of the same length.
pub stored_at :
    (front all : List RaftEntry) (k : ℕ)
    → length front ≤ k
    → get_elem? (front ++ drop (length front) all) k ≡ get_elem? all k
stored_at front all k le =
    let there : length front + (k - length front) ≡ k = omega arith in
    get_elem?-append_right k front (drop (length front) all) le
    ∙ get_elem?-drop (length front) (k - length front) all
    ∙ ap (get_elem? all) there

-- A success of a peer whose log ends at the next index: its log is then its old one with all
-- entries of the leader behind it.
pub append_entries-client_message :
    (env : Env) (next ni t : ℕ) (l : Node) (w : World)
    → Knows next l w.node
    → length l.log ≡ ni + 1
    → (append_entries env (client_message ni next l) w).1 ≡ answers t true
    → (append_entries env (client_message ni next l) w).0.node.log
      ≡ w.node.log ++ drop (length w.node.log) l.log
unfolding client_message
append_entries-client_message env next ni t l w k size ok =
    let le : next ≤ ni = omega (arith, size, k.behind) in
    let m = client_message ni next l in
    let (first, there) = get_elem?-some next l.log (omega (arith, size)) in
    let es = drop (next + 1) l.log in
    let rest : drop next l.log ≡ first ∷ es = drop-get_elem? next l.log there in
    let sent : get_log_entries l next (ni + 1) ≡ first ∷ es =
      sent_entries next ni l k.bare size le ∙ rest in
    let zero_add : 0 + next ≡ next = omega arith in
    let numbers : IsNumbered next (first ∷ es) =
      rw (zero_add, rest) at (IsNumbered-drop next 0 l.log k.numbered) in
    let behind : sub_ℕ next 1 +ℤ pos 1 ≡ pos next = ground arith in
    let base : base_index w.node.latest_snapshot ≡ 0 = rw k.bare' in
    let merged =
      merge_entries_lem w.node.latest_snapshot (sub_ℕ next 1) next first es w.node.log behind
        (omega (arith, base)) (omega (arith, base, k.size)) numbers in
    let place : next - base_index w.node.latest_snapshot ≡ length w.node.log =
      omega (arith, base, k.size) in
    let absent : get_elem? w.node.log (length w.node.log) ≡ none =
      get_elem?-none (length w.node.log) w.node.log (omega arith) in
    let stored : merge_entries w.node.latest_snapshot (sub_ℕ next 1) (first ∷ es) w.node.log
        ≡ w.node.log ++ (first ∷ es) =
      rw (place, term_matches, absent, take-all (length w.node.log) w.node.log (omega arith)) at
        merged in
    let step = append_entries-accept env m w t ok in
    let count = ap (λ (xs : List RaftEntry). length xs) rest in
    let short : length (merge_entries w.node.latest_snapshot (sub_ℕ next 1) (first ∷ es) w.node.log)
        < snapshot_threshold =
      rw stored (
        omega
          (arith, k.room, count, length-drop next l.log, length-append w.node.log (first ∷ es))) in
    let kept = (log-accept_entries env m (count_received w) t (rw step at ok)).1 in
    let ending : drop (length w.node.log) l.log ≡ first ∷ es = rw (← k.size) rest in
    rw (step, ending) (kept (rw sent short) ∙ rw sent stored)
