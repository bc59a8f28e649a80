-- ===== src/Raft/Append/Replies.antt =====
-- What the answer to an AppendEntries says about the log, and where it says too much.
use kv_store_project.Prelude.{
  ℕ, ◌+◌, ◌-◌, ◌≤◌, ◌<◌, ◌≡◌, refl, ◌∙◌, Bool, true, false, List, [], ◌∷◌, ◌++◌, none, some, length,
  length-append, length-take, take, get_elem?, get_elem?-none, arith, if◌then◌else◌,
}
use kv_store_project.Prelude.Int.{ℤ, pos, negsuc, ◌+ℤ◌, ltb_ℤ}
use kv_store_project.Raft.State.{Node, World, Env, RaftEntry}
use kv_store_project.Raft.Log.{base_index, get_log_term}
use kv_store_project.Raft.Log.Compaction.{IsNumbered}
use kv_store_project.Raft.Append.{
  AppendEntriesRpc, answers, term_matches, is_consistent, merge_entries, accept_entries,
  append_entries, is_candidate, snapshot_threshold, count_received,
}
use kv_store_project.Raft.Append.Log.{
  merge_entries_lem, is_consistent-room, log-accept_entries, is_consistent-hear_leader,
}

-- The check passes only where the term at the index is the one that the leader names.
pub is_consistent-get_log_term :
    (n : Node) (i t : ℕ) → is_consistent n (pos i) t ≡ true → get_log_term n (pos i) ≡ t
unfolding is_consistent get_log_term
is_consistent-get_log_term n i t h = ground arith

length-merged :
    (b : Bool) (k : ℕ) (log es : List RaftEntry)
    → length (if b then log else take k log ++ es) ≤ length log + length es
length-merged true k log es = omega arith
length-merged false k log es = omega (arith, length-append (take k log) es, length-take k log)

-- A success is the answer of the part behind the tests.
pub append_entries-accept :
    (env : Env) (r : AppendEntriesRpc) (w : World) (t : ℕ)
    → (append_entries env r w).1 ≡ answers t true
    → append_entries env r w ≡ accept_entries env r (count_received w)
unfolding append_entries
append_entries-accept env r w t h = ground arith

-- The counter is not read by the check.
pub is_consistent-count_received :
    (w : World) (i : ℤ) (t : ℕ)
    → is_consistent (count_received w).node i t ≡ is_consistent w.node i t
unfolding is_consistent
is_consistent-count_received w (pos i) t = refl
is_consistent-count_received w (negsuc i) t = refl

-- A success says that the log reaches up to the index behind the one that was checked.
pub append_entries-room :
    (env : Env) (r : AppendEntriesRpc) (w : World) (p t : ℕ)
    → (append_entries env r w).1 ≡ answers t true
    → r.prev_log_index ≡ pos p
    → (base_index w.node.latest_snapshot ≤ p + 1)
      × (p + 1 - base_index w.node.latest_snapshot ≤ length w.node.log)
append_entries-room env r w p t h hp =
    let step = append_entries-accept env r w t h in
    let ok = (log-accept_entries env r (count_received w) t (rw step at h)).0 in
    let ok : is_consistent w.node (pos p) r.prev_log_term ≡ true =
      rw (hp, is_consistent-count_received w (pos p) r.prev_log_term) at ok in
    is_consistent-room w.node p r.prev_log_term ok

-- The log after an answer of success to a request whose `prev_log_index` is 0 or more, so not to
-- one that starts the log, and that carries entries numbered from behind that index: it is
-- unchanged where the first entry was there with its term, and otherwise the entries stand behind
-- the index and nothing follows them. The term at `prev_log_index` is the one that was asked for.
-- The log and the entries together stay below the threshold for a snapshot.
pub append_entries_stores :
    (env : Env) (r : AppendEntriesRpc) (w : World) (p t : ℕ) (first : RaftEntry)
    (es : List RaftEntry)
    → (append_entries env r w).1 ≡ answers t true
    → r.prev_log_index ≡ pos p
    → r.entries ≡ first ∷ es
    → IsNumbered (p + 1) (first ∷ es)
    → length w.node.log + length (first ∷ es) < snapshot_threshold
    → let place = p + 1 - base_index w.node.latest_snapshot in
      ((append_entries env r w).0.node.log ≡ (
        if term_matches w.node.log (pos place) first.term
        then w.node.log
        else take place w.node.log ++ (first ∷ es)))
      × (get_log_term w.node (pos p) ≡ r.prev_log_term)
append_entries_stores env r w p t first es h hp he numbered small =
    let step = append_entries-accept env r w t h in
    let (ok, stored) = log-accept_entries env r (count_received w) t (rw step at h) in
    let ok : is_consistent w.node (pos p) r.prev_log_term ≡ true =
      rw (hp, is_consistent-count_received w (pos p) r.prev_log_term) at ok in
    let room = is_consistent-room w.node p r.prev_log_term ok in
    let next : pos p +ℤ pos 1 ≡ pos (p + 1) = ground arith in
    let merged =
      merge_entries_lem w.node.latest_snapshot (pos p) (p + 1) first es w.node.log next room.0
        room.1 numbered in
    let bound =
      length-merged
        (term_matches w.node.log (pos (p + 1 - base_index w.node.latest_snapshot)) first.term)
        (p + 1 - base_index w.node.latest_snapshot) w.node.log (first ∷ es) in
    let short : length (merge_entries w.node.latest_snapshot r.prev_log_index r.entries w.node.log)
        < snapshot_threshold =
      rw (hp, he, merged) (omega (arith, bound, small)) in
    (rw (step, stored short, hp, he) merged, is_consistent-get_log_term w.node p r.prev_log_term ok)

get_elem?-last :
    (front : List RaftEntry) (old : RaftEntry)
    → get_elem? (front ++ old ∷ []) (length front) ≡ some old
get_elem?-last [] old = refl
get_elem?-last (e ∷ front) old = get_elem?-last front old

past_end :
    (front : List RaftEntry) (old : RaftEntry)
    → get_elem? (front ++ old ∷ []) (length front + 1) ≡ none
past_end front old =
    get_elem?-none (length front + 1) (front ++ old ∷ [])
      (omega (arith, length-append front (old ∷ [])))

-- A first entry that stands at the end already ends the merge.
merge_entries_kept :
    (front es : List RaftEntry) (old first : RaftEntry) (prev : ℤ)
    → prev +ℤ pos 1 ≡ pos (length front)
    → old.term ≡ first.term
    → merge_entries none prev (first ∷ es) (front ++ old ∷ []) ≡ front ++ old ∷ []
unfolding merge_entries
merge_entries_kept front es old first prev e same =
    rw (e, merge_entries, get_elem?-last front old) (ground (arith, same))

accept_entries_kept :
    (env : Env) (r : AppendEntriesRpc) (w : World)
    → is_consistent w.node r.prev_log_index r.prev_log_term ≡ true
    → merge_entries w.node.latest_snapshot r.prev_log_index r.entries w.node.log ≡ w.node.log
    → ltb_ℤ w.node.commit_index r.leader_commit ≡ false
    → ((accept_entries env r w).1 ≡ answers w.node.current_term true)
      × ((accept_entries env r w).0.node.log ≡ w.node.log)
unfolding accept_entries
accept_entries_kept env r w ok kept c =
    grind (arith, is_consistent-hear_leader env r.leader_id w r.prev_log_index r.prev_log_term)

-- Nothing turns the request away.
pub reaches_accept_entries :
    (env : Env) (r : AppendEntriesRpc) (w : World)
    → w.node.receiving_snapshot ≡ false
    → is_candidate w.node.state ≡ false
    → r.term ≡ w.node.current_term
    → append_entries env r w ≡ accept_entries env r (count_received w)
unfolding append_entries
reaches_accept_entries env r w a b c = ground arith

-- An answer of success to entries that are not stored: where the last entry of a log without a
-- snapshot already is the first of several entries sent, with its term, the node answers success
-- and keeps its log as it was, so that it has no entry at the place of the second. The request is
-- of the node's term and passes the consistency check, the node is no candidate and receives no
-- snapshot, and the leader has not committed more than the node.
pub append_entries_lost :
    (env : Env) (r : AppendEntriesRpc) (w : World) (front es : List RaftEntry)
    (old first second : RaftEntry)
    → w.node.receiving_snapshot ≡ false
    → is_candidate w.node.state ≡ false
    → r.term ≡ w.node.current_term
    → w.node.latest_snapshot ≡ none
    → w.node.log ≡ front ++ old ∷ []
    → r.prev_log_index +ℤ pos 1 ≡ pos (length front)
    → is_consistent w.node r.prev_log_index r.prev_log_term ≡ true
    → r.entries ≡ first ∷ second ∷ es
    → old.term ≡ first.term
    → ltb_ℤ w.node.commit_index r.leader_commit ≡ false
    → ((append_entries env r w).1 ≡ answers w.node.current_term true)
      × ((append_entries env r w).0.node.log ≡ w.node.log)
      × (get_elem? (append_entries env r w).0.node.log (length front + 1) ≡ none)
append_entries_lost env r w front es old first second a b c d e f g h i j =
    let step = reaches_accept_entries env r w a b c in
    let kept : merge_entries w.node.latest_snapshot r.prev_log_index r.entries w.node.log
        ≡ w.node.log =
      rw (d, h, e) (merge_entries_kept front (second ∷ es) old first r.prev_log_index f i) in
    let (answer, log) =
      accept_entries_kept env r (count_received w)
        (is_consistent-count_received w r.prev_log_index r.prev_log_term ∙ g) kept j in
    (rw step answer, rw step log, rw (step, log, e) (past_end front old))
