-- ===== src/Raft/Append/Log.antt =====
-- What an accepted AppendEntries leaves in the log.
use kv_store_project.Prelude.{
  ℕ, zero, suc, ◌+◌, ◌-◌, ◌≤◌, ◌<◌, ◌≡◌, refl, sym, ap, ◌∙◌, inl, inr, true, false, List, [], ◌∷◌,
  ◌++◌, append_assoc, append-nil, Option, none, some, Option-cases, length, length-append,
  length-take, take-all, take, get_elem?, arith, ◌==◌, if◌then◌else◌, Bool-cases,
}
use kv_store_project.Prelude.Int.{ℤ, pos, negsuc, ◌+ℤ◌, leb_ℤ}
use kv_store_project.Raft.State.{Node, World, Env, RaftEntry, Snapshot}
use kv_store_project.Raft.Log.{base_index}
use kv_store_project.Raft.Log.Compaction.{IsNumbered}
use kv_store_project.Raft.Apply.Progress.{apply_committed-node}
use kv_store_project.Raft.Append.{
  new_commit, hear_leader, AppendEntriesRpc, answers, vector_place, term_matches, is_consistent,
  push_entries, merge_entries, advance_commit, accept_entries, snapshot_threshold,
}

pub vector_place-base :
    (s : Option Snapshot) (i : ℕ)
    → base_index s ≤ i
    → vector_place s (pos i) ≡ pos (i - base_index s)
vector_place-base none i h = ground arith
vector_place-base (some snap) i h = ground arith

-- Entries numbered on from the end of the log are all pushed.
push_entries-append :
    (s : Option Snapshot) (es log : List RaftEntry)
    → IsNumbered (base_index s + length log) es
    → push_entries s es log ≡ log ++ es
unfolding push_entries
push_entries-append s [] log h = sym (append-nil log)
push_entries-append s (e ∷ es) log h =
    let place : vector_place s (pos e.index) ≡ pos (length log) =
      rw h.0
        (vector_place-base s (base_index s + length log) (omega arith) ∙ ap pos (omega arith)) in
    let longer : length (log ++ e ∷ []) ≡ length log + 1 = length-append log (e ∷ []) in
    let next : base_index s + length (log ++ e ∷ []) ≡ base_index s + length log + 1 =
      omega (arith, longer) in
    let fits : leb_ℤ (pos (length log)) (pos (length log)) ≡ true = ground arith in
    rw (place, fits)
      (push_entries-append s es (log ++ e ∷ []) (rw next h.1) ∙ append_assoc log (e ∷ []) es)

push_at :
    (s : Option Snapshot) (i : ℕ) (es log : List RaftEntry)
    → base_index s ≤ i
    → i - base_index s ≤ length log
    → IsNumbered i es
    → push_entries s es (take (i - base_index s) log) ≡ take (i - base_index s) log ++ es
push_at s i es log b room h =
    let k : base_index s + length (take (i - base_index s) log) ≡ i =
      omega (arith, length-take (i - base_index s) log) in
    push_entries-append s es (take (i - base_index s) log) (rw k h)

no_entry : (log : List RaftEntry) (k : ℕ) → get_elem? log k ≡ none → length log ≤ k
no_entry [] k h = omega arith
no_entry (e ∷ log) zero h = cc
no_entry (e ∷ log) (suc k) h = omega (arith, no_entry log k h)

-- The merge of entries numbered from `i` on, in a log that reaches up to there: nothing happens if
-- the first entry is there with its term, and otherwise the entries replace all from `i` on.
pub merge_entries_lem :
    (s : Option Snapshot) (prev : ℤ) (i : ℕ) (first : RaftEntry) (es log : List RaftEntry)
    → prev +ℤ pos 1 ≡ pos i
    → base_index s ≤ i
    → i - base_index s ≤ length log
    → IsNumbered i (first ∷ es)
    → merge_entries s prev (first ∷ es) log ≡ (
        if term_matches log (pos (i - base_index s)) first.term
        then log
        else take (i - base_index s) log ++ (first ∷ es))
unfolding merge_entries
merge_entries_lem s prev i first es log e b room h =
    let place : vector_place s (prev +ℤ pos 1) ≡ pos (i - base_index s) =
      rw e (vector_place-base s i b) in
    let pushed = push_at s i (first ∷ es) log b room h in
    elim (Option-cases (get_elem? log (i - base_index s))) [
      | inl none_there ↦
          let full = take-all (i - base_index s) log (no_entry log (i - base_index s) none_there) in
          let whole : push_entries s (first ∷ es) log ≡ log ++ (first ∷ es) = rw full at pushed in
          let absent : term_matches log (pos (i - base_index s)) first.term ≡ false =
            rw (none_there, term_matches) in
          rw (place, merge_entries, none_there) (rw (absent, full) whole)
      | inr (old, there) ↦ elim (Bool-cases (old.term == first.term)) [
        | inl same ↦
            let found : term_matches log (pos (i - base_index s)) first.term ≡ true =
              rw (there, term_matches) same in
            rw (place, merge_entries, there, same) (rw found)
        | inr other ↦
            let differs : term_matches log (pos (i - base_index s)) first.term ≡ false =
              rw (there, term_matches) other in
            rw (place, merge_entries, there, other) (rw (place, differs) pushed)
      ]
    ]

term_matches-lt :
    (log : List RaftEntry) (k t : ℕ) → term_matches log (pos k) t ≡ true → k < length log
term_matches-lt [] k t h = cc
term_matches-lt (e ∷ log) zero t h = omega arith
term_matches-lt (e ∷ log) (suc k) t h = omega (arith, term_matches-lt log k t h)

-- A log that passes the consistency check reaches up to the index behind the one that was checked.
pub is_consistent-room :
    (n : Node) (i t : ℕ)
    → is_consistent n (pos i) t ≡ true
    → (base_index n.latest_snapshot ≤ i + 1) × (i + 1 - base_index n.latest_snapshot ≤ length n.log)
unfolding is_consistent
is_consistent-room n i t h = elim (Option-cases n.latest_snapshot) [
  | inl e ↦ ground (arith, e, term_matches-lt n.log i t)
  | inr (snap, e) ↦ ground (
    arith,
    e,
    vector_place-base (some snap) i,
    term_matches-lt n.log (i - (snap.last_included_index + 1)) t,
  )
]

-- Applying and taking a snapshot below the threshold leave the log alone.
pub log-advance_commit :
    (env : Env) (c : ℤ) (w : World)
    → length w.node.log < snapshot_threshold
    → (advance_commit env c w).0.node.log ≡ w.node.log
unfolding advance_commit
log-advance_commit env c w h =
    let w1 : World = record w { node = record w.node { commit_index = new_commit w.node c } } in
    let same = ap (λ (n : Node). n.log) (apply_committed-node env w1) in ground (arith, same)

-- Hearing from a leader does not touch what the consistency check reads.
pub is_consistent-hear_leader :
    (env : Env) (l : ℤ) (w : World) (i : ℤ) (t : ℕ)
    → is_consistent (hear_leader env l w).node i t ≡ is_consistent w.node i t
unfolding is_consistent hear_leader
is_consistent-hear_leader env l w (pos i) t = refl
is_consistent-hear_leader env l w (negsuc i) t = refl

pub log-accept_entries :
    (env : Env) (r : AppendEntriesRpc) (w : World) (t : ℕ)
    → (accept_entries env r w).1 ≡ answers t true
    → (is_consistent w.node r.prev_log_index r.prev_log_term ≡ true)
      × (length (merge_entries w.node.latest_snapshot r.prev_log_index r.entries w.node.log)
            < snapshot_threshold
          → (accept_entries env r w).0.node.log
            ≡ merge_entries w.node.latest_snapshot r.prev_log_index r.entries w.node.log)
unfolding accept_entries
log-accept_entries env r w t h = grind (
  arith,
  log-advance_commit,
  is_consistent-hear_leader env r.leader_id w r.prev_log_index r.prev_log_term,
)
