-- ===== src/Raft/Answers/Counts.antt =====
-- The counters of client requests.
use kv_store_project.Prelude.{
  ℕ, ◌+◌, ◌≡◌, ◌∙◌, refl, inl, inr, List, [], ◌∷◌, Option, none, some, arith, Option-cases,
  Bool-cases, leb, length,
}
use kv_store_project.Prelude.Int.{pos}
use kv_store_project.Prelude.Text.{Bytes}
use kv_store_project.Wal.{truncate_up_to}
use kv_store_project.Raft.State.{World, Env, Metrics}
use kv_store_project.Raft.Log.{get_log_size, truncate_log_safe}
use kv_store_project.Raft.Apply.{send_command, apply_committed}
use kv_store_project.Raft.Apply.Progress.{apply_committed-node}
use kv_store_project.Raft.Snapshots.{take_snapshot}
use kv_store_project.Raft.Append.{snapshot_threshold}
use kv_store_project.Raft.Client.{
  PeerReply, replicate_to, replicate_all, remember, recall, can_commit, commit_entry,
  after_replication, append_command, is_leader, seen, handle_client_command, ClientResult, text,
  thrown,
}
use kv_store_project.Raft.Answers.{
  Answer, Request, redirect, ok, ok_value, failure, answer_result, client_request,
  count_client_request,
}

-- The counters are as before.
record SameCounts (v w : World) : Type 0 where
  received : w.node.metrics.client_requests_received ≡ v.node.metrics.client_requests_received
  succeeded : w.node.metrics.client_requests_succeeded ≡ v.node.metrics.client_requests_succeeded
  failed : w.node.metrics.client_requests_failed ≡ v.node.metrics.client_requests_failed
  redirected : w.node.metrics.client_requests_redirected ≡ v.node.metrics.client_requests_redirected

SameCounts-refl : (w : World) → SameCounts w w
SameCounts-refl w = record { received = refl; succeeded = refl; failed = refl; redirected = refl }

SameCounts-trans : {u v w : World} → SameCounts u v → SameCounts v w → SameCounts u w
SameCounts-trans a b = record {
  received = b.received ∙ a.received;
  succeeded = b.succeeded ∙ a.succeeded;
  failed = b.failed ∙ a.failed;
  redirected = b.redirected ∙ a.redirected;
}

replicate_to-SameCounts :
    (i : ℕ) (reply : Option PeerReply) (new_index count : ℕ) (w : World)
    → SameCounts w (replicate_to i reply new_index count w).0
unfolding replicate_to
replicate_to-SameCounts i reply new_index count w = ground arith

replicate_all-SameCounts :
    (i : ℕ) (replies : List (Option PeerReply)) (new_index count : ℕ) (w : World)
    → SameCounts w (replicate_all i replies new_index count w).0
unfolding replicate_all
replicate_all-SameCounts i [] new_index count w = SameCounts-refl w
replicate_all-SameCounts i (reply ∷ replies) new_index count w =
    let one = replicate_to-SameCounts i reply new_index count w in
    elim (Option-cases (replicate_to i reply new_index count w).1) [
      | inl over ↦ rw (over, replicate_all) one
      | inr (more, on) ↦
          let rest =
            replicate_all-SameCounts (i + 1) replies new_index more
              (replicate_to i reply new_index count w).0 in
          rw (on, replicate_all) (SameCounts-trans one rest)
    ]

take_snapshot-SameCounts : (env : Env) (w : World) → SameCounts w (take_snapshot env w).0
unfolding take_snapshot truncate_up_to truncate_log_safe
take_snapshot-SameCounts env w = ground arith

apply_committed-SameCounts : (env : Env) (w : World) → SameCounts w (apply_committed env w).0
apply_committed-SameCounts env w = ground (arith, apply_committed-node env w)

remember-SameCounts :
    (client_id : Bytes) (request_id : ℕ) (result : Bytes) (w : World)
    → SameCounts w (remember client_id request_id result w)
unfolding remember
remember-SameCounts client_id request_id result w = ground arith

recall-SameCounts : (client_id : Bytes) (w : World) → SameCounts w (recall client_id w).0
unfolding recall
recall-SameCounts client_id w = ground arith

commit_entry-SameCounts :
    (env : Env) (client_id : Bytes) (request_id new_index : ℕ) (w : World)
    → SameCounts w (commit_entry env client_id request_id new_index w).0
unfolding commit_entry
commit_entry-SameCounts env client_id request_id new_index w =
    let w1 : World = record w { node = record w.node { commit_index = pos new_index } } in
    let (w2, result) = apply_committed env w1 in
    let applied : SameCounts w w2 = ground (arith, apply_committed-SameCounts env w1) in
    let shot = SameCounts-trans applied (take_snapshot-SameCounts env w2) in
    let kept = remember-SameCounts client_id request_id result in
    elim (Bool-cases (leb snapshot_threshold (length w2.node.log))) [
      | inl full ↦ elim (Bool-cases (take_snapshot env w2).1) [
        | inl done ↦ rw (full, done) (SameCounts-trans shot (kept (take_snapshot env w2).0))
        | inr failed ↦ rw (full, failed) shot
      ]
      | inr short ↦ rw short (SameCounts-trans applied (kept w2))
    ]

after_replication-SameCounts :
    (env : Env) (client_id : Bytes) (request_id new_index : ℕ) (w : World) (c : Option ℕ)
    → SameCounts w (after_replication env client_id request_id new_index (w, c)).0
unfolding after_replication
after_replication-SameCounts env client_id request_id new_index w none = SameCounts-refl w
after_replication-SameCounts env client_id request_id new_index w (some count) =
    elim (Bool-cases (can_commit new_index count w.node)) [
      | inl can ↦ rw can (commit_entry-SameCounts env client_id request_id new_index w)
      | inr not_yet ↦ rw not_yet (SameCounts-refl w)
    ]

handle_client_command-SameCounts :
    (env : Env) (replies : List (Option PeerReply)) (client_id : Bytes) (request_id : ℕ)
    (command key value : Bytes) (w : World)
    → SameCounts w (handle_client_command env replies client_id request_id command key value w).0
unfolding handle_client_command append_command
handle_client_command-SameCounts env replies client_id request_id command key value w =
    let w1 = append_command (send_command command key value) w in
    let index = get_log_size w.node in
    let all : SameCounts w (replicate_all 0 replies index 1 w1).0 =
      ground (arith, replicate_all-SameCounts 0 replies index 1 w1) in
    let (w2, counted) = replicate_all 0 replies index 1 w1 in
    let rest =
      SameCounts-trans all
        (after_replication-SameCounts env client_id request_id index w2 counted) in
    let stays = SameCounts-refl w in
    let again = recall-SameCounts client_id w in
    elim (Bool-cases w.node.shutdown_requested) [
      | inl down ↦ ground (arith, down, stays)
      | inr up ↦ elim (Bool-cases (is_leader w.node.state)) [
        | inr other ↦ ground (arith, up, other, stays)
        | inl leads ↦ elim (Bool-cases (seen client_id request_id w.node)) [
          | inl known ↦ ground (arith, up, leads, known, again)
          | inr fresh ↦ ground (arith, up, leads, fresh, rest)
        ]
      ]
    ]

-- How often a request with this answer counts as succeeded, as failed and as redirected
abbrev pub successes : Answer → ℕ
successes ok = 1
successes (ok_value value) = 1
successes _ = 0

abbrev pub failures : Answer → ℕ
failures (failure message) = 1
failures _ = 0

abbrev pub redirects : Answer → ℕ
redirects (redirect leader_id) = 1
redirects _ = 0

-- The counters `m` have become `m'` by one request with this answer.
pub record IsCounted (a : Answer) (m m' : Metrics) : Type 0 where
  pub received : m'.client_requests_received ≡ m.client_requests_received + 1
  pub succeeded : m'.client_requests_succeeded ≡ m.client_requests_succeeded + successes a
  pub failed : m'.client_requests_failed ≡ m.client_requests_failed + failures a
  pub redirected : m'.client_requests_redirected ≡ m.client_requests_redirected + redirects a

answer_result-counts :
    (command : Bytes) (result : ClientResult) (w : World)
    → let m = w.node.metrics in
      let (w', a) = answer_result command result w in
      let m' = w'.node.metrics in
      (m'.client_requests_received ≡ m.client_requests_received)
      × (m'.client_requests_succeeded ≡ m.client_requests_succeeded + successes a)
      × (m'.client_requests_failed ≡ m.client_requests_failed + failures a)
      × (m'.client_requests_redirected ≡ m.client_requests_redirected + redirects a)
unfolding answer_result
answer_result-counts command thrown w = ground arith
answer_result-counts command (text result) w = ground arith

-- Every request raises the counter of received requests by one, and its answer says which other
-- counter it raises by one: OK, with a value or without, the one of succeeded requests, an error
-- the one of failed requests, a redirect the one of redirected requests. No other of the four
-- changes, and none of the last three where the write-ahead log throws and the answer is invalid
-- JSON.
pub client_request-IsCounted :
    (env : Env) (replies : List (Option PeerReply)) (r : Request) (w : World)
    → IsCounted
        (client_request env replies r w).1
        w.node.metrics
        (client_request env replies r w).0.node.metrics
unfolding client_request
client_request-IsCounted env replies r w =
    let w0 = count_client_request w in
    let same =
      handle_client_command-SameCounts env replies r.client_id r.request_id r.command r.key r.value
        w0 in
    let (w1, result) =
      handle_client_command env replies r.client_id r.request_id r.command r.key r.value w0 in
    elim (Bool-cases (is_leader w.node.state)) [
      | inl leads ↦
          let counted = answer_result-counts r.command result w1 in
          rw leads (record {
            received = counted.0 ∙ same.received;
            succeeded = omega (arith, counted.1, same.succeeded);
            failed = omega (arith, counted.2, same.failed);
            redirected = omega (arith, counted.3, same.redirected);
          })
      | inr other ↦ rw other (record {
        received = refl;
        succeeded = omega arith;
        failed = omega arith;
        redirected = refl;
      })
    ]
