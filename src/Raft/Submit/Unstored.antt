-- ===== src/Raft/Submit/Unstored.antt =====
-- Commands that are committed although no peer has them.
use kv_store_project.Prelude.{
  ℕ, ◌+◌, ◌≤◌, ◌<◌, ◌≡◌, refl, ap, ◌∙◌, true, false, List, [], ◌∷◌, ◌++◌, none, Option, some, arith,
  ltb, length, drop, drop-get_elem?, get_elem?, get_elem?-some, get_elem?-none, length-append,
}
use kv_store_project.Prelude.Int.{pos, sub_ℕ, ◌+ℤ◌, ltb_ℤ}
use kv_store_project.Prelude.Text.{Bytes}
use kv_store_project.Raft.State.{Node, World, Env, RaftEntry}
use kv_store_project.Raft.Log.{log_term, term_at, get_log_size, get_log_term, get_log_entries}
use kv_store_project.Raft.Apply.{send_command}
use kv_store_project.Raft.Apply.Progress.{apply_committed-node}
use kv_store_project.Raft.Append.{is_candidate, is_consistent, snapshot_threshold}
use kv_store_project.Raft.Append.Replies.{append_entries_lost}
use kv_store_project.Raft.Client.{
  PeerReply, ClientResult, next_of, handle_client_command, replicate_all, replicate_to,
  note_success, after_replication, commit_entry, remember, can_commit, count_append, append_command,
}
use kv_store_project.Raft.Cluster.{Delivery}
use kv_store_project.Raft.Submit.{
  Peers, client_message, pass, pass_all, ends_term, takes_command, submit,
}
use kv_store_project.Raft.Submit.Majority.{get_elem?-last, submit-new, holds, holding}
use kv_store_project.Raft.Submit.Stored.{sent_entries}

-- The peer has one entry more than the leader knows, such as the one before whose answer was lost:
-- it ends with the entry at the next index, and the leader has others behind that.
pub record IsAhead (next ni : ℕ) (old : RaftEntry) (l w : Node) : Type 0 where
  pub bare : l.latest_snapshot ≡ none
  pub bare' : w.latest_snapshot ≡ none
  pub idle : w.receiving_snapshot ≡ false
  pub follows : is_candidate w.state ≡ false
  pub term : l.current_term ≡ w.current_term
  pub size : length l.log ≡ ni + 1
  pub behind : next < ni
  pub same : get_elem? l.log next ≡ some old
  pub passes : is_consistent w (sub_ℕ next 1) (get_log_term l (sub_ℕ next 1)) ≡ true
  pub committed : ltb_ℤ w.commit_index l.commit_index ≡ false

pass_unstored :
    (env : Env) (next ni : ℕ) (old e : RaftEntry) (front : List RaftEntry) (l : Node) (w : World)
    → IsAhead next ni old l w.node
    → w.node.log ≡ front ++ old ∷ []
    → length front ≡ next
    → let (w', reply) = pass Delivery.answered env (client_message ni next l) w in
      (reply
        ≡ some (record {
          term = w.node.current_term;
          success = true;
          chunks_sent = 0;
          transferred = false;
        }))
      × (holds ni e w' ≡ false)
unfolding pass client_message
pass_unstored env next ni old e front l w a log size =
    let (second, there) = get_elem?-some (next + 1) l.log (omega (arith, a.size, a.behind)) in
    let es = drop (next + 1 + 1) l.log in
    let sent : get_log_entries l next (ni + 1) ≡ old ∷ second ∷ es =
      sent_entries next ni l a.bare a.size (omega (arith, a.behind))
      ∙ drop-get_elem? next l.log a.same
      ∙ ap (λ (xs : List RaftEntry). old ∷ xs) (drop-get_elem? (next + 1) l.log there) in
    let place : sub_ℕ next 1 +ℤ pos 1 ≡ pos (length front) = rw size (ground arith) in
    let (answer, kept, _) =
      append_entries_lost env (client_message ni next l) w front es old old second a.idle a.follows
        a.term a.bare' log place a.passes sent refl a.committed in
    let short : get_elem? w.node.log ni ≡ none =
      get_elem?-none ni w.node.log
        (rw log (omega (arith, length-append front (old ∷ []), size, a.behind))) in
    (rw answer refl, rw (pass, holds, kept, short) refl)

commit_index-commit_entry :
    (env : Env) (c : Bytes) (id ni : ℕ) (w : World)
    → length w.node.log < snapshot_threshold
    → (commit_entry env c id ni w).0.node.commit_index ≡ pos ni
unfolding commit_entry remember
commit_index-commit_entry env c id ni w small =
    let w1 : World = record w { node = record w.node { commit_index = pos ni } } in
    let same = apply_committed-node env w1 in
    let log = ap (λ (n : Node). n.log) same in
    let index = ap (λ (n : Node). n.commit_index) same in ground (arith, log, index)

-- One success out of two peers commits the command.
commit_index-replicated :
    (env : Env) (c : Bytes) (id ni t : ℕ) (l : World)
    → length l.node.peer_rpc_ports ≡ 2
    → t ≤ l.node.current_term
    → length l.node.log < snapshot_threshold
    → get_log_term l.node (pos ni) ≡ l.node.current_term
    → (after_replication env c id ni (
        replicate_all 0
          (some (record { term = t; success = true; chunks_sent = 0; transferred = false })
            ∷ none
            ∷ [])
          ni
          1
          l)).0.node.commit_index
      ≡ pos ni
unfolding replicate_all replicate_to note_success after_replication get_log_term
commit_index-replicated env c id ni t l ports le small own =
    let l' = count_append l in
    let calm : ltb l.node.current_term t ≡ false = ground arith in
    let ok : PeerReply = record {
      term = t;
      success = true;
      chunks_sent = 0;
      transferred = false;
    } in
    let l1 : World = record l' { node = note_success 0 ni l'.node } in
    let l2 = count_append l1 in
    let first : replicate_to 0 (some ok) ni 1 l ≡ (l1, some 2) = rw (replicate_to, calm) refl in
    let both : replicate_all 0 (some ok ∷ none ∷ []) ni 1 l ≡ (l2, some 2) =
      rw (replicate_all, first) (rw first refl) in
    let ready : can_commit ni 2 l2.node ≡ true = ground (arith, own, ports) in
    ap (λ (x : World × Option ℕ). (after_replication env c id ni x).0.node.commit_index) both
    ∙ rw (after_replication, ready) (commit_index-commit_entry env c id ni l2 small)

-- A new command goes the whole way.
handle_client_command-new :
    (env : Env) (replies : List (Option PeerReply)) (c : Bytes) (id : ℕ) (command key value : Bytes)
    (w : World)
    → takes_command c id w.node ≡ true
    → handle_client_command env replies c id command key value w
      ≡ after_replication env c id (get_log_size w.node) (
          replicate_all 0 replies
            (get_log_size w.node)
            1
            (append_command (send_command command key value) w))
unfolding handle_client_command
handle_client_command-new env replies c id command key value w new = ground (arith, new)

get_log_term-last :
    (front : List RaftEntry) (e : RaftEntry) (n : Node)
    → n.latest_snapshot ≡ none
    → n.log ≡ front ++ e ∷ []
    → get_log_term n (pos (length front)) ≡ e.term
unfolding get_log_term
get_log_term-last front e n bare log =
    rw (bare, log, log_term, term_at, get_elem?-last front e) refl

-- The messages to the two peers
pass_all_unstored :
    (env : Env) (ni : ℕ) (old e : RaftEntry) (front : List RaftEntry) (l : Node) (p q : World)
    → IsAhead (next_of l 0) ni old l p.node
    → p.node.log ≡ front ++ old ∷ []
    → length front ≡ next_of l 0
    → length q.node.log ≤ ni
    → let (ws, replies) = pass_all env 0 ni l ((p, Delivery.answered) ∷ (q, Delivery.lost) ∷ []) in
      (replies
        ≡ some (record {
          term = p.node.current_term;
          success = true;
          chunks_sent = 0;
          transferred = false;
        })
          ∷ none
          ∷ [])
      × (holding ni e ws ≡ 0)
unfolding pass_all holding
pass_all_unstored env ni old e front l p q ahead log size short =
    let (answer, without) = pass_unstored env (next_of l 0) ni old e front l p ahead log size in
    let ok : PeerReply = record {
      term = p.node.current_term;
      success = true;
      chunks_sent = 0;
      transferred = false;
    } in
    let calm : ends_term l.current_term (some ok) ≡ false = ground (arith, ahead.term) in
    let on : ends_term l.current_term
          (pass Delivery.answered env (client_message ni (next_of l 0) l) p).1
        ≡ false =
      rw answer calm in
    let gone : holds ni e q ≡ false = rw (get_elem?-none ni q.node.log short, holds) refl in
    (rw (pass_all, on, answer) refl, rw (pass_all, on, holding, without, gone) refl)

-- A leader of three nodes commits a command that no other node has. One peer, without a snapshot
-- like the leader, has one entry more than the leader knows, the one that the leader has there too,
-- as after a message whose answer was lost; the other peer is not reached. The first peer answers
-- success, the commit index moves to the new entry, and neither peer's log has it. The peer is in
-- the leader's term and no candidate, receives no snapshot, has committed as much as the leader, and
-- the check of the entry before the known ones passes; the leader stays below the threshold for a
-- snapshot, and the peer that is not reached has a shorter log than the leader's with the entry.
pub submit_unstored :
    (env env' : Env) (c : Bytes) (id : ℕ) (command key value : Bytes) (w p q : World)
    (old : RaftEntry) (front : List RaftEntry)
    → takes_command c id w.node ≡ true
    → length w.node.peer_rpc_ports ≡ 2
    → length w.node.log + 1 < snapshot_threshold
    → let l = (append_command (send_command command key value) w).node in
      let peers : Peers = (p, Delivery.answered) ∷ (q, Delivery.lost) ∷ [] in
      let entry : RaftEntry = record {
        term = w.node.current_term;
        index = length w.node.log;
        command = send_command command key value;
      } in
      IsAhead (next_of l 0) (length w.node.log) old l p.node
      → p.node.log ≡ front ++ old ∷ []
      → length front ≡ next_of l 0
      → length q.node.log ≤ length w.node.log
      → let (w', result, peers') = submit env env' peers c id command key value w in
        (w'.node.commit_index ≡ pos (length w.node.log))
        × (holding (length w.node.log) entry peers' ≡ 0)
unfolding append_command get_log_size
submit_unstored env env' c id command key value w p q old front new ports small ahead log size
      short =
    let text = send_command command key value in
    let l = append_command text w in
    let k = length w.node.log in
    let entry : RaftEntry = record { term = w.node.current_term; index = k; command = text } in
    let base : get_log_size w.node ≡ k = rw (ahead.bare, get_log_size) (omega arith) in
    let appended : l.node.log ≡ w.node.log ++ entry ∷ [] = rw (append_command, base) refl in
    let own = get_log_term-last w.node.log entry l.node ahead.bare appended in
    let ok : PeerReply = record {
      term = p.node.current_term;
      success = true;
      chunks_sent = 0;
      transferred = false;
    } in
    let (replies, none_has) =
      pass_all_unstored env' k old entry front l.node p q ahead log size short in
    let commits =
      commit_index-replicated env c id k p.node.current_term l ports (omega (arith, ahead.term))
        (rw appended (omega (arith, small, length-append w.node.log (entry ∷ [])))) own in
    let peers : Peers = (p, Delivery.answered) ∷ (q, Delivery.lost) ∷ [] in
    let (sent, received) = submit-new env env' peers c id command key value w new base in
    (
      sent
          ∙ ap
              (λ (rs : List (Option PeerReply)).
                (handle_client_command env rs c id command key value w).0.node.commit_index)
              replies
          ∙ ap (λ (x : World × ClientResult). x.0.node.commit_index)
              (handle_client_command-new env (some ok ∷ none ∷ []) c id command key value w new)
          ∙ ap
              (λ (n : ℕ).
                let x =
                  after_replication env c id n (replicate_all 0 (some ok ∷ none ∷ []) n 1 l) in
                x.0.node.commit_index)
              base
          ∙ commits,
      rw received none_has,
    )
