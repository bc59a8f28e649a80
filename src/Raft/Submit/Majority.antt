-- ===== src/Raft/Submit/Majority.antt =====
-- A committed command stands in the logs of a majority.
use kv_store_project.Prelude.{
  ℕ, ◌+◌, ◌*◌, ◌≤◌, ◌<◌, ◌≡◌, ◌⊎◌, inl, inr, refl, ap, ◌∙◌, Bool, true, false, ◌&&◌, List, [], ◌∷◌,
  ◌++◌, Option, none, some, Bool-cases, arith, ◌==◌, length, get_elem?, if◌then◌else◌,
  length-append,
}
use kv_store_project.Prelude.Text.{Bytes, bytes_eq, bytes_eq_refl}
use kv_store_project.Raft.State.{Node, World, Env, RaftEntry}
use kv_store_project.Raft.Log.{get_log_size}
use kv_store_project.Raft.Apply.{send_command}
use kv_store_project.Raft.Append.{
  AppendReply, answers, null_reply, blocked, invalid_json, append_entries,
}
use kv_store_project.Raft.Client.{PeerReply, next_of, append_command, handle_client_command}
use kv_store_project.Raft.Client.Commit.{
  accepted, one, accepted-one, recall-node, handle_client_command-majority,
}
use kv_store_project.Raft.Heartbeat.{response_of}
use kv_store_project.Raft.Cluster.{Delivery}
use kv_store_project.Raft.Submit.{
  Peers, client_message, peer_reply, pass, pass_all, ends_term, takes_command, submit,
}
use kv_store_project.Raft.Submit.Stored.{Knows, stored_at, append_entries-client_message}

abbrev pub same_entry : RaftEntry → RaftEntry → Bool
same_entry a b = a.term == b.term && (a.index == b.index && bytes_eq a.command b.command)

-- The log has the entry at its place.
abbrev pub holds : ℕ → RaftEntry → World → Bool
holds k e w = elim (get_elem? w.node.log k) [ none ↦ false | some x ↦ same_entry x e ]

-- How many nodes have it
unfoldable pub holding : ℕ → RaftEntry → List World → ℕ
unfolding bytes_eq
holding k e [] = 0
holding k e (w ∷ ws) = (if holds k e w then 1 else 0) + holding k e ws

-- The leader knows the lengths of the logs of all its peers from number `i` on.
abbrev pub AllKnown : ℕ → Node → Peers → Type 0
AllKnown i l [] = Unit {0}
AllKnown i l ((w, link) ∷ peers) = Knows (next_of l i) l w.node × AllKnown (i + 1) l peers

same_entry_refl : (e : RaftEntry) → same_entry e e ≡ true
same_entry_refl e = ground (arith, bytes_eq_refl e.command)

module _ (env : Env) (ni : ℕ) (e : RaftEntry) (l : Node) (size : length l.log ≡ ni + 1)
    (last : get_elem? l.log ni ≡ some e) where
  holds-client_message :
      (next t : ℕ) (w : World)
      → Knows next l w.node
      → (append_entries env (client_message ni next l) w).1 ≡ answers t true
      → holds ni e (append_entries env (client_message ni next l) w).0 ≡ true
  holds-client_message next t w k ok =
      let log = append_entries-client_message env next ni t l w k size ok in
      let place = stored_at w.node.log l.log ni (omega (arith, size, k.size, k.behind)) ∙ last in
      rw (log, place, holds) (same_entry_refl e)

  counted-le :
      (reply : AppendReply) (b : Bool)
      → ((t : ℕ) → reply ≡ answers t true → b ≡ true)
      → one (peer_reply (response_of reply)) ≤ (if b then 1 else 0)
  counted-le (answers t true) b h = rw (h t refl) (omega arith)
  counted-le (answers t false) b h = omega arith
  counted-le null_reply b h = omega arith
  counted-le blocked b h = omega arith
  counted-le invalid_json b h = omega arith

  -- A peer that is counted has the entry.
  one-pass :
      (link : Delivery) (next : ℕ) (w : World)
      → Knows next l w.node
      → let (w', reply) = pass link env (client_message ni next l) w in
        one reply ≤ (if holds ni e w' then 1 else 0)
  unfolding pass
  one-pass Delivery.lost next w k = omega arith
  one-pass Delivery.unanswered next w k = omega arith
  one-pass Delivery.answered next w k =
      counted-le (append_entries env (client_message ni next l) w).1
        (holds ni e (append_entries env (client_message ni next l) w).0)
        (λ t. holds-client_message next t w k)

  accepted-pass_all :
      (i : ℕ) (peers : Peers)
      → AllKnown i l peers
      → let (ws, replies) = pass_all env i ni l peers in accepted replies ≤ holding ni e ws
  unfolding pass_all holding accepted
  accepted-pass_all i [] h = omega arith
  accepted-pass_all i ((w, link) ∷ peers) (k, ks) =
      let (w', reply) = pass link env (client_message ni (next_of l i) l) w in
      let here = one-pass link (next_of l i) w k in
      let rest = accepted-pass_all (i + 1) peers ks in
      elim (Bool-cases (ends_term l.current_term reply)) [
        | inl ended ↦ rw (pass_all, ended) (omega (arith, here, accepted-one reply []))
        | inr on ↦
            rw (pass_all, on)
              (omega (arith, here, rest, accepted-one reply (pass_all env (i + 1) ni l peers).1))
      ]

-- What is not a new command for a leader does not commit anything.
commit_index-refused :
    (env : Env) (replies : List (Option PeerReply)) (c : Bytes) (id : ℕ) (command key value : Bytes)
    (w : World)
    → takes_command c id w.node ≡ false
    → (handle_client_command env replies c id command key value w).0.node.commit_index
      ≡ w.node.commit_index
unfolding handle_client_command
commit_index-refused env replies c id command key value w no_command =
    ground (arith, no_command, recall-node c w)

pub get_elem?-last :
    (front : List RaftEntry) (e : RaftEntry) → get_elem? (front ++ e ∷ []) (length front) ≡ some e
get_elem?-last [] e = refl
get_elem?-last (x ∷ front) e = get_elem?-last front e

-- A new command: the replies of the peers are handed to handleClientCommand.
module _ (env env' : Env) (peers : Peers) (c : Bytes) (id : ℕ) (command key value : Bytes)
    (w : World) where
  pub submit-new :
      {k : ℕ}
      → takes_command c id w.node ≡ true
      → get_log_size w.node ≡ k
      → let (w', result, ws') = submit env env' peers c id command key value w in
        let (ws, replies) =
          pass_all env' 0 k (append_command (send_command command key value) w).node peers in
        (w'.node.commit_index
          ≡ (handle_client_command env replies c id command key value w).0.node.commit_index)
        × (ws' ≡ ws)
  unfolding submit
  submit-new new size = (rw (submit, new, size) refl, rw (submit, new, size) refl)

-- Where the leader knows of each of its peers how long its log is, a client's command moves the
-- commit index only if the command's entry then stands at its place, with the leader's term, in the
-- logs of so many peers that they are with the leader more than half of the cluster; what the
-- network loses does not matter. Neither the leader nor a peer has a snapshot, each peer's log is
-- shorter than the leader's with the new entry, the entries of that are numbered from 0, and both
-- logs together stay below the threshold for a snapshot.
pub submit-majority :
    (env env' : Env) (peers : Peers) (c : Bytes) (id : ℕ) (command key value : Bytes) (w : World)
    → w.node.latest_snapshot ≡ none
    → AllKnown 0 (append_command (send_command command key value) w).node peers
    → let (w', result, peers') = submit env env' peers c id command key value w in
      let entry : RaftEntry = record {
        term = w.node.current_term;
        index = length w.node.log;
        command = send_command command key value;
      } in
      (w'.node.commit_index ≡ w.node.commit_index)
      ⊎ (length w.node.peer_rpc_ports + 1 < 2 * (1 + holding (length w.node.log) entry peers'))
unfolding submit get_log_size append_command
submit-majority env env' peers c id command key value w bare known =
    let text = send_command command key value in
    let entry : RaftEntry = record {
      term = w.node.current_term;
      index = length w.node.log;
      command = text;
    } in
    let base : get_log_size w.node ≡ length w.node.log = rw (bare, get_log_size) (omega arith) in
    let appended : (append_command text w).node.log ≡ w.node.log ++ entry ∷ [] =
      rw (append_command, base) refl in
    elim (Bool-cases (takes_command c id w.node)) [
      | inl new ↦
          let (ws, replies) =
            pass_all env' 0 (length w.node.log) (append_command text w).node peers in
          let count =
            accepted-pass_all env' (length w.node.log) entry (append_command text w).node
              (ap (λ (xs : List RaftEntry). length xs) appended
                ∙ length-append w.node.log (entry ∷ []))
              (ap (λ (xs : List RaftEntry). get_elem? xs (length w.node.log)) appended
                ∙ get_elem?-last w.node.log entry)
              0 peers known in
          let moves = handle_client_command-majority env replies c id command key value w in
          let (sent, received) = submit-new env env' peers c id command key value w new base in
          ground (arith, sent, received, moves, count)
      | inr no_command ↦ inl (
          rw (submit, no_command) (commit_index-refused env [] c id command key value w no_command))
    ]
