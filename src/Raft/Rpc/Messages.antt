-- ===== src/Raft/Rpc/Messages.antt =====
-- The messages and their answers as documents: to_json and from_json of src/rpc_server.cpp and
-- src/raft_node.h, the members that handle_node_client reads, and the chunk messages of
-- src/raft_node.cpp. Terms and indices of entries are ℕ here: a document in which one of them is
-- negative, which no node sends, and entries that cannot be read are `unmodelled`.
use kv_store_project.Prelude.{ℕ, false, List, [], ◌∷◌, Option, none, some, map}
use kv_store_project.Prelude.Int.{ℤ, pos, negsuc, minus_one, pos_part}
use kv_store_project.Prelude.Text.{codes}
use kv_store_project.Raft.State.{RaftEntry, Snapshot}
use kv_store_project.Raft.Vote.{RequestVoteRpc, RequestVoteResponse}
use kv_store_project.Raft.Append.{AppendEntriesRpc}
use kv_store_project.Raft.Install.{InstallSnapshotRpc}
use kv_store_project.Raft.Heartbeat.{AppendEntriesResponse}
use kv_store_project.Raft.Answers.{Request}
use kv_store_project.Raft.Rpc.Library.{Library}

-- What reading a document brings
pub data Reading {ℓ} (A : Type ℓ) : Type ℓ where
  reads : A → Reading A
  throws unmodelled : Reading A

infixl 5 ◌>>=◌
abbrev pub ◌>>=◌ {ℓ κ} : {A : Type ℓ} {B : Type κ} → Reading A → (A → Reading B) → Reading B
reads a >>= f = f a
throws >>= f = throws
unmodelled >>= f = unmodelled

abbrev pub reading {ℓ} : {A : Type ℓ} → Option A → Reading A
reading none = throws
reading (some a) = reads a

abbrev pub natural : Option ℤ → Reading ℕ
natural none = throws
natural (some (pos n)) = reads n
natural (some (negsuc n)) = unmodelled

-- Entries that cannot be read throw in the middle of the handler.
abbrev pub array_of {ℓ} : {A : Type ℓ} → Option A → Reading A
array_of none = unmodelled
array_of (some a) = reads a

module _ (L : Library) where
  open L use {
    Json, parse, int, bool, text, array, object, value_int, value_bool, value_text, value_array,
    at_int, at_text,
  }

  unfoldable pub request_vote_json : RequestVoteRpc → Json
  request_vote_json r = object (
      (codes "rpc", text (codes "RequestVote"))
      ∷ (codes "term", int (pos r.term))
      ∷ (codes "candidateId", int r.candidate_id)
      ∷ (codes "lastLogIndex", int r.last_log_index)
      ∷ (codes "lastLogTerm", int (pos r.last_log_term))
      ∷ [])

  unfoldable pub log_entry_json : RaftEntry → Json
  log_entry_json e = object (
      (codes "term", int (pos e.term))
      ∷ (codes "index", int (pos e.index))
      ∷ (codes "command", text e.command)
      ∷ [])

  unfoldable pub append_entries_json : AppendEntriesRpc → Json
  unfolding log_entry_json
  append_entries_json r = object (
      (codes "rpc", text (codes "AppendEntries"))
      ∷ (codes "term", int (pos r.term))
      ∷ (codes "leaderId", int r.leader_id)
      ∷ (codes "prevLogIndex", int r.prev_log_index)
      ∷ (codes "prevLogTerm", int (pos r.prev_log_term))
      ∷ (codes "entries", array (map log_entry_json r.entries))
      ∷ (codes "leaderCommit", int r.leader_commit)
      ∷ [])

  -- The message of chunk number `num` out of `total`, of a snapshot
  unfoldable pub chunk_json : Snapshot → ℕ → ℕ → InstallSnapshotRpc → Json
  chunk_json snap num total r = object (
      (codes "rpc", text (codes "InstallSnapshot"))
      ∷ (codes "term", int (pos r.term))
      ∷ (codes "leaderId", int r.leader_id)
      ∷ (codes "lastIncludedIndex", int (pos snap.last_included_index))
      ∷ (codes "lastIncludedTerm", int (pos snap.last_included_term))
      ∷ (codes "offset", int (pos r.offset))
      ∷ (codes "data", text r.chunk_base64)
      ∷ (codes "done", bool r.done)
      ∷ (codes "chunkNum", int (pos num))
      ∷ (codes "totalChunks", int (pos total))
      ∷ [])

  unfoldable pub read_request_vote : Json → Reading RequestVoteRpc
  read_request_vote j = do
    term ← natural (value_int (codes "term") (pos 0) j)
    candidate_id ← reading (value_int (codes "candidateId") minus_one j)
    last_log_index ← reading (value_int (codes "lastLogIndex") minus_one j)
    last_log_term ← natural (value_int (codes "lastLogTerm") (pos 0) j)
    reads (record {
      term = term;
      candidate_id = candidate_id;
      last_log_index = last_log_index;
      last_log_term = last_log_term;
    })

  unfoldable pub read_log_entry : Json → Reading RaftEntry
  read_log_entry j = do
    term ← natural (at_int (codes "term") j)
    index ← natural (at_int (codes "index") j)
    command ← reading (at_text (codes "command") j)
    reads (record { term = term; index = index; command = command })

  unfoldable pub read_log_entries : List Json → Reading (List RaftEntry)
  unfolding read_log_entry
  read_log_entries [] = reads []
  read_log_entries (j ∷ js) = elim (read_log_entry j) [
    | reads e ↦ do es ← read_log_entries js; reads (e ∷ es)
    | throws ↦ unmodelled
    | unmodelled ↦ unmodelled
  ]

  unfoldable pub read_append_entries : Json → Reading AppendEntriesRpc
  unfolding read_log_entries
  read_append_entries j = do
    term ← natural (value_int (codes "term") (pos 0) j)
    leader_id ← reading (value_int (codes "leaderId") minus_one j)
    prev_log_index ← reading (value_int (codes "prevLogIndex") minus_one j)
    prev_log_term ← natural (value_int (codes "prevLogTerm") (pos 0) j)
    documents ← array_of (value_array (codes "entries") j)
    leader_commit ← reading (value_int (codes "leaderCommit") (pos 0) j)
    entries ← read_log_entries documents
    reads (record {
      term = term;
      leader_id = leader_id;
      prev_log_index = prev_log_index;
      prev_log_term = prev_log_term;
      entries = entries;
      leader_commit = leader_commit;
    })

  -- The two members that only the lines of the log show are read and left.
  unfoldable pub read_install_snapshot : Json → Reading InstallSnapshotRpc
  read_install_snapshot j = do
    term ← natural (value_int (codes "term") (pos 0) j)
    leader_id ← reading (value_int (codes "leaderId") minus_one j)
    last_index ← reading (value_int (codes "lastIncludedIndex") minus_one j)
    last_term ← reading (value_int (codes "lastIncludedTerm") (pos 0) j)
    offset ← natural (value_int (codes "offset") (pos 0) j)
    chunk_base64 ← reading (value_text (codes "data") [] j)
    done ← reading (value_bool (codes "done") false j)
    chunk_num ← reading (value_int (codes "chunkNum") minus_one j)
    total_chunks ← reading (value_int (codes "totalChunks") minus_one j)
    reads (record {
      term = term;
      leader_id = leader_id;
      offset = offset;
      chunk_base64 = chunk_base64;
      done = done;
    })

  unfoldable pub read_client_request : Json → Reading Request
  read_client_request j = do
    command ← reading (value_text (codes "command") [] j)
    key ← reading (value_text (codes "key") [] j)
    value ← reading (value_text (codes "value") [] j)
    client_id ← reading (value_text (codes "clientId") [] j)
    request_id ← natural (value_int (codes "requestId") (pos 0) j)
    reads (record {
      command = command;
      key = key;
      value = value;
      client_id = client_id;
      request_id = request_id;
    })

  -- The term of an answer is compared with terms that are not negative, so a negative one counts as
  -- 0. A document that has no such members, an error for one, reads as a refusal of term 0.
  unfoldable pub read_vote_response : Json → Reading RequestVoteResponse
  read_vote_response j = do
    term ← reading (value_int (codes "term") (pos 0) j)
    vote_granted ← reading (value_bool (codes "voteGranted") false j)
    reads (record { term = pos_part term; vote_granted = vote_granted })

  unfoldable pub read_append_response : Json → Reading AppendEntriesResponse
  read_append_response j = do
    term ← reading (value_int (codes "term") (pos 0) j)
    success ← reading (value_bool (codes "success") false j)
    reads (record { term = pos_part term; success = success })
