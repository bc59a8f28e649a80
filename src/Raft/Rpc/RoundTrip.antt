-- ===== src/Raft/Rpc/RoundTrip.antt =====
-- What a node writes as a document, the other end reads as it was.
use kv_store_project.Prelude.{ℕ, ◌≡◌, refl, Bool, false, List, [], ◌∷◌, map}
use kv_store_project.Prelude.Int.{pos, minus_one}
use kv_store_project.Prelude.Text.{Bytes, codes, bytes_eq}
use kv_store_project.Prelude.Map
use kv_store_project.Raft.State.{RaftEntry, Snapshot}
use kv_store_project.Raft.Vote.{RequestVoteRpc, RequestVoteResponse}
use kv_store_project.Raft.Append.{AppendEntriesRpc}
use kv_store_project.Raft.Install.{InstallSnapshotRpc}
use kv_store_project.Raft.Rpc.Library.{Library, IsLawful}
use kv_store_project.Raft.Rpc.Messages.{
  reads, log_entry_json, append_entries_json, request_vote_json, chunk_json, read_log_entry,
  read_log_entries, read_append_entries, read_request_vote, read_install_snapshot,
  read_vote_response, read_append_response,
}
use kv_store_project.Raft.Rpc.Documents.{vote_response_json, append_response_json, error_json}

module _ (L : Library) (law : IsLawful L) where
  pub read_request_vote-json :
      (r : RequestVoteRpc) → read_request_vote L (request_vote_json L r) ≡ reads r
  unfolding read_request_vote request_vote_json Map.lookup bytes_eq
  read_request_vote-json r =
      rw
        (
          law.value_int-object (codes "term") (pos 0) (pos r.term) _ refl,
          law.value_int-object (codes "candidateId") minus_one r.candidate_id _ refl,
          law.value_int-object (codes "lastLogIndex") minus_one r.last_log_index _ refl,
          law.value_int-object (codes "lastLogTerm") (pos 0) (pos r.last_log_term) _ refl,
        )
        refl

  read_log_entry-json : (e : RaftEntry) → read_log_entry L (log_entry_json L e) ≡ reads e
  unfolding read_log_entry log_entry_json Map.lookup bytes_eq
  read_log_entry-json e =
      rw
        (
          law.at_int-object (codes "term") (pos e.term) _ refl,
          law.at_int-object (codes "index") (pos e.index) _ refl,
          law.at_text-object (codes "command") e.command _ refl,
        )
        refl

  read_log_entries-json :
      (es : List RaftEntry) → read_log_entries L (map (log_entry_json L) es) ≡ reads es
  unfolding read_log_entries
  read_log_entries-json [] = refl
  read_log_entries-json (e ∷ es) =
      rw (read_log_entries, read_log_entry-json e, read_log_entries-json es) refl

  pub read_append_entries-json :
      (r : AppendEntriesRpc) → read_append_entries L (append_entries_json L r) ≡ reads r
  unfolding read_append_entries append_entries_json Map.lookup bytes_eq
  read_append_entries-json r =
      rw
        (
          law.value_int-object (codes "term") (pos 0) (pos r.term) _ refl,
          law.value_int-object (codes "leaderId") minus_one r.leader_id _ refl,
          law.value_int-object (codes "prevLogIndex") minus_one r.prev_log_index _ refl,
          law.value_int-object (codes "prevLogTerm") (pos 0) (pos r.prev_log_term) _ refl,
          law.value_array-object (codes "entries") (map (log_entry_json L) r.entries) _ refl,
          law.value_int-object (codes "leaderCommit") (pos 0) r.leader_commit _ refl,
          read_log_entries-json r.entries,
        )
        refl

  pub read_install_snapshot-json :
      (snap : Snapshot) (num total : ℕ) (r : InstallSnapshotRpc)
      → read_install_snapshot L (chunk_json L snap num total r) ≡ reads r
  unfolding read_install_snapshot chunk_json Map.lookup bytes_eq
  read_install_snapshot-json snap num total r =
      rw
        (
          law.value_int-object (codes "term") (pos 0) (pos r.term) _ refl,
          law.value_int-object (codes "leaderId") minus_one r.leader_id _ refl,
          law.value_int-object (codes "lastIncludedIndex") minus_one (pos snap.last_included_index)
              _ refl,
          law.value_int-object (codes "lastIncludedTerm") (pos 0) (pos snap.last_included_term) _
              refl,
          law.value_int-object (codes "offset") (pos 0) (pos r.offset) _ refl,
          law.value_text-object (codes "data") [] r.chunk_base64 _ refl,
          law.value_bool-object (codes "done") false r.done _ refl,
          law.value_int-object (codes "chunkNum") minus_one (pos num) _ refl,
          law.value_int-object (codes "totalChunks") minus_one (pos total) _ refl,
        )
        refl

  pub read_vote_response-json :
      (r : RequestVoteResponse) → read_vote_response L (vote_response_json L r) ≡ reads r
  unfolding read_vote_response vote_response_json Map.lookup bytes_eq
  read_vote_response-json r =
      rw
        (
          law.value_int-object (codes "term") (pos 0) (pos r.term) _ refl,
          law.value_bool-object (codes "voteGranted") false r.vote_granted _ refl,
        )
        refl

  pub read_append_response-json :
      (term : ℕ) (success : Bool)
      → read_append_response L (append_response_json L term success)
        ≡ reads (record { term = term; success = success })
  unfolding read_append_response append_response_json Map.lookup bytes_eq
  read_append_response-json term success =
      rw
        (
          law.value_int-object (codes "term") (pos 0) (pos term) _ refl,
          law.value_bool-object (codes "success") false success _ refl,
        )
        refl

  -- An error is read as a refusal of term 0.
  pub read_append_response-error :
      (message : Bytes)
      → read_append_response L (error_json L message) ≡ reads (record { term = 0; success = false })
  unfolding read_append_response error_json Map.lookup bytes_eq
  read_append_response-error message =
      rw
        (
          law.value_int-default (codes "term") (pos 0) ((codes "error", L.text message) ∷ []) refl,
          law.value_bool-default (codes "success") false ((codes "error", L.text message) ∷ [])
              refl,
        )
        refl
