-- ===== src/Raft/Rpc/Exchange.antt =====
-- Messages over the wire do what the handlers do with the messages themselves.
use kv_store_project.Prelude.{ℕ, ◌≡◌, ◌≤◌, refl, ◌∙◌, false, [], ◌∷◌, some, length, take, take-all}
use kv_store_project.Prelude.Int.{pos}
use kv_store_project.Prelude.Text.{Bytes, is_empty, codes, bytes_eq}
use kv_store_project.Prelude.Map
use kv_store_project.Raft.State.{World, Env}
use kv_store_project.Raft.Vote.{RequestVoteRpc, request_vote}
use kv_store_project.Raft.Append.{
  AppendEntriesRpc, AppendReply, answers, null_reply, blocked, invalid_json, append_entries,
}
use kv_store_project.Raft.Client.{next_of}
use kv_store_project.Raft.Heartbeat.{heartbeat_message, response_of, exchange}
use kv_store_project.Raft.Cluster.{Delivery, deliver}
use kv_store_project.Raft.Rpc.Library.{Library, IsLawful}
use kv_store_project.Raft.Rpc.Messages.{
  Reading, throws, request_vote_json, append_entries_json, read_vote_response, read_append_response,
}
use kv_store_project.Raft.Rpc.Documents.{vote_response_json}
use kv_store_project.Raft.Rpc.Handler.{
  Surroundings, Handled, responds, silent, left_open, request_buffer, append_reply, vote_branch,
  append_branch, dispatch_rpc, handle_document, handle_node_client,
}
use kv_store_project.Raft.Rpc.Wire.{
  reply_buffer, answer_text, send_rpc, settled, read_reply, wire_vote, wire_exchange,
}
use kv_store_project.Raft.Rpc.RoundTrip.{
  read_request_vote-json, read_append_entries-json, read_vote_response-json,
  read_append_response-json, read_append_response-error,
}

module _ (L : Library) where
  -- The document can be written and fits a buffer.
  abbrev pub FitsIn : ℕ → L.Json → Type 0
  FitsIn size j = (t : Bytes) × (L.dump j ≡ some t) × (length t ≤ size)

  -- An answer fits the buffer of the caller.
  abbrev pub Arrives : Handled L → Type 0
  Arrives (responds w j) = FitsIn reply_buffer j
  Arrives (silent w) = Unit
  Arrives left_open = Unit

module _ (L : Library) (law : IsLawful L) where
  pub dump-some : (j : L.Json) (t : Bytes) → L.dump j ≡ some t → is_empty t ≡ false
  dump-some j [] e = cc (law.parse-dump j [] e, law.parse-nil)
  dump-some j (c ∷ t) e = refl

  -- A document that arrives whole is handled as such.
  handle_node_client-dump :
      (s : Surroundings) (j : L.Json) (t : Bytes) (w : World)
      → L.dump j ≡ some t
      → length t ≤ request_buffer
      → handle_node_client L s t w ≡ handle_document L s j w
  unfolding handle_node_client
  handle_node_client-dump s j t w e le =
      rw (dump-some j t e, take-all request_buffer t le, law.parse-dump j t e) refl

  at_text-append :
      (r : AppendEntriesRpc)
      → L.at_text (codes "rpc") (append_entries_json L r) ≡ some (codes "AppendEntries")
  unfolding append_entries_json Map.lookup bytes_eq
  at_text-append r = law.at_text-object (codes "rpc") (codes "AppendEntries") _ refl

  handle_document-append :
      (s : Surroundings) (r : AppendEntriesRpc) (w : World)
      → handle_document L s (append_entries_json L r) w ≡ append_reply L (append_entries s.env r w)
  unfolding handle_document dispatch_rpc append_branch bytes_eq
  handle_document-append s r w =
      rw (handle_document, at_text-append r, read_append_entries-json L law r) refl

  at_text-vote :
      (r : RequestVoteRpc)
      → L.at_text (codes "rpc") (request_vote_json L r) ≡ some (codes "RequestVote")
  unfolding request_vote_json Map.lookup bytes_eq
  at_text-vote r = law.at_text-object (codes "rpc") (codes "RequestVote") _ refl

  handle_document-vote :
      (s : Surroundings) (r : RequestVoteRpc) (w : World)
      → handle_document L s (request_vote_json L r) w
        ≡ responds (request_vote r w).0 (vote_response_json L (request_vote r w).1)
  unfolding handle_document dispatch_rpc vote_branch bytes_eq
  handle_document-vote s r w =
      rw (handle_document, at_text-vote r, read_request_vote-json L law r) refl

  -- The caller reads the document that was sent.
  pub read_reply-dump {ℓ} :
      {A : Type ℓ} (read : L.Json → Reading A) (j : L.Json) (t : Bytes)
      → L.dump j ≡ some t
      → length t ≤ reply_buffer
      → read_reply L read (take reply_buffer t) ≡ settled L (read j)
  unfolding read_reply
  read_reply-dump read j t e le =
      rw (take-all reply_buffer t le, dump-some j t e, law.parse-dump j t e) refl

  read_null : read_append_response L L.null ≡ throws
  unfolding read_append_response
  read_null = rw (law.value_int-null (codes "term") (pos 0)) refl

  -- What the leader makes of the answer of the handler
  answer_text-append :
      (w : World) (reply : AppendReply)
      → Arrives L (append_reply L (w, reply))
      → (x : Bytes) × (answer_text L (append_reply L (w, reply)) ≡ some (w, x))
        × (read_reply L (read_append_response L) x ≡ response_of reply)
  unfolding append_reply answer_text read_reply
  answer_text-append w (answers term success) (t, e, le) = (
    take reply_buffer t,
    rw e refl,
    read_reply-dump (read_append_response L) _ t e le
        ∙ rw (read_append_response-json L law term success) refl,
  )
  answer_text-append w null_reply (t, e, le) = (
    take reply_buffer t,
    rw e refl,
    read_reply-dump (read_append_response L) _ t e le ∙ rw read_null refl,
  )
  answer_text-append w blocked h = ([], refl, refl)
  answer_text-append w invalid_json (t, e, le) = (
    take reply_buffer t,
    rw e refl,
    read_reply-dump (read_append_response L) _ t e le
        ∙ rw (read_append_response-error L law (codes "Invalid JSON")) refl,
  )

  -- A heartbeat as texts is the heartbeat as records: where the message fits the buffer of the
  -- handler and its answer that of sendRPC, the leader and the peer come out as they do where the
  -- handler is given the message itself and the leader its answer.
  pub wire_exchange-exchange :
      (s : Surroundings) (env : Env) (i : ℕ) (l w : World)
      → FitsIn L request_buffer
          (append_entries_json L (heartbeat_message (next_of l.node i) l.node))
      → Arrives L
          (append_reply L (append_entries s.env (heartbeat_message (next_of l.node i) l.node) w))
      → wire_exchange L s env i l w ≡ some (exchange env s.env i l w)
  unfolding wire_exchange send_rpc exchange
  wire_exchange-exchange s env i l w (t, e, le) arrives =
      let m = heartbeat_message (next_of l.node i) l.node in
      let (w', reply) = append_entries s.env m w in
      let (x, sent, read) = answer_text-append w' reply arrives in
      rw
        (
          wire_exchange,
          send_rpc,
          e,
          handle_node_client-dump s (append_entries_json L m) t w e le,
          handle_document-append s m w,
          sent,
          read,
        )
        refl

  -- So is a request for a vote.
  pub wire_vote-deliver :
      (s : Surroundings) (r : RequestVoteRpc) (w : World)
      → FitsIn L request_buffer (request_vote_json L r)
      → FitsIn L reply_buffer (vote_response_json L (request_vote r w).1)
      → wire_vote L s r w ≡ some (deliver Delivery.answered r w)
  unfolding wire_vote send_rpc answer_text deliver
  wire_vote-deliver s r w (t, e, le) (a, e', le') =
      rw
        (
          wire_vote,
          send_rpc,
          e,
          handle_node_client-dump s (request_vote_json L r) t w e le,
          handle_document-vote s r w,
          e',
          read_reply-dump (read_vote_response L) _ a e' le',
          read_vote_response-json L law (request_vote r w).1,
        )
        refl
