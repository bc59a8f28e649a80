-- ===== src/Raft/Rpc/Wire.antt =====
-- A message from one node to another through sendRPC of src/rpc_server.cpp, with the handler at the
-- other end, and what start_election and send_heartbeats of src/raft_node.cpp make of the text that
-- comes back. One recv is taken to bring all that one send has sent, as far as the buffer goes.
use kv_store_project.Prelude.{ℕ, [], Option, none, some, take, if◌then◌else◌}
use kv_store_project.Prelude.Text.{Bytes, is_empty}
use kv_store_project.Raft.State.{World, Env}
use kv_store_project.Raft.Vote.{RequestVoteRpc, RequestVoteResponse}
use kv_store_project.Raft.Client.{next_of}
use kv_store_project.Raft.Heartbeat.{heartbeat_message, beat_peer}
use kv_store_project.Raft.Rpc.Library.{Library}
use kv_store_project.Raft.Rpc.Messages.{
  Reading, reads, throws, unmodelled, request_vote_json, append_entries_json, read_vote_response,
  read_append_response,
}
use kv_store_project.Raft.Rpc.Handler.{
  Surroundings, Handled, responds, silent, left_open, handle_node_client,
}

-- `buffer` of sendRPC, less the byte behind the text
abbrev pub reply_buffer : ℕ
reply_buffer = 65535

module _ (L : Library) where
  open L use {Json, parse, dump, value_bool}

  -- The text that sendRPC returns; `none` where the handler throws, which ends the process, or the
  -- model leaves the outcome open.
  unfoldable pub answer_text : Handled L → Option (World × Bytes)
  answer_text (responds w j) = elim (dump j) [
    | none ↦ none
    | some t ↦ some (w, take reply_buffer t)
  ]
  answer_text (silent w) = some (w, [])
  answer_text left_open = none

  -- `sendRPC(..., message.dump())`
  unfoldable pub send_rpc : Surroundings → Json → World → Option (World × Bytes)
  unfolding answer_text
  send_rpc s message w = elim (dump message) [
    | none ↦ none
    | some t ↦ answer_text (handle_node_client L s t w)
  ]

  abbrev pub settled {ℓ} : {A : Type ℓ} → Reading A → Option A
  settled (reads a) = some a
  settled throws = none
  settled unmodelled = none

  -- What a caller reads in the text; an empty one and an exception are passed over.
  unfoldable pub read_reply {ℓ} : {A : Type ℓ} → (Json → Reading A) → Bytes → Option A
  read_reply read t =
      if is_empty t then none else elim (parse t) [ none ↦ none | some j ↦ settled (read j) ]

  -- A request for a vote and its answer
  unfoldable pub wire_vote :
      Surroundings → RequestVoteRpc → World → Option (World × Option RequestVoteResponse)
  unfolding send_rpc read_reply
  wire_vote s r w = elim (send_rpc s (request_vote_json L r) w) [
    | none ↦ none
    | some (w', t) ↦ some (w', read_reply (read_vote_response L) t)
  ]

  -- A heartbeat of the leader `l` to peer number `i`, whose state is `w`, and its answer
  unfoldable pub wire_exchange : Surroundings → Env → ℕ → World → World → Option (World × World)
  unfolding send_rpc read_reply
  wire_exchange s env i l w =
      elim (send_rpc s (append_entries_json L (heartbeat_message (next_of l.node i) l.node)) w) [
        | none ↦ none
        | some (w', t) ↦
            some ((beat_peer env i (read_reply (read_append_response L) t) (λ k. none) l).0, w')
      ]
