-- ===== src/Raft/Rpc/Overflow.antt =====
-- A message that is longer than the buffer of the handler.
use kv_store_project.Prelude.{
  ℕ, ◌-◌, ◌≡◌, ◌<◌, refl, false, none, some, arith, ltb, take, length, get_elem?-set_self,
}
use kv_store_project.Prelude.Text.{Bytes, codes}
use kv_store_project.Raft.State.{World, Env}
use kv_store_project.Raft.Client.{next_of}
use kv_store_project.Raft.Heartbeat.{heartbeat_message, beat_peer, needed_snapshot}
use kv_store_project.Raft.Rpc.Library.{Library, IsLawful}
use kv_store_project.Raft.Rpc.Messages.{append_entries_json, read_append_response}
use kv_store_project.Raft.Rpc.Documents.{error_json}
use kv_store_project.Raft.Rpc.Handler.{Surroundings, invalid, request_buffer, handle_node_client}
use kv_store_project.Raft.Rpc.Wire.{reply_buffer, send_rpc, wire_exchange, answer_text}
use kv_store_project.Raft.Rpc.Exchange.{FitsIn, dump-some, read_reply-dump}
use kv_store_project.Raft.Rpc.RoundTrip.{read_append_response-error}

module _ (L : Library) (law : IsLawful L) where
  handle_node_client-cut :
      (s : Surroundings) (j : L.Json) (t : Bytes) (w : World)
      → L.dump j ≡ some t
      → L.parse (take request_buffer t) ≡ none
      → handle_node_client L s t w ≡ invalid L w
  unfolding handle_node_client
  handle_node_client-cut s j t w e cut = rw (dump-some L law j t e, cut) refl

  -- The leader takes the error for a refusal.
  beat_peer-refusal :
      (env : Env) (i : ℕ) (l : World)
      → l.node.latest_snapshot ≡ none
      → i < length l.node.next_index
      → next_of
          (beat_peer env i (some (record { term = 0; success = false })) (λ k. none) l).0.node
          i
        ≡ next_of l.node i - 1
  unfolding beat_peer
  beat_peer-refusal env i l bare inside =
      let need : needed_snapshot (next_of l.node i) l.node.latest_snapshot ≡ none = rw bare in
      let calm : ltb l.node.current_term 0 ≡ false = ground arith in
      rw (need, beat_peer, calm)
        (rw (get_elem?-set_self i (next_of l.node i - 1) l.node.next_index inside, next_of))

  -- A heartbeat whose text is longer than the buffer of the handler, so that what arrives is no
  -- document, leaves the peer as it is: the peer answers with an error, which the leader without a
  -- snapshot takes for a refusal of the entry before the batch, and the next index of the peer goes
  -- down by one instead of up.
  pub wire_exchange_too_long :
      (s : Surroundings) (env : Env) (i : ℕ) (l w : World) (t : Bytes)
      → l.node.latest_snapshot ≡ none
      → i < length l.node.next_index
      → L.dump (append_entries_json L (heartbeat_message (next_of l.node i) l.node)) ≡ some t
      → L.parse (take request_buffer t) ≡ none
      → FitsIn L reply_buffer (error_json L (codes "Invalid JSON"))
      → (l' : World) × (wire_exchange L s env i l w ≡ some (l', w))
        × (next_of l'.node i ≡ next_of l.node i - 1)
  unfolding wire_exchange send_rpc answer_text
  wire_exchange_too_long s env i l w t bare inside e cut (a, e', le) =
      let m = append_entries_json L (heartbeat_message (next_of l.node i) l.node) in
      (
        (beat_peer env i (some (record { term = 0; success = false })) (λ k. none) l).0,
        rw
            (
              wire_exchange,
              send_rpc,
              e,
              handle_node_client-cut s m t w e cut,
              e',
              read_reply-dump L law (read_append_response L) _ a e' le,
              read_append_response-error L law (codes "Invalid JSON"),
            )
            refl,
        beat_peer-refusal env i l bare inside,
      )
