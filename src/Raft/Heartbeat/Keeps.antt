-- ===== src/Raft/Heartbeat/Keeps.antt =====
-- What a round of heartbeats does to the vote and to the file.
use kv_store_project.Prelude.{
  ℕ, zero, suc, ◌+◌, ◌≡◌, inl, inr, refl, Bool, Option, arith, Option-cases, Bool-cases, List,
  if◌then◌else◌, length, ◌&&◌, not,
}
use kv_store_project.Raft.State.{World, Env, Snapshot, RaftEntry}
use kv_store_project.Raft.Ballot.{OnDisk, Holds, Holds-refl, Holds-trans}
use kv_store_project.Raft.Install.{serialize_snapshot, chunk_message, chunk_count}
use kv_store_project.Raft.Client.{next_of, count_append, is_leader}
use kv_store_project.Raft.Heartbeat.{
  AppendEntriesResponse, send_chunks, send_snapshot, needed_snapshot, count_chunk, chunk_size,
  advance_peer, batch, note_response, beat_peer, Replies, beat_from, heartbeat_round,
}

-- The ballot and the file are those of before.
same-Holds :
    {v w : World}
    → OnDisk v
    → w.node.current_term ≡ v.node.current_term
    → w.node.voted_for ≡ v.node.voted_for
    → w.metadata_file ≡ v.metadata_file
    → Holds v w
same-Holds d term vote file = ground (arith)

send_chunks-Holds :
    (left num : ℕ) (replies : ℕ → Option Bool) (i : ℕ) (snap : Snapshot) (w : World)
    → OnDisk w
    → Holds w (send_chunks left num replies i snap w)
unfolding send_chunks
send_chunks-Holds zero num replies i snap w d = Holds-refl w d
send_chunks-Holds (suc left) num replies i snap w d =
    let w1 = count_chunk w in
    let counted : Holds w w1 = same-Holds d refl refl refl in
    let done =
      (chunk_message w.node.current_term w.node.id chunk_size (serialize_snapshot snap) num).done in
    let w2 =
      if done
      then record w1 { node = advance_peer i (snap.last_included_index + 1) w1.node }
      else w1 in
    let noted : Holds w w2 = ground (arith, counted) in
    elim (Option-cases (replies num)) [
      | inl e ↦ rw (e, send_chunks) counted
      | inr (accepted, e) ↦ elim (Bool-cases accepted) [
        | inl ok ↦
            let rest = send_chunks-Holds left (num + 1) replies i snap w2 noted.disk in
            rw (e, send_chunks, ok) (Holds-trans noted rest)
        | inr refused ↦ rw (e, send_chunks, refused) counted
      ]
    ]

note_response-Holds :
    (env : Env) (i next : ℕ) (entries : List RaftEntry) (resp : AppendEntriesResponse) (w : World)
    → OnDisk w
    → Holds w (note_response env i next entries resp w).0
unfolding note_response
note_response-Holds env i next entries resp w d = ground arith

beat_peer-Holds :
    (env : Env) (i : ℕ) (reply : Option AppendEntriesResponse) (chunks : ℕ → Option Bool)
    (w : World)
    → OnDisk w
    → Holds w (beat_peer env i reply chunks w).0
unfolding beat_peer send_snapshot
beat_peer-Holds env i reply chunks w d =
    let next = next_of w.node i in
    let counted : Holds w (count_append w) = same-Holds d refl refl refl in
    elim (Option-cases (needed_snapshot next w.node.latest_snapshot)) [
      | inr (snap, e) ↦
          let count = chunk_count chunk_size (serialize_snapshot snap) in
          rw (e, beat_peer) (send_chunks-Holds count 0 chunks i snap w d)
      | inl e ↦ elim (Option-cases reply) [
        | inl silent ↦ rw (e, beat_peer, silent) counted
        | inr (resp, answered) ↦
            let noted =
              note_response-Holds env i next (batch next w.node) resp (count_append w)
                counted.disk in
            rw (e, beat_peer, answered) (Holds-trans counted noted)
      ]
    ]

beat_from-Holds :
    (left i : ℕ) (env : Env) (replies : Replies) (w : World)
    → OnDisk w
    → Holds w (beat_from left i env replies w).0
unfolding beat_from
beat_from-Holds zero i env replies w d = Holds-refl w d
beat_from-Holds (suc left) i env replies w d =
    let one = beat_peer-Holds env i (replies.responses i) (replies.chunks i) w d in
    let (w1, returns) = beat_peer env i (replies.responses i) (replies.chunks i) w in
    let both = Holds-trans one (beat_from-Holds left (i + 1) env replies w1 one.disk) in
    elim (Bool-cases returns) [ inl e ↦ rw e one | inr e ↦ rw e both ]

-- A round of heartbeats keeps the vote, and the file holds it.
pub heartbeat_round-Holds :
    (env : Env) (replies : Replies) (w : World)
    → OnDisk w
    → Holds w (heartbeat_round env replies w).0
unfolding heartbeat_round
heartbeat_round-Holds env replies w d =
    let all = beat_from-Holds (length w.node.peer_rpc_ports) 0 env replies w d in
    elim (Bool-cases
      (w.node.running_heartbeats && is_leader w.node.state && not w.node.shutdown_requested)) [
        | inl e ↦ rw e all
        | inr e ↦ rw e (Holds-refl w d)
      ]
