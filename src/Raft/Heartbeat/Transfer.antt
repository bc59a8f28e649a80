-- ===== src/Raft/Heartbeat/Transfer.antt =====
-- A snapshot on its way from a leader to a peer that answers: both ends.
use kv_store_project.Prelude.{
  ℕ, zero, suc, ◌+◌, ◌*◌, ◌≤◌, ◌<◌, ◌≡◌, refl, ap, inl, Bool, true, false, Option, some, All, arith,
  length, set, get_elem?, get_elem?-set_self, if◌then◌else◌,
}
use kv_store_project.Prelude.Int.{pos}
use kv_store_project.Prelude.Text.{Bytes}
use kv_store_project.Raft.State.{World, Snapshot}
use kv_store_project.Raft.Client.{next_of}
use kv_store_project.Raft.Install.{
  InstallSnapshotRpc, serialize_snapshot, deserialize_snapshot, install_snapshot, chunk_message,
  chunk_count,
}
use kv_store_project.Raft.Install.Codec.{FitsWire, deserialize_snapshot-serialize_snapshot}
use kv_store_project.Raft.Install.Transfer.{Ready}
use kv_store_project.Raft.Install.Arrival.{
  IsInstalled, receive_last, receive_more, receive_accepted, some_bytes, chunk_count-bounds,
}
use kv_store_project.Raft.Heartbeat.{
  chunk_size, count_chunk, advance_peer, send_chunks, send_snapshot,
}

-- The messages of the leader
abbrev pub message_at : World → Bytes → ℕ → InstallSnapshotRpc
message_at l bytes num = chunk_message l.node.current_term l.node.id chunk_size bytes num

-- The peer after the first chunks; `old` is what stands in the fields before they are read.
abbrev pub peer_after : Snapshot → World → Bytes → World → ℕ → World
peer_after old l bytes p zero = p
peer_after old l bytes p (suc num) =
    (install_snapshot old (message_at l bytes num) (peer_after old l bytes p num)).0

-- What it answers to each
abbrev pub peer_reply : Snapshot → World → Bytes → World → ℕ → Option Bool
peer_reply old l bytes p num =
    some (install_snapshot old (message_at l bytes num) (peer_after old l bytes p num)).1.success

chunk_message-last :
    (term id num : ℕ) (bytes : Bytes)
    → num * chunk_size < length bytes
    → length bytes ≤ num * chunk_size + chunk_size
    → (chunk_message term id chunk_size bytes num).done ≡ true
unfolding chunk_message
chunk_message-last term id num bytes low high = ground (arith, low, high)

chunk_message-more :
    (term id num : ℕ) (bytes : Bytes)
    → num * chunk_size + chunk_size < length bytes
    → (chunk_message term id chunk_size bytes num).done ≡ false
unfolding chunk_message
chunk_message-more term id num bytes low = ground (arith, low)

-- A round in which the chunk is accepted
send_chunks-step :
    (left num : ℕ) (replies : ℕ → Option Bool) (i : ℕ) (snap : Snapshot) (l : World)
    → replies num ≡ some true
    → send_chunks (suc left) num replies i snap l
      ≡ send_chunks left (num + 1) replies i snap (
          if (message_at l (serialize_snapshot snap) num).done
          then record (count_chunk l) {
            node = advance_peer i (snap.last_included_index + 1) (count_chunk l).node;
          }
          else count_chunk l)
unfolding send_chunks
send_chunks-step left num replies i snap l yes_reply = rw (yes_reply, send_chunks)

-- Where every chunk is accepted, the last one moves the peer's indices.
send_chunks-accepted :
    (left num : ℕ) (replies : ℕ → Option Bool) (i : ℕ) (snap : Snapshot) (l : World)
    → num * chunk_size + left * chunk_size < length (serialize_snapshot snap)
    → length (serialize_snapshot snap) ≤ num * chunk_size + suc left * chunk_size
    → ((k : ℕ) → k * chunk_size < length (serialize_snapshot snap) → replies k ≡ some true)
    → let n = (send_chunks (suc left) num replies i snap l).node in
      (n.next_index ≡ set l.node.next_index i (snap.last_included_index + 1))
      × (n.match_index ≡ set l.node.match_index i (pos snap.last_included_index))
unfolding send_chunks
send_chunks-accepted zero num replies i snap l low high all =
    let done =
      chunk_message-last l.node.current_term l.node.id num (serialize_snapshot snap)
        (omega (arith, low)) (omega (arith, high)) in
    let accepted = all num (omega (arith, low)) in
    rw (send_chunks-step 0 num replies i snap l accepted, done)
      (refl, ap (set l.node.match_index i) (ground arith))
send_chunks-accepted (suc left) num replies i snap l low high all =
    let more =
      chunk_message-more l.node.current_term l.node.id num (serialize_snapshot snap)
        (omega (arith, low)) in
    let accepted = all num (omega (arith, low)) in
    let rest =
      send_chunks-accepted left (num + 1) replies i snap (count_chunk l) (omega (arith, low))
        (omega (arith, high)) all in
    rw (send_chunks-step (suc left) num replies i snap l accepted, more) rest

module _ (old snap : Snapshot) (l p : World) (fits : FitsWire snap)
    (octets : All (λ b. b < 256) (serialize_snapshot snap))
    (current : p.node.current_term ≤ l.node.current_term) where
  read : deserialize_snapshot old (serialize_snapshot snap) ≡ some snap
  read = deserialize_snapshot-serialize_snapshot old snap fits

  ready_at :
      (num : ℕ)
      → num * chunk_size < length (serialize_snapshot snap)
      → Ready l.node.current_term
          (num * chunk_size)
          (serialize_snapshot snap)
          (peer_after old l (serialize_snapshot snap) p num)
  ready_at zero h = record { current_term = current; buffer = inl (omega arith) }
  ready_at (suc num) h =
      let next =
        receive_more old snap l.node.current_term l.node.id chunk_size (serialize_snapshot snap)
          read octets (omega arith) num (peer_after old l (serialize_snapshot snap) p num)
          (ready_at num (omega (arith, h))) (omega (arith, h)) in
      let same : suc num * chunk_size ≡ (num + 1) * chunk_size = omega arith in rw same next

-- A snapshot that the leader sends to a peer that answers every chunk, and whose term is not newer,
-- arrives: after the last chunk the peer has installed it, and the leader takes the entry behind it
-- as the peer's next one and its last entry as the one that matches. The numbers and lengths of the
-- snapshot fit an `int`, its map has no key twice, its texts are bytes, and the leader has indices
-- for the peer.
pub send_snapshot-IsInstalled :
    (old snap : Snapshot) (i : ℕ) (l p : World)
    → FitsWire snap
    → All (λ b. b < 256) (serialize_snapshot snap)
    → p.node.current_term ≤ l.node.current_term
    → i < length l.node.next_index
    → i < length l.node.match_index
    → let bytes = serialize_snapshot snap in
      let l' = send_snapshot (peer_reply old l bytes p) i snap l in
      IsInstalled snap (peer_after old l bytes p (chunk_count chunk_size bytes))
      × (next_of l'.node i ≡ snap.last_included_index + 1)
      × (get_elem? l'.node.match_index i ≡ some (pos snap.last_included_index))
unfolding send_snapshot
send_snapshot-IsInstalled old snap i l p fits octets current ni mi =
    let bytes = serialize_snapshot snap in
    let decoded = deserialize_snapshot-serialize_snapshot old snap fits in
    let ready = ready_at old snap l p fits octets current in
    let (left, count, low, high) =
      chunk_count-bounds chunk_size (chunk_count chunk_size bytes) bytes (omega arith)
        (some_bytes snap) refl in
    let installed =
      receive_last old snap l.node.current_term l.node.id chunk_size bytes decoded octets
        (omega arith) left (peer_after old l bytes p left) (ready left low) low
        (omega (arith, high)) in
    let (next, matched) =
      send_chunks-accepted left 0 (peer_reply old l bytes p) i snap l (omega (arith, low))
        (omega (arith, high))
        (λ k h. ap some (
          receive_accepted old snap l.node.current_term l.node.id chunk_size bytes decoded octets
            (omega arith) k (peer_after old l bytes p k) (ready k h) h)) in
    rw (count, next, matched, next_of)
      (
        installed,
        rw (get_elem?-set_self i (snap.last_included_index + 1) l.node.next_index ni),
        get_elem?-set_self i (pos snap.last_included_index) l.node.match_index mi,
      )
