-- ===== src/Raft/Install.antt =====
-- Snapshots on the wire: serializeSnapshot and the chunks of src/raft_node.cpp, deserializeSnapshot
-- and the InstallSnapshot branch of src/rpc_server.cpp. An `int` on the wire is its bit pattern;
-- that a length of the map or of a text does not fit an `int` is not modelled.
pub mod Codec
pub mod Transfer
pub mod Arrival
pub mod Samples
use kv_store_project.Prelude.{
  ℕ, zero, suc, ◌+◌, ◌-◌, ◌*◌, ◌/◌, ◌^◌, Bool, true, false, List, [], ◌∷◌, ◌++◌, Option, none, some,
  ltb, leb, ◌==◌, length, take, drop, min, replicate, if◌then◌else◌,
}
use kv_store_project.Prelude.Int.{ℤ, pos}
use kv_store_project.Prelude.Text.{Bytes, codes}
use kv_store_project.Prelude.Map
use kv_store_project.Prelude.Map.{Map}
use kv_store_project.Prelude.Words.{le_bytes, le_value}
use kv_store_project.Base64.{base64_encode, base64_decode}
use kv_store_project.KvStore.{load_from_map}
use kv_store_project.Raft.State.{Node, World, Snapshot}
use kv_store_project.Raft.Persist.{persist_metadata, save_snapshot}
use kv_store_project.Raft.Role.{become_follower}

-- One pair of the map: each text behind its length
unfoldable pub pair_bytes : Bytes × Bytes → Bytes
pair_bytes (k, v) = le_bytes 4 (length k) ++ (k ++ (le_bytes 4 (length v) ++ v))

unfoldable pub pairs_bytes : Map Bytes → Bytes
pairs_bytes [] = []
pairs_bytes (p ∷ m) = pair_bytes p ++ pairs_bytes m

-- serializeSnapshot
unfoldable pub serialize_snapshot : Snapshot → Bytes
serialize_snapshot snap =
    le_bytes 4 snap.last_included_index
    ++ (le_bytes 4 snap.last_included_term
        ++ (le_bytes 4 (length snap.kv_state) ++ pairs_bytes snap.kv_state))

-- A stream: what is left, and whether no read has come short.
pub record Input : Type 0 where
  pub rest : Bytes
  pub good : Bool

-- iss.read into an array that holds `old`: what a short read finds overwrites the front of it, and
-- a stream that has failed reads nothing.
unfoldable pub read_over : Bytes → Input → Bytes × Input
read_over old is =
    if is.good
    then (
      take (length old) is.rest ++ drop (length is.rest) old,
      record { rest = drop (length old) is.rest; good = leb (length old) (length is.rest) },
    )
    else (old, is)

-- iss.read into an `int` that holds `old`
unfoldable pub read_int : ℕ → Input → ℕ × Input
read_int old is = let (bytes, is) = read_over (le_bytes 4 old) is in (le_value bytes, is)

-- A text behind its length: `none` where the length is negative and std::string throws.
unfoldable pub read_text : Input → Option (Bytes × Input)
read_text is =
    let (len, is) = read_int 0 is in
    if ltb len (2 ^ 31) then some (read_over (replicate len 0) is) else none

-- The loop over `size` pairs
unfoldable pub read_pairs : ℕ → Map Bytes → Input → Option (Map Bytes)
read_pairs zero m is = some m
read_pairs (suc size) m is = elim (read_text is) [
  | none ↦ none
  | some (key, is1) ↦ elim (read_text is1) [
    | none ↦ none
    | some (value, is2) ↦ read_pairs size (Map.insert key value m) is2
  ]
]

-- deserializeSnapshot. `old` is what stands in the two fields before they are read; a negative
-- number of pairs is none.
unfoldable pub deserialize_snapshot : Snapshot → Bytes → Option Snapshot
deserialize_snapshot old buffer =
    let (index, is1) = read_int old.last_included_index (record { rest = buffer; good = true }) in
    let (term, is2) = read_int old.last_included_term is1 in
    let (size, is3) = read_int 0 is2 in
    elim (read_pairs (if ltb size (2 ^ 31) then size else 0) [] is3) [
      | none ↦ none
      | some m ↦
          some (record { last_included_index = index; last_included_term = term; kv_state = m })
    ]

-- The members of the message that the handler uses
pub record InstallSnapshotRpc : Type 0 where
  pub term : ℕ
  pub leader_id : ℤ
  pub offset : ℕ
  pub chunk_base64 : Bytes
  pub done : Bool

pub record InstallSnapshotReply : Type 0 where
  pub term : ℕ
  pub success : Bool
  pub error : Bytes

-- `resize` where the chunk reaches behind the end, and the copy of the chunk
unfoldable pub write_at : ℕ → Bytes → Bytes → Bytes
write_at offset chunk buffer =
    take offset (buffer ++ replicate (offset - length buffer) 0)
    ++ (chunk ++ drop (offset + length chunk) buffer)

abbrev pub put_buffer : Bytes → World → World
put_buffer buffer w = record w { node = record w.node { snapshot_buffer = buffer } }

-- The lines under `if (done)` that follow the deserialization
unfoldable pub install : Snapshot → World → World
unfolding save_snapshot persist_metadata load_from_map
install snap w =
    let w1 = save_snapshot snap w in
    put_buffer [] (
      persist_metadata (record w1 {
        store = load_from_map snap.kv_state w1.store;
        node = record w1.node {
          last_applied = snap.last_included_index;
          commit_index = pos snap.last_included_index;
          log = [];
          latest_snapshot = some snap;
        };
      }))

-- The inner `try`: the chunk is written, and the last one installs the snapshot.
unfoldable pub take_chunk : Snapshot → InstallSnapshotRpc → World → World × InstallSnapshotReply
unfolding write_at
take_chunk old r w =
    let chunk = base64_decode r.chunk_base64 in
    let buffer = write_at r.offset chunk w.node.snapshot_buffer in
    let accepted : InstallSnapshotReply = record {
      term = w.node.current_term;
      success = true;
      error = [];
    } in
    if r.done
    then elim (deserialize_snapshot old buffer) [
      | none ↦ (
        put_buffer buffer w,
        record { term = w.node.current_term; success = false; error = codes "processing_failed" },
      )
      | some snap ↦ (install snap (put_buffer buffer w), accepted)
    ]
    else (put_buffer buffer w, accepted)

-- A term that is newer is taken over, and the first chunk clears the buffer.
unfoldable pub receive_term : InstallSnapshotRpc → World → World
unfolding become_follower
receive_term r w =
    let w1 = if ltb w.node.current_term r.term then become_follower r.term w else w in
    if r.offset == 0 then put_buffer [] w1 else w1

abbrev pub count_install : World → World
count_install w = record w {
  node = record w.node {
    metrics = record w.node.metrics {
      install_snapshots_received = w.node.metrics.install_snapshots_received + 1;
    };
  };
}

unfoldable pub install_snapshot :
    Snapshot → InstallSnapshotRpc → World → World × InstallSnapshotReply
install_snapshot old r w =
    let w0 = count_install w in
    if ltb r.term w0.node.current_term
    then (w0, record { term = w0.node.current_term; success = false; error = codes "stale_term" })
    else take_chunk old r (receive_term r w0)

-- The message for chunk `num` of `bytes`, in chunks of `size`
unfoldable pub chunk_message : ℕ → ℕ → ℕ → Bytes → ℕ → InstallSnapshotRpc
chunk_message term id size bytes num =
    let offset = num * size in
    let end = min (offset + size) (length bytes) in
    record {
      term = term;
      leader_id = pos id;
      offset = offset;
      chunk_base64 = base64_encode (take (end - offset) (drop offset bytes));
      done = end == length bytes;
    }

-- `(snapBytes.size() + chunkSize - 1) / chunkSize`
abbrev pub chunk_count : ℕ → Bytes → ℕ
chunk_count size bytes = (length bytes + size - 1) / size

-- `left` chunks from `num` on, one after another, as a receiver takes them
unfoldable pub receive_chunks : Snapshot → ℕ → ℕ → ℕ → Bytes → ℕ → ℕ → World → World
receive_chunks old term id size bytes zero num w = w
receive_chunks old term id size bytes (suc left) num w =
    receive_chunks old term id size bytes left (num + 1)
      (install_snapshot old (chunk_message term id size bytes num) w).0
