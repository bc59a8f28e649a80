-- ===== src/Raft/Install/Samples.antt =====
-- A snapshot of two pairs that fits the wire.
use kv_store_project.Prelude.{refl, [], ◌∷◌, All, ◌<◌, arith}
use kv_store_project.Prelude.Text.{codes, bytes_eq}
use kv_store_project.Prelude.Map
use kv_store_project.Prelude.Words.{le_bytes}
use kv_store_project.Raft.State.{Snapshot}
use kv_store_project.Raft.Install.{serialize_snapshot, pairs_bytes, pair_bytes}
use kv_store_project.Raft.Install.Codec.{FitsWire}

abbrev pub blank : Snapshot
blank = record { last_included_index = 77; last_included_term = 0; kv_state = [] }

abbrev pub snapshot : Snapshot
snapshot = record {
  last_included_index = 300;
  last_included_term = 4;
  kv_state = (codes "a", codes "1") ∷ (codes "key", codes "some value") ∷ [];
}

pub snapshot-FitsWire : FitsWire snapshot
unfolding Map.lookup bytes_eq
snapshot-FitsWire = record {
  index = omega arith;
  term = omega arith;
  size = omega arith;
  texts = ((omega arith, omega arith), ((omega arith, omega arith), tt));
  keys = (refl, (refl, tt));
}

pub octets : All (λ b. b < 256) (serialize_snapshot snapshot)
unfolding serialize_snapshot pairs_bytes pair_bytes le_bytes
octets = ground arith
