-- ===== src/Raft/Install/Arrival.antt =====
-- All chunks of a snapshot in their order: the receiver installs it.
use native.Mathlib.Nat.{suc-mul, mod-lt, div-add-mod'}
use kv_store_project.Prelude.{
  ℕ, zero, suc, ◌+◌, ◌-◌, ◌*◌, ◌≤◌, ◌<◌, ◌≡◌, inl, inr, Bool-cases, true, refl, ap, ◌∙◌, [], ◌∷◌,
  some, length, length-append, take, take-all, drop, min, All, arith,
}
use kv_store_project.Prelude.Int.{pos}
use kv_store_project.Prelude.Words.{le_bytes, length-le_bytes}
use kv_store_project.Prelude.Text.{Bytes}
use kv_store_project.Raft.State.{World, Snapshot}
use kv_store_project.Raft.Install.{
  serialize_snapshot, deserialize_snapshot, install, install_snapshot, chunk_message, chunk_count,
  receive_chunks,
}
use kv_store_project.Raft.Install.Codec.{FitsWire, deserialize_snapshot-serialize_snapshot}
use kv_store_project.Raft.Install.Transfer.{
  Ready, install_snapshot-more, install_snapshot-done, install_snapshot-accepted,
  install_snapshot-more_accepted,
}

All-take {κ} : (P : ℕ → Type κ) (n : ℕ) (xs : Bytes) → All P xs → All P (take n xs)
All-take P zero xs h = tt
All-take P (suc n) [] h = tt
All-take P (suc n) (x ∷ xs) h = (h.0, All-take P n xs h.1)

All-drop {κ} : (P : ℕ → Type κ) (n : ℕ) (xs : Bytes) → All P xs → All P (drop n xs)
All-drop P zero xs h = h
All-drop P (suc n) [] h = tt
All-drop P (suc n) (x ∷ xs) h = All-drop P n xs h.1

pub next_chunk : (num size : ℕ) → (num + 1) * size ≡ num * size + size
next_chunk num size =
    let e : num + 1 ≡ suc num = omega arith in ap (λ k. k * size) e ∙ suc-mul num size

-- The node has the snapshot, in memory and on disk, and nothing before it or behind it.
pub record IsInstalled (snap : Snapshot) (w : World) : Type 0 where
  pub latest : w.node.latest_snapshot ≡ some snap
  pub on_disk : w.snapshot_file ≡ some snap
  pub mp : w.store.mp ≡ snap.kv_state
  pub applied : w.node.last_applied ≡ snap.last_included_index
  pub committed : w.node.commit_index ≡ pos snap.last_included_index
  pub log : w.node.log ≡ []
  pub buffer : w.node.snapshot_buffer ≡ []

install-IsInstalled : (snap : Snapshot) (v : World) → IsInstalled snap (install snap v)
unfolding install
install-IsInstalled snap v = record {
  latest = refl;
  on_disk = refl;
  mp = refl;
  applied = refl;
  committed = refl;
  log = refl;
  buffer = refl;
}

module _ (old snap : Snapshot) (term id size : ℕ) (bytes : Bytes)
    (read : deserialize_snapshot old bytes ≡ some snap) (octets : All (λ b. b < 256) bytes)
    (positive : 0 < size) where
  -- The size of chunk `num`
  abbrev chunk_size : ℕ → ℕ
  chunk_size num = min (num * size + size) (length bytes) - num * size

  chunk_octets : (num : ℕ) → All (λ b. b < 256) (take (chunk_size num) (drop (num * size) bytes))
  chunk_octets num = All-take _ (chunk_size num) _ (All-drop _ (num * size) bytes octets)

  pub receive_last :
      (num : ℕ) (w : World)
      → Ready term (num * size) bytes w
      → num * size < length bytes
      → length bytes ≤ num * size + size
      → IsInstalled snap (install_snapshot old (chunk_message term id size bytes num) w).0
  unfolding chunk_message
  receive_last num w ready low high =
      let end : num * size + chunk_size num ≡ length bytes = omega (arith, low, high) in
      let whole : take (num * size + chunk_size num) bytes ≡ bytes =
        take-all (num * size + chunk_size num) bytes (omega (arith, end)) in
      let (v, e) =
        install_snapshot-done old (chunk_message term id size bytes num) bytes (chunk_size num) w
          ready (omega (arith, low)) (chunk_octets num) refl snap (ground (arith, low, high))
          (ap (deserialize_snapshot old) whole ∙ read) in
      rw e (install-IsInstalled snap v)

  pub receive_more :
      (num : ℕ) (w : World)
      → Ready term (num * size) bytes w
      → num * size + size < length bytes
      → Ready term
          ((num + 1) * size)
          bytes
          (install_snapshot old (chunk_message term id size bytes num) w).0
  unfolding chunk_message
  receive_more num w ready low =
      let more =
        install_snapshot-more old (chunk_message term id size bytes num) bytes (chunk_size num) w
          ready (omega (arith, low)) (chunk_octets num) refl (ground (arith, low)) in
      let next : num * size + chunk_size num ≡ (num + 1) * size =
        omega (arith, low, next_chunk num size) in
      rw⁻¹ next more

  -- Every chunk is accepted.
  pub receive_accepted :
      (num : ℕ) (w : World)
      → Ready term (num * size) bytes w
      → num * size < length bytes
      → (install_snapshot old (chunk_message term id size bytes num) w).1.success ≡ true
  unfolding chunk_message
  receive_accepted num w ready low =
      let m = chunk_message term id size bytes num in
      elim (Bool-cases m.done) [
        | inr more ↦
            install_snapshot-more_accepted old m bytes (chunk_size num) w ready (omega (arith, low))
              (chunk_octets num) refl more
        | inl last ↦
            let whole : take (num * size + chunk_size num) bytes ≡ bytes =
              take-all (num * size + chunk_size num) bytes (ground (arith, last, low)) in
            install_snapshot-accepted old m bytes (chunk_size num) w ready (omega (arith, low))
              (chunk_octets num) refl snap (ap (deserialize_snapshot old) whole ∙ read)
      ]

  receive_rest :
      (left num : ℕ) (w : World)
      → Ready term (num * size) bytes w
      → num * size + left * size < length bytes
      → length bytes ≤ num * size + suc left * size
      → IsInstalled snap (receive_chunks old term id size bytes (suc left) num w)
  unfolding receive_chunks
  receive_rest zero num w ready low high =
      receive_last num w ready (omega (arith, low)) (omega (arith, high, suc-mul 0 size))
  receive_rest (suc left) num w ready low high =
      receive_rest left (num + 1) (install_snapshot old (chunk_message term id size bytes num) w).0
        (receive_more num w ready (omega (arith, low, suc-mul left size)))
        (omega (arith, low, suc-mul left size, next_chunk num size))
        (omega (arith, high, suc-mul (suc left) size, next_chunk num size))

pub some_bytes : (snap : Snapshot) → 0 < length (serialize_snapshot snap)
unfolding serialize_snapshot
some_bytes snap = omega (
  arith,
  length-le_bytes 4 snap.last_included_index,
  length-append (le_bytes 4 snap.last_included_index) _,
)

-- The last chunk is the one that reaches the end.
pub chunk_count-bounds :
    (size k : ℕ) (bytes : Bytes)
    → 0 < size
    → 0 < length bytes
    → chunk_count size bytes ≡ k
    → (left : ℕ) × (k ≡ suc left) × (left * size < length bytes) × (length bytes ≤ suc left * size)
chunk_count-bounds size zero bytes p q e = absurd (
    omega (
      arith,
      e,
      p,
      q,
      div-add-mod' (length bytes + size - 1) size,
      mod-lt (length bytes + size - 1) p,
      ap (λ k. k * size) e,
    ))
chunk_count-bounds size (suc left) bytes p q e =
    let whole = div-add-mod' (length bytes + size - 1) size in
    let part = mod-lt (length bytes + size - 1) p in
    let same = ap (λ k. k * size) e in
    (
      left,
      refl,
      omega (arith, whole, part, same, suc-mul left size),
      omega (arith, whole, part, same),
    )

-- A snapshot that is cut into chunks of any positive size, encoded in base64 and received in order
-- by a node whose term is not newer is installed: the node has it in memory, in its file and in its
-- store, counts its entries as applied and committed, and has an empty log and an empty buffer. The
-- numbers and lengths of the snapshot fit an `int`, its map has no key twice, and its texts are
-- bytes.
pub receive_chunks-IsInstalled :
    (old snap : Snapshot) (term id size : ℕ) (w : World)
    → FitsWire snap
    → All (λ b. b < 256) (serialize_snapshot snap)
    → 0 < size
    → w.node.current_term ≤ term
    → IsInstalled snap (
        receive_chunks old term id size
          (serialize_snapshot snap)
          (chunk_count size (serialize_snapshot snap))
          0
          w)
receive_chunks-IsInstalled old snap term id size w fits octets positive current =
    let bytes = serialize_snapshot snap in
    let (left, count, low, high) =
      chunk_count-bounds size (chunk_count size bytes) bytes positive (some_bytes snap) refl in
    rw count (
      receive_rest old snap term id size bytes
        (deserialize_snapshot-serialize_snapshot old snap fits) octets positive left 0 w
        (record { current_term = current; buffer = inl (omega arith) }) (omega (arith, low))
        (omega (arith, high)))
