-- ===== src/Raft/Install/Transfer.antt =====
-- One chunk of a snapshot: the receiver writes it behind what it has.
use kv_store_project.Prelude.{
  drop-past, ℕ, zero, suc, ◌+◌, ◌-◌, ◌≤◌, ◌<◌, ◌≡◌, ◌⊎◌, inr, refl, sym, ap, ◌∙◌, true, false, [],
  ◌∷◌, ◌++◌, append-nil, some, length, length-take, take, take-all, drop, All, arith,
}
use kv_store_project.Prelude.Text.{Bytes}
use kv_store_project.Base64.{base64_encode, base64_decode}
use kv_store_project.Base64.RoundTrip.{base64_decode-base64_encode}
use kv_store_project.Raft.State.{World, Snapshot}
use kv_store_project.Raft.Install.{
  InstallSnapshotRpc, InstallSnapshotReply, deserialize_snapshot, write_at, install, take_chunk,
  receive_term, count_install, install_snapshot, put_buffer,
}

take-nil : (n : ℕ) → take {A = ℕ} n [] ≡ []
take-nil zero = refl
take-nil (suc n) = refl

take-sum :
    (o c n : ℕ) (bytes : Bytes) → n ≡ o + c → take n bytes ≡ take o bytes ++ take c (drop o bytes)
take-sum zero c n bytes e = let same : n ≡ c = omega arith in ap (λ k. take k bytes) same
take-sum (suc o) c zero bytes e = absurd (omega arith)
take-sum (suc o) c (suc n) [] e = sym (take-nil c)
take-sum (suc o) c (suc n) (b ∷ bytes) e = ap (λ s. b ∷ s) (take-sum o c n bytes (omega arith))

-- A chunk that is written where the buffer ends goes on with the bytes.
write_at-take :
    (o c : ℕ) (bytes : Bytes)
    → o ≤ length bytes
    → write_at o (take c (drop o bytes)) (take o bytes) ≡ take (o + c) bytes
unfolding write_at
write_at-take o c bytes h =
    let size : length (take o bytes) ≡ o = omega (arith, length-take o bytes) in
    let none_left : o - length (take o bytes) ≡ 0 = omega (arith, size) in
    let over =
      drop-past (o + length (take c (drop o bytes))) (take o bytes) (omega (arith, size)) in
    let all = take-all o (take o bytes) (omega (arith, size)) in
    rw (none_left, over, append-nil, append-nil, all) (sym (take-sum o c (o + c) bytes refl))

-- The receiver takes messages of `term`, and its buffer holds what stands before `offset`.
pub record Ready (term offset : ℕ) (bytes : Bytes) (w : World) : Type 0 where
  pub current_term : w.node.current_term ≤ term
  pub buffer : (offset ≡ 0) ⊎ (w.node.snapshot_buffer ≡ take offset bytes)

take-zero : (n : ℕ) (bytes : Bytes) → n ≡ 0 → take n bytes ≡ []
take-zero n bytes e = rw e

receive_term-Ready :
    (r : InstallSnapshotRpc) (bytes : Bytes) (w : World)
    → Ready r.term r.offset bytes w
    → ((receive_term r w).node.snapshot_buffer ≡ take r.offset bytes)
      × ((receive_term r w).node.current_term ≤ r.term)
unfolding receive_term
receive_term-Ready r bytes w h = ground (arith, h.current_term, h.buffer, take-zero r.offset bytes)

module _ (old : Snapshot) (r : InstallSnapshotRpc) (v : World) where
  buffer_of : Bytes
  buffer_of = write_at r.offset (base64_decode r.chunk_base64) v.node.snapshot_buffer

  take_chunk-more : r.done ≡ false → (take_chunk old r v).0 ≡ put_buffer buffer_of v
  unfolding take_chunk buffer_of
  take_chunk-more h = ground arith

  take_chunk-done :
      (snap : Snapshot)
      → r.done ≡ true
      → deserialize_snapshot old buffer_of ≡ some snap
      → (take_chunk old r v).0 ≡ install snap (put_buffer buffer_of v)
  unfolding take_chunk buffer_of
  take_chunk-done snap h e = simp (h, e)

-- A message with a chunk of the bytes, at a node that is ready for it
module _ (old : Snapshot) (r : InstallSnapshotRpc) (bytes : Bytes) (c : ℕ) (w : World)
    (ready : Ready r.term r.offset bytes w) (inside : r.offset ≤ length bytes)
    (octets : All (λ b. b < 256) (take c (drop r.offset bytes)))
    (payload : r.chunk_base64 ≡ base64_encode (take c (drop r.offset bytes))) where
  counted : Ready r.term r.offset bytes (count_install w)
  counted = record { current_term = ready.current_term; buffer = ready.buffer }

  written :
      write_at r.offset
        (base64_decode r.chunk_base64)
        (receive_term r (count_install w)).node.snapshot_buffer
      ≡ take (r.offset + c) bytes
  unfolding write_at receive_term
  written =
      rw
        (
          payload,
          base64_decode-base64_encode (take c (drop r.offset bytes)) octets,
          (receive_term-Ready r bytes (count_install w) counted).0,
        )
        (write_at-take r.offset c bytes inside)

  taken : install_snapshot old r w ≡ take_chunk old r (receive_term r (count_install w))
  unfolding install_snapshot
  taken = ground (arith, ready.current_term)

  -- Not the last chunk
  pub install_snapshot-more :
      r.done ≡ false → Ready r.term (r.offset + c) bytes (install_snapshot old r w).0
  unfolding buffer_of
  install_snapshot-more more =
      let v = receive_term r (count_install w) in
      let held = receive_term-Ready r bytes (count_install w) counted in
      let step =
        ap (λ (p : World × InstallSnapshotReply). p.0) taken ∙ take_chunk-more old r v more in
      rw step (record { current_term = held.1; buffer = inr written })

  -- The last one
  pub install_snapshot-done :
      (snap : Snapshot)
      → r.done ≡ true
      → deserialize_snapshot old (take (r.offset + c) bytes) ≡ some snap
      → (v : World) × ((install_snapshot old r w).0 ≡ install snap v)
  unfolding buffer_of
  install_snapshot-done snap last e =
      let v = receive_term r (count_install w) in
      (
        put_buffer (buffer_of old r v) v,
        ap (λ (p : World × InstallSnapshotReply). p.0) taken
            ∙ take_chunk-done old r v snap last (ap (deserialize_snapshot old) written ∙ e),
      )

  -- Either way the sender is told so.
  pub install_snapshot-accepted :
      (snap : Snapshot)
      → deserialize_snapshot old (take (r.offset + c) bytes) ≡ some snap
      → (install_snapshot old r w).1.success ≡ true
  unfolding buffer_of take_chunk
  install_snapshot-accepted snap e =
      let v = receive_term r (count_install w) in
      rw taken (ground (arith, ap (deserialize_snapshot old) written ∙ e))

  pub install_snapshot-more_accepted : r.done ≡ false → (install_snapshot old r w).1.success ≡ true
  unfolding take_chunk
  install_snapshot-more_accepted more = rw taken (ground arith)
