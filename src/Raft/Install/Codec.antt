-- ===== src/Raft/Install/Codec.antt =====
-- A snapshot that was serialized is read back.
use kv_store_project.Prelude.{
  drop-past, ℕ, zero, suc, ◌^◌, ◌<◌, ◌≡◌, refl, sym, ap, ◌∙◌, true, [], ◌∷◌, ◌++◌, append-nil,
  append_assoc, some, ltb, leb, length, length-append, drop, take-append_length, drop-append_length,
  replicate, All, arith, if◌then◌else◌,
}
use kv_store_project.Prelude.Text.{Bytes}
use kv_store_project.Prelude.Map
use kv_store_project.Prelude.Map.{Map}
use kv_store_project.Prelude.Words.{le_bytes, length-le_bytes, le_value-le_bytes}
use kv_store_project.Raft.State.{Snapshot}
use kv_store_project.Raft.Install.{
  Input, pair_bytes, pairs_bytes, serialize_snapshot, read_over, read_int, read_text, read_pairs,
  deserialize_snapshot,
}

-- A stream in which nothing has come short
abbrev good_input : Bytes → Input
good_input s = record { rest = s; good = true }

-- As many bytes as are asked for are there.
read_over-append :
    (old xs s : Bytes)
    → length xs ≡ length old
    → read_over old (good_input (xs ++ s)) ≡ (xs, good_input s)
unfolding read_over
read_over-append old xs s e =
    let over : drop (length (xs ++ s)) old ≡ [] =
      drop-past (length (xs ++ s)) old (omega (arith, length-append xs s, e)) in
    let long : leb (length xs) (length (xs ++ s)) ≡ true = ground (arith, length-append xs s) in
    rw (sym e, long, over, take-append_length xs s, drop-append_length xs s, append-nil)

read_int-le_bytes :
    (old v : ℕ) (s : Bytes)
    → v < 2 ^ 32
    → read_int old (good_input (le_bytes 4 v ++ s)) ≡ (v, good_input s)
unfolding read_int
read_int-le_bytes old v s h = rw (
  read_over-append (le_bytes 4 old) (le_bytes 4 v) s
      (length-le_bytes 4 v ∙ sym (length-le_bytes 4 old)),
  le_value-le_bytes 4 v (omega arith),
)

length-zeros : (n : ℕ) → length {A = ℕ} (replicate n 0) ≡ n
length-zeros zero = refl
length-zeros (suc n) = ap suc (length-zeros n)

read_text-append :
    (t s : Bytes)
    → length t < 2 ^ 31
    → read_text (good_input (le_bytes 4 (length t) ++ (t ++ s))) ≡ some (t, good_input s)
unfolding read_text
read_text-append t s h =
    let fits : ltb (length t) (2 ^ 31) ≡ true = ground arith in
    rw (
      read_int-le_bytes 0 (length t) (t ++ s) (omega arith),
      fits,
      read_over-append (replicate (length t) 0) t s (sym (length-zeros (length t))),
    )

-- The texts of a map fit an `int` each.
abbrev pub FitsInt : Bytes × Bytes → Type 0
FitsInt (k, v) = (length k < 2 ^ 31) × (length v < 2 ^ 31)

read_pairs_step :
    (n : ℕ) (m : Map Bytes) (is is1 is2 : Input) (k v : Bytes)
    → read_text is ≡ some (k, is1)
    → read_text is1 ≡ some (v, is2)
    → read_pairs (suc n) m is ≡ read_pairs n (Map.insert k v m) is2
unfolding read_pairs
read_pairs_step n m is is1 is2 k v e f = rw (e, read_pairs, f)

read_pairs-pairs_bytes :
    (m acc : Map Bytes) (s : Bytes)
    → All FitsInt m
    → read_pairs (length m) acc (good_input (pairs_bytes m ++ s)) ≡ some (Map.insert_all acc m)
unfolding read_pairs pairs_bytes pair_bytes Map.insert_all
read_pairs-pairs_bytes [] acc s h = refl
read_pairs-pairs_bytes ((k, v) ∷ m) acc s h =
    let rest : Bytes = pairs_bytes m ++ s in
    let flat : pairs_bytes ((k, v) ∷ m) ++ s
        ≡ le_bytes 4 (length k) ++ (k ++ (le_bytes 4 (length v) ++ (v ++ rest))) =
      append_assoc (pair_bytes (k, v)) (pairs_bytes m) s
      ∙ append_assoc (le_bytes 4 (length k)) _ rest
      ∙ ap (λ (t : Bytes). le_bytes 4 (length k) ++ t)
          (append_assoc k _ rest
            ∙ ap (λ (t : Bytes). k ++ t) (append_assoc (le_bytes 4 (length v)) v rest)) in
    ap (λ (t : Bytes). read_pairs (suc (length m)) acc (good_input t)) flat
    ∙ read_pairs_step (length m) acc (good_input _) _ _ k v
        (read_text-append k (le_bytes 4 (length v) ++ (v ++ rest)) h.0.0)
        (read_text-append v rest h.0.1)
    ∙ read_pairs-pairs_bytes m (Map.insert k v acc) s h.1

-- What a snapshot must fit: its numbers and lengths are those of an `int`, and its map has no key
-- twice.
pub record FitsWire (snap : Snapshot) : Type 0 where
  pub index : snap.last_included_index < 2 ^ 31
  pub term : snap.last_included_term < 2 ^ 31
  pub size : length snap.kv_state < 2 ^ 31
  pub texts : All FitsInt snap.kv_state
  pub keys : Map.IsDistinct snap.kv_state

deserialize_step :
    (old : Snapshot) (i t n : ℕ) (s : Bytes) (is1 is2 is3 : Input) (m : Map Bytes)
    → read_int old.last_included_index (good_input s) ≡ (i, is1)
    → read_int old.last_included_term is1 ≡ (t, is2)
    → read_int 0 is2 ≡ (n, is3)
    → read_pairs (if ltb n (2 ^ 31) then n else 0) [] is3 ≡ some m
    → deserialize_snapshot old s
      ≡ some (record { last_included_index = i; last_included_term = t; kv_state = m })
unfolding deserialize_snapshot
deserialize_step old i t n s is1 is2 is3 m a b c d =
    rw (deserialize_snapshot, a, b, c, d) (rw (a, b))

-- Reading the bytes of a snapshot gives the snapshot, its map pair by pair, whatever the variable
-- held before. Its numbers and lengths fit an `int`, and its map has no key twice.
pub deserialize_snapshot-serialize_snapshot :
    (old snap : Snapshot)
    → FitsWire snap
    → deserialize_snapshot old (serialize_snapshot snap) ≡ some snap
unfolding deserialize_snapshot serialize_snapshot
deserialize_snapshot-serialize_snapshot old snap f =
    let fits : ltb (length snap.kv_state) (2 ^ 31) ≡ true = ground (arith, f.size) in
    let pairs : read_pairs (length snap.kv_state) [] (good_input (pairs_bytes snap.kv_state))
        ≡ some snap.kv_state =
      rw (append-nil, Map.insert_all-nil snap.kv_state f.keys) at
        (read_pairs-pairs_bytes snap.kv_state [] [] f.texts) in
    deserialize_step old snap.last_included_index snap.last_included_term (length snap.kv_state)
      (serialize_snapshot snap) _ _ (good_input (pairs_bytes snap.kv_state)) snap.kv_state
      (read_int-le_bytes old.last_included_index snap.last_included_index _
        (omega (arith, f.index)))
      (read_int-le_bytes old.last_included_term snap.last_included_term _ (omega (arith, f.term)))
      (read_int-le_bytes 0 (length snap.kv_state) _ (omega (arith, f.size))) (rw fits pairs)
