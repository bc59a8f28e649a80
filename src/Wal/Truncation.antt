-- ===== src/Wal/Truncation.antt =====
-- What truncateUpTo keeps, in memory and on disk.
use kv_store_project.Prelude.{
  ℕ, ◌≤◌, ◌<◌, ◌≡◌, refl, true, List, [], ◌∷◌, ◌++◌, some, All, arith, ltb, Bool-cases, inl, inr,
}
use kv_store_project.Prelude.Int.{ℤ}
use kv_store_project.LogEntry.{LogEntry}
use kv_store_project.LogEntry.RoundTrip.{IsEncodable}
use kv_store_project.Wal.{
  Wal, open_wal, keep_after, to_uint64, to_file, truncate_up_to, last_index_of,
}
use kv_store_project.Wal.Recovery.{IsSynced, open_wal-IsSynced}

All-keep_after {κ} :
    (P : LogEntry → Type κ) (i : ℕ) (es : List LogEntry) → All P es → All P (keep_after i es)
unfolding keep_after
All-keep_after P i [] h = h
All-keep_after P i (e ∷ es) h = elim (Bool-cases (ltb i e.index)) [
  | inl t ↦ rw (t, keep_after) (h.0, All-keep_after P i es h.1)
  | inr t ↦ rw (t, keep_after) (All-keep_after P i es h.1)
]

keep_after-All : (i : ℕ) (es : List LogEntry) → All (λ e. i < e.index) es → keep_after i es ≡ es
unfolding keep_after
keep_after-All i [] h = refl
keep_after-All i (e ∷ es) h = ground (arith, keep_after-All i es h.1)

keep_after-append :
    (i : ℕ) (front back : List LogEntry)
    → All (λ e. e.index ≤ i) front
    → All (λ e. i < e.index) back
    → keep_after i (front ++ back) ≡ back
unfolding keep_after
keep_after-append i [] back h k = keep_after-All i back k
keep_after-append i (e ∷ front) back h k = ground (arith, keep_after-append i front back h.1 k)

truncate_up_to-IsSynced :
    (w w' : Wal) (i : ℤ) → IsSynced w → truncate_up_to true i w ≡ some w' → IsSynced w'
unfolding truncate_up_to
truncate_up_to-IsSynced w w' i s h = record {
  on_disk = ground arith;
  encodable =
      let e : w'.cached_entries ≡ keep_after (to_uint64 i) w.cached_entries = ground arith in
      rw e (All-keep_after IsEncodable (to_uint64 i) w.cached_entries s.encodable);
  counter = ground arith;
}

-- Where the entries of a log in step with its file are `front` up to the index and `back` above it,
-- truncation keeps `back`, and the rewritten file, which could be opened, opens as the truncated
-- log.
pub truncate_up_to_cut :
    (w : Wal) (i : ℤ) (front back : List LogEntry)
    → IsSynced w
    → w.cached_entries ≡ front ++ back
    → All (λ e. e.index ≤ to_uint64 i) front
    → All (λ e. to_uint64 i < e.index) back
    → (w' : Wal) × (truncate_up_to true i w ≡ some w')
      × (w'.cached_entries ≡ back)
      × (open_wal w'.file ≡ w')
truncate_up_to_cut w i front back s e below above =
    let entries : keep_after (to_uint64 i) w.cached_entries ≡ back =
      rw e (keep_after-append (to_uint64 i) front back below above) in
    let w' : Wal = record {
      file = some (to_file (keep_after (to_uint64 i) w.cached_entries));
      cached_entries = keep_after (to_uint64 i) w.cached_entries;
      last_index = last_index_of 0 (keep_after (to_uint64 i) w.cached_entries);
    } in
    let result : truncate_up_to true i w ≡ some w' = unfold truncate_up_to in refl in
    (w', result, entries, open_wal-IsSynced w' (truncate_up_to-IsSynced w w' i s result))
