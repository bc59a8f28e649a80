-- ===== src/Raft/Apply/Progress.antt =====
-- The apply loop against its description: the committed entries that are not applied yet, in
-- order, and each of them once.
use kv_store_project.Prelude.{
  ℕ, zero, suc, ◌+◌, ◌-◌, ◌≤◌, ◌<◌, ◌≡◌, sym, ap, ◌∙◌, Bool, false, List, [], ◌∷◌, Option, none,
  some, length, take, drop, min, get_elem?, get_elem?-some, drop-get_elem?, arith, leb,
  if◌then◌else◌,
}
use mathlib.Core.Path.{ap₂}
use kv_store_project.Prelude.Int.{ℤ, pos, pos_part, ◌-ℤ◌}
use kv_store_project.Prelude.Text.{Bytes}
use kv_store_project.KvStore.{KvStore}
use kv_store_project.Raft.State.{Node, World, Env, RaftEntry, Snapshot}
use kv_store_project.Raft.Log.{base_index, get_log_size, get_log_entries}
use kv_store_project.Raft.Apply.{
  run_command, apply_next, apply_loop, apply_committed, log_place, entry_at,
}

-- The store after the commands of some entries.
unfoldable pub store_after : Bool → List RaftEntry → KvStore → KvStore
store_after can_open [] s = s
store_after can_open (e ∷ es) s = store_after can_open es (run_command can_open e.command s).0

log_place-base :
    (s : Option Snapshot) (i : ℕ) → base_index s ≤ i → log_place s i ≡ pos (i - base_index s)
log_place-base none i h = ground arith
log_place-base (some snap) i h = ground arith

-- `w` with the entries up to `applied` applied and the store `s`.
abbrev pub advanced : World → ℕ → KvStore → World
advanced w applied s = record w { node = record w.node { last_applied = applied }; store = s }

-- The place of the first entry that is not applied.
abbrev place_of : World → ℕ
place_of w = w.node.last_applied + 1 - base_index w.node.latest_snapshot

module _ (env : Env) (w : World) (live : w.node.shutdown_requested ≡ false) where
  apply_next-some :
      (r : Bytes) (e : RaftEntry)
      → base_index w.node.latest_snapshot ≤ w.node.last_applied + 1
      → get_elem? w.node.log (place_of w) ≡ some e
      → (apply_next env (w, r)).0
        ≡ advanced w (w.node.last_applied + 1) (run_command env.can_open e.command w.store).0
  unfolding apply_next
  apply_next-some r e b g =
      let entry : entry_at w.node.log (log_place w.node.latest_snapshot (w.node.last_applied + 1))
          ≡ some e =
        rw (log_place-base w.node.latest_snapshot (w.node.last_applied + 1) b) g in
      ground (arith, entry, live)

-- `rounds` rounds apply the next `rounds` entries.
apply_loop-store_after :
    (rounds : ℕ) (env : Env) (w : World) (r : Bytes)
    → w.node.shutdown_requested ≡ false
    → base_index w.node.latest_snapshot ≤ w.node.last_applied + 1
    → place_of w + rounds ≤ length w.node.log
    → (apply_loop rounds env (w, r)).0
      ≡ advanced w
          (w.node.last_applied + rounds)
          (store_after env.can_open (take rounds (drop (place_of w) w.node.log)) w.store)
unfolding apply_loop store_after
apply_loop-store_after zero env w r live b room =
    let e : w.node.last_applied ≡ w.node.last_applied + 0 = omega arith in
    ap (λ (a : ℕ). advanced w a w.store) e
apply_loop-store_after (suc k) env w r live b room =
    let (e, g) = get_elem?-some (place_of w) w.node.log (omega arith) in
    let s' = (run_command env.can_open e.command w.store).0 in
    let w' = advanced w (w.node.last_applied + 1) s' in
    let next : (apply_next env (w, r)).0 ≡ w' = apply_next-some env w live r e b g in
    let moved : place_of w' ≡ place_of w + 1 = omega (arith, b) in
    let sum : w.node.last_applied + 1 + k ≡ w.node.last_applied + suc k = omega arith in
    let ih =
      apply_loop-store_after k env w' (apply_next env (w, r)).1 live (omega arith)
        (omega (arith, moved)) in
    ap (λ (v : World). (apply_loop k env (v, (apply_next env (w, r)).1)).0) next
    ∙ ih
    ∙ rw (drop-get_elem? (place_of w) w.node.log g, moved, sum)

rounds_lem : (z : ℤ) (c a : ℕ) → z ≡ pos c → a ≤ c → pos_part (z -ℤ pos a) ≡ c - a
rounds_lem z c a e h = rw e (ground arith)

slice_lem :
    (log : List RaftEntry) (start end base k : ℕ)
    → base ≤ start
    → end ≡ start + k
    → start - base + k ≤ length log
    → (if leb (min (length log) (end - base)) (start - base)
        then []
        else take (min (length log) (end - base) - (start - base)) (drop (start - base) log))
      ≡ take k (drop (start - base) log)
slice_lem log start end base zero h e r = ground arith
slice_lem log start end base (suc k) h e r = ground arith

module _ (w : World) (c : ℕ) (b : base_index w.node.latest_snapshot ≤ w.node.last_applied + 1)
    (order : w.node.last_applied ≤ c) (inside : c < get_log_size w.node) where
  place_bound : place_of w + (c - w.node.last_applied) ≤ length w.node.log
  unfolding get_log_size
  place_bound = omega (arith, b, order, inside)

  entries_to_apply :
      get_log_entries w.node (w.node.last_applied + 1) (c + 1)
      ≡ take (c - w.node.last_applied) (drop (place_of w) w.node.log)
  unfolding get_log_entries
  entries_to_apply =
      slice_lem w.node.log (w.node.last_applied + 1) (c + 1) (base_index w.node.latest_snapshot)
        (c - w.node.last_applied) b (omega (arith, order)) place_bound

-- While the node is not shutting down and the committed entries are in its log, applying what is
-- committed runs exactly the entries after the last applied one up to the commit index, in order,
-- and leaves the last applied index at the commit index; nothing else changes.
pub apply_committed_lem :
    (env : Env) (w : World) (c : ℕ)
    → w.node.shutdown_requested ≡ false
    → w.node.commit_index ≡ pos c
    → base_index w.node.latest_snapshot ≤ w.node.last_applied + 1
    → w.node.last_applied ≤ c
    → c < get_log_size w.node
    → (apply_committed env w).0
      ≡ advanced w c (
          store_after env.can_open
            (get_log_entries w.node (w.node.last_applied + 1) (c + 1))
            w.store)
unfolding apply_committed
apply_committed_lem env w c live e b order inside =
    let rounds : pos_part (w.node.commit_index -ℤ pos w.node.last_applied)
        ≡ c - w.node.last_applied =
      rounds_lem w.node.commit_index c w.node.last_applied e order in
    ap (λ (k : ℕ). (apply_loop k env (w, [])).0) rounds
    ∙ apply_loop-store_after (c - w.node.last_applied) env w [] live b
        (place_bound w c b order inside)
    ∙ ap₂ (λ (a : ℕ) (es : List RaftEntry). advanced w a (store_after env.can_open es w.store))
        (omega (arith, order)) (sym (entries_to_apply w c b order inside))

-- The entry at index 0 is never applied: a node without a snapshot that has applied nothing, with
-- `lastApplied` 0 as it starts, applies the entries from index 1 up to the commit index and skips
-- the first of its log. The node is not shutting down, and the commit index is in the log.
pub apply_committed_skips_first :
    (env : Env) (w : World) (c : ℕ) (first : RaftEntry) (others : List RaftEntry)
    → w.node.shutdown_requested ≡ false
    → w.node.latest_snapshot ≡ none
    → w.node.last_applied ≡ 0
    → w.node.log ≡ first ∷ others
    → w.node.commit_index ≡ pos c
    → c ≤ length others
    → (apply_committed env w).0.store ≡ store_after env.can_open (take c others) w.store
unfolding get_log_size
apply_committed_skips_first env w c first others live bare start log e inside =
    let base : base_index w.node.latest_snapshot ≡ 0 = rw bare in
    let size : length w.node.log ≡ length others + 1 = rw log (omega arith) in
    let low : base_index w.node.latest_snapshot ≤ w.node.last_applied + 1 = omega (arith, base) in
    let order : w.node.last_applied ≤ c = omega (arith, start) in
    let high : c < get_log_size w.node = omega (arith, base, size, inside) in
    let count : c - w.node.last_applied ≡ c = omega (arith, start) in
    let place : place_of w ≡ 1 = omega (arith, base, start) in
    let skipped : take (c - w.node.last_applied) (drop (place_of w) w.node.log) ≡ take c others =
      rw (count, place, log) in
    ap (λ (v : World). v.store) (apply_committed_lem env w c live e low order high)
    ∙ ap (λ (es : List RaftEntry). store_after env.can_open es w.store)
        (entries_to_apply w c low order high ∙ skipped)

apply_next-node :
    (env : Env) (w : World) (r : Bytes)
    → (apply_next env (w, r)).0.node ≡ record w.node { last_applied = w.node.last_applied + 1 }
unfolding apply_next
apply_next-node env w r = ground arith

-- Whatever happens to the commands, the node only counts the rounds.
pub apply_loop-node :
    (k : ℕ) (env : Env) (w : World) (r : Bytes)
    → (apply_loop k env (w, r)).0.node ≡ record w.node { last_applied = w.node.last_applied + k }
unfolding apply_loop
apply_loop-node zero env w r =
    let e : w.node.last_applied ≡ w.node.last_applied + 0 = omega arith in
    ap (λ (a : ℕ). record w.node { last_applied = a }) e
apply_loop-node (suc k) env w r =
    let a = apply_next-node env w r in
    let b = apply_loop-node k env (apply_next env (w, r)).0 (apply_next env (w, r)).1 in
    let sum : w.node.last_applied + 1 + k ≡ w.node.last_applied + suc k = omega arith in
    b
    ∙ ap (λ (n : Node). record n { last_applied = n.last_applied + k }) a
    ∙ ap (λ (i : ℕ). record w.node { last_applied = i }) sum

pub apply_committed-node :
    (env : Env) (w : World)
    → (apply_committed env w).0.node ≡ record w.node {
      last_applied =
          w.node.last_applied + pos_part (w.node.commit_index -ℤ pos w.node.last_applied);
    }
unfolding apply_committed
apply_committed-node env w = apply_loop-node _ env w []
