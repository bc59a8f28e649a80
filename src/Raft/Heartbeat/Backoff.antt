-- ===== src/Raft/Heartbeat/Backoff.antt =====
-- A peer that refuses is asked again from one entry earlier, until it accepts.
use kv_store_project.Prelude.{
  ℕ, zero, suc, ◌≤◌, ◌<◌, ◌≡◌, refl, ◌∙◌, true, arith, length, Bool-cases, inl, inr,
}
use kv_store_project.Raft.State.{World, Env}
use kv_store_project.Raft.Append.{answers, is_consistent, append_entries}
use kv_store_project.Raft.Client.{next_of}
use kv_store_project.Raft.Heartbeat.{heartbeat_message, exchange}
use kv_store_project.Raft.Heartbeat.Refusal.{Sends, Listens, passes, answered, refused}

-- `k` turns with the same peer
abbrev pub exchanges : ℕ → Env → Env → ℕ → World × World → World × World
exchanges zero env env' i s = s
exchanges (suc k) env env' i s = exchanges k env env' i (exchange env env' i s.0 s.1)

-- The peer answers the next heartbeat with success.
abbrev pub Accepts : Env → ℕ → ℕ → World × World → Type 0
Accepts env' i t s =
    (append_entries env' (heartbeat_message (next_of s.0.node i) s.0.node) s.1).1 ≡ answers t true

-- Nothing stands before the first entry, so that the check passes there.
passes-zero : (l w : World) → passes 0 l w ≡ true
unfolding is_consistent
passes-zero l w = refl

-- A follower without more in its way is brought to accept: after at most as many refusals as its
-- next index counts, a heartbeat is answered with success, and the follower's log is as it was. The
-- leader has no snapshot; both are in term `t`, the follower is no candidate, receives no snapshot,
-- and has room for twenty more entries below the threshold for one. Nothing is lost on the way.
pub exchanges-Accepts :
    (env env' : Env) (i t n : ℕ) (l w : World)
    → Sends t l
    → Listens t w
    → i < length l.node.next_index
    → next_of l.node i ≡ n
    → (k : ℕ) × (k ≤ n)
      × Accepts env' i t (exchanges k env env' i (l, w))
      × ((exchanges k env env' i (l, w)).1.node.log ≡ w.node.log)
exchanges-Accepts env env' i t zero l w s h inside e =
    let ok : passes (next_of l.node i) l w ≡ true = rw e (passes-zero l w) in
    (0, omega arith, answered env env' i t l w s h ok, refl)
exchanges-Accepts env env' i t (suc n) l w s h inside e =
    elim (Bool-cases (passes (next_of l.node i) l w)) [
      | inl ok ↦ (0, omega arith, answered env env' i t l w s h ok, refl)
      | inr no_match ↦
          let (l', w') = exchange env env' i l w in
          let (sends, listens, lower, size, log) = refused env env' i t l w s h no_match inside in
          let (k, le, accepts, kept) =
            exchanges-Accepts env env' i t n l' w' sends listens (omega (arith, inside, size))
              (omega (arith, lower, e)) in
          (suc k, omega (arith, le), accepts, kept ∙ log)
    ]
