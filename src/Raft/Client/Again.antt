-- ===== src/Raft/Client/Again.antt =====
-- A client that asks again.
use mathlib.Core.Path.{subst}
use kv_store_project.Prelude.{
  ℕ, ◌+◌, ◌≡◌, ◌⊎◌, inl, inr, refl, sym, ap, ◌∙◌, Bool, true, false, List, [], ◌∷◌, Option, none,
  some, Option-cases, Bool-cases, leb, ◌==◌, length, arith, if◌then◌else◌,
}
use kv_store_project.Prelude.Int.{pos}
use kv_store_project.Prelude.Text.{Bytes, bytes_eq_refl}
use kv_store_project.Prelude.Map
use kv_store_project.Raft.State.{World, Env}
use kv_store_project.Raft.Log.{get_log_size}
use kv_store_project.Raft.Apply.{send_command, apply_committed}
use kv_store_project.Raft.Snapshots.{take_snapshot}
use kv_store_project.Raft.Append.{snapshot_threshold}
use kv_store_project.Raft.Client.{
  PeerReply, ClientResult, text, thrown, replicate_to, replicate_all, after_replication,
  commit_entry, can_commit, remember, recall, append_command, handle_client_command, is_leader,
  seen,
}

-- The answer of an outcome is in the cache.
abbrev IsCached : Bytes → World × ClientResult → Type 0
IsCached c (w, thrown) = Unit {0}
IsCached c (w, text t) = Map.lookup c w.node.client_result_cache ≡ some t

remember-IsCached :
    (c : Bytes) (id : ℕ) (t : Bytes) (w : World) → IsCached c (remember c id t w, text t)
unfolding remember
remember-IsCached c id t w =
    rw (Map.lookup-insert c c t w.node.client_result_cache, bytes_eq_refl c)

-- What holds where the answer is remembered, and where the log throws, holds after a commit.
module _ (c : Bytes) (id : ℕ) (P : World × ClientResult → Type 0)
    (kept : (t : Bytes) (w : World) → P (remember c id t w, text t))
    (threw : (w : World) → P (w, thrown)) where
  either : (b : Bool) (x y : World × ClientResult) → P x → P y → P (if b then x else y)
  either true x y hx hy = hx
  either false x y hx hy = hy

  committed : (env : Env) (ni : ℕ) (w : World) → P (commit_entry env c id ni w)
  unfolding commit_entry
  committed env ni w =
      let w1 : World = record w { node = record w.node { commit_index = pos ni } } in
      let (w2, result) = apply_committed env w1 in
      let (w3, done) = take_snapshot env w2 in
      either (leb snapshot_threshold (length w2.node.log)) _ _
        (either done _ _ (kept result w3) (threw w3)) (kept result w2)

  -- Without a commit the table of requests is as before.
  after_replication_committed :
      (env : Env) (ni : ℕ) (p : World × Option ℕ)
      → ((after_replication env c id ni p).0.node.client_last_request
          ≡ p.0.node.client_last_request)
        ⊎ P (after_replication env c id ni p)
  unfolding after_replication
  after_replication_committed env ni (w, none) = inl refl
  after_replication_committed env ni (w, some total) =
      elim (Bool-cases (can_commit ni total w.node)) [
        | inl commits ↦ inr (rw (after_replication, commits) (committed env ni w))
        | inr waits ↦ inl (rw (after_replication, waits))
      ]

recall-IsCached : (c : Bytes) (w : World) → IsCached c (recall c w)
unfolding recall
recall-IsCached c w = elim (Option-cases (Map.lookup c w.node.client_result_cache)) [
  | inl e ↦
      rw (recall, e) (rw (Map.lookup-insert c c [] w.node.client_result_cache, bytes_eq_refl c))
  | inr (t, e) ↦ rw (recall, e) e
]

replicate_to-requests :
    (i : ℕ) (reply : Option PeerReply) (ni count : ℕ) (w : World)
    → (replicate_to i reply ni count w).0.node.client_last_request ≡ w.node.client_last_request
unfolding replicate_to
replicate_to-requests i none ni count w = refl
replicate_to-requests i (some r) ni count w = ground arith

replicate_all-requests :
    (i : ℕ) (replies : List (Option PeerReply)) (ni count : ℕ) (w : World)
    → (replicate_all i replies ni count w).0.node.client_last_request ≡ w.node.client_last_request
unfolding replicate_all
replicate_all-requests i [] ni count w = refl
replicate_all-requests i (reply ∷ replies) ni count w =
    let step = replicate_to-requests i reply ni count w in
    elim (Option-cases (replicate_to i reply ni count w).1) [
      | inl over ↦ rw (replicate_all, over) step
      | inr (more, on) ↦
          rw (replicate_all, on)
            (replicate_all-requests (i + 1) replies ni more (replicate_to i reply ni count w).0
              ∙ step)
    ]

pub recall-some :
    (c t : Bytes) (w : World)
    → Map.lookup c w.node.client_result_cache ≡ some t
    → recall c w ≡ (w, text t)
unfolding recall
recall-some c t w e = rw (recall, e)

-- `seen`, of the table
abbrev seen_in : Bytes → ℕ → Map.Map ℕ → Bool
seen_in c id m = elim (Map.lookup c m) [ none ↦ false | some k ↦ k == id ]

-- The three ways into the function
module _ (env : Env) (replies : List (Option PeerReply)) (c : Bytes) (id : ℕ)
    (command key value : Bytes) (w : World) where
  abbrev outcome : World × ClientResult
  outcome = handle_client_command env replies c id command key value w

  turned_away :
      (w.node.shutdown_requested ≡ true) ⊎ (is_leader w.node.state ≡ false) → outcome.0 ≡ w
  unfolding handle_client_command
  turned_away h = ground (arith, h)

  pub recalled :
      w.node.shutdown_requested ≡ false
      → is_leader w.node.state ≡ true
      → seen c id w.node ≡ true
      → outcome ≡ recall c w
  unfolding handle_client_command
  recalled live leads known = simp (live, leads, known)

  carried_out :
      w.node.shutdown_requested ≡ false
      → is_leader w.node.state ≡ true
      → seen c id w.node ≡ false
      → outcome
        ≡ after_replication env c id (get_log_size w.node) (
            replicate_all 0 replies
              (get_log_size w.node)
              1
              (append_command (send_command command key value) w))
  unfolding handle_client_command
  carried_out live leads new = simp (live, leads, new)

  -- A request that is in the table now and was not before was committed.
  pub newly_seen :
      (P : World × ClientResult → Type 0)
      → ((t : Bytes) (v : World) → P (remember c id t v, text t))
      → ((v : World) → P (v, thrown))
      → w.node.shutdown_requested ≡ false
      → is_leader w.node.state ≡ true
      → seen c id w.node ≡ false
      → seen c id outcome.0.node ≡ true
      → P outcome
  unfolding append_command
  newly_seen P kept threw live leads new known =
      let w1 = append_command (send_command command key value) w in
      let ran = replicate_all 0 replies (get_log_size w.node) 1 w1 in
      let e = carried_out live leads new in
      elim (after_replication_committed c id P kept threw env (get_log_size w.node) ran) [
        | inr holds ↦ subst P (sym e) holds
        | inl same ↦
            let table =
              ap (λ (p : World × ClientResult). p.0.node.client_last_request) e
              ∙ same
              ∙ replicate_all-requests 0 replies (get_log_size w.node) 1 w1 in
            absurd (cc (ap (seen_in c id) table, new, known))
      ]

  outcome-IsCached :
      outcome.0.node.shutdown_requested ≡ false
      → is_leader outcome.0.node.state ≡ true
      → seen c id outcome.0.node ≡ true
      → IsCached c outcome
  outcome-IsCached live leads known = elim (Bool-cases w.node.shutdown_requested) [
    | inl off ↦
        absurd
          (cc (ap (λ (v : World). v.node.shutdown_requested) (turned_away (inl off)), off, live))
    | inr on ↦ elim (Bool-cases (is_leader w.node.state)) [
      | inr follows ↦ absurd (
          cc (
            ap (λ (v : World). is_leader v.node.state) (turned_away (inr follows)),
            follows,
            leads,
          ))
      | inl leading ↦ elim (Bool-cases (seen c id w.node)) [
        | inl before ↦ subst (IsCached c) (sym (recalled on leading before)) (recall-IsCached c w)
        | inr new ↦ newly_seen (IsCached c) (remember-IsCached c id) (λ _. tt) on leading new known
      ]
    ]
  ]

-- A request that the leader's table holds after it was handled is answered again as it was
-- answered then, whatever the peers reply, and changes nothing: it is not carried out twice. The
-- node must still be the leader and not be shutting down.
pub handle_client_command_again :
    (env env' : Env) (replies replies' : List (Option PeerReply)) (c : Bytes) (id : ℕ)
    (command key value : Bytes) (w w' : World) (t : Bytes)
    → handle_client_command env replies c id command key value w ≡ (w', text t)
    → w'.node.shutdown_requested ≡ false
    → is_leader w'.node.state ≡ true
    → seen c id w'.node ≡ true
    → handle_client_command env' replies' c id command key value w' ≡ (w', text t)
handle_client_command_again env env' replies replies' c id command key value w w' t h live leads
      known =
    let first : World × ClientResult = handle_client_command env replies c id command key value w in
    let now : first.0 ≡ w' = ap (λ (p : World × ClientResult). p.0) h in
    let cached : IsCached c (w', text t) = subst (IsCached c) h (
      outcome-IsCached env replies c id command key value w
        (ap (λ (v : World). v.node.shutdown_requested) now ∙ live)
        (ap (λ (v : World). is_leader v.node.state) now ∙ leads)
        (ap (λ (v : World). seen c id v.node) now ∙ known)) in
    recalled env' replies' c id command key value w' live leads known ∙ recall-some c t w' cached
