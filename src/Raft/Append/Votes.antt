-- ===== src/Raft/Append/Votes.antt =====
-- An AppendEntries never moves the term or the vote of the node that answers it.
use kv_store_project.Prelude.{ℕ, ◌≡◌, refl, Bool, true, ◌∙◌, arith}
use kv_store_project.Prelude.Int.{ℤ}
use kv_store_project.Raft.State.{Node, World, Env}
use kv_store_project.Raft.Apply.{apply_next, apply_loop, apply_committed}
use kv_store_project.Raft.Snapshots.Restore.{take_snapshot-IsTaken}
use kv_store_project.Raft.Append.{
  AppendEntriesRpc, answers, advance_commit, accept_entries, append_entries, new_commit,
}
use kv_store_project.Prelude.Text.{Bytes}
use kv_store_project.Prelude.{zero, suc, []}

-- The term and the vote of two nodes agree.
abbrev pub SameBallot : Node → Node → Type 0
SameBallot m n = (m.current_term ≡ n.current_term) × (m.voted_for ≡ n.voted_for)

apply_next-SameBallot :
    (env : Env) (w : World) (r : Bytes) → SameBallot w.node (apply_next env (w, r)).0.node
unfolding apply_next
apply_next-SameBallot env w r = ground arith

apply_loop-SameBallot :
    (k : ℕ) (env : Env) (w : World) (r : Bytes) → SameBallot w.node (apply_loop k env (w, r)).0.node
unfolding apply_loop
apply_loop-SameBallot zero env w r = (refl, refl)
apply_loop-SameBallot (suc k) env w r =
    let a = apply_next-SameBallot env w r in
    let b = apply_loop-SameBallot k env (apply_next env (w, r)).0 (apply_next env (w, r)).1 in
    (a.0 ∙ b.0, a.1 ∙ b.1)

pub apply_committed-SameBallot :
    (env : Env) (w : World) → SameBallot w.node (apply_committed env w).0.node
unfolding apply_committed
apply_committed-SameBallot env w = apply_loop-SameBallot _ env w []

pub advance_commit-SameBallot :
    (env : Env) (c : ℤ) (w : World) → SameBallot w.node (advance_commit env c w).0.node
unfolding advance_commit
advance_commit-SameBallot env c w =
    let w1 : World = record w { node = record w.node { commit_index = new_commit w.node c } } in
    ground (
      arith,
      apply_committed-SameBallot env w1,
      take_snapshot-IsTaken env (apply_committed env w1).0,
    )

accept_entries-SameBallot :
    (env : Env) (r : AppendEntriesRpc) (w : World)
    → SameBallot w.node (accept_entries env r w).0.node
unfolding accept_entries
accept_entries-SameBallot env r w = grind (arith, advance_commit-SameBallot)

-- Whatever the request and the outcome, the node keeps its term and its vote.
pub append_entries-SameBallot :
    (env : Env) (r : AppendEntriesRpc) (w : World)
    → SameBallot w.node (append_entries env r w).0.node
unfolding append_entries
append_entries-SameBallot env r w = grind (arith, accept_entries-SameBallot)

accept_entries-answers :
    (env : Env) (r : AppendEntriesRpc) (w : World) {t : ℕ} {s : Bool}
    → (accept_entries env r w).1 ≡ answers t s
    → t ≡ w.node.current_term
unfolding accept_entries
accept_entries-answers env r w h = grind (arith, advance_commit-SameBallot)

-- Success is answered only to a request of exactly the node's own term, by that term.
pub append_entries-answers_true :
    (env : Env) (r : AppendEntriesRpc) (w : World) (t : ℕ)
    → (append_entries env r w).1 ≡ answers t true
    → (r.term ≡ w.node.current_term) × (t ≡ w.node.current_term)
unfolding append_entries
append_entries-answers_true env r w t h = grind (arith, accept_entries-answers)
