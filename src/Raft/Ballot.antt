-- ===== src/Raft/Ballot.antt =====
-- What no operation of a node may do to its term and its vote.
use kv_store_project.Prelude.{◌<◌, ◌≡◌, ◌⊎◌, inl, inr, refl, arith}
use kv_store_project.Prelude.Int.{minus_one}
use kv_store_project.Prelude.{ℕ, Option, none, some}
use kv_store_project.Prelude.Int.{ℤ}
use kv_store_project.Raft.State.{Node, World, Metadata}

-- From `m` to `n` the term grows, or it stays and a vote that was cast stays too.
abbrev pub KeepsVote : Node → Node → Type 0
KeepsVote m n =
    (m.current_term < n.current_term)
    ⊎ ((m.current_term ≡ n.current_term)
        × ((m.voted_for ≡ minus_one) ⊎ (n.voted_for ≡ m.voted_for)))

pub KeepsVote-refl : (n : Node) → KeepsVote n n
KeepsVote-refl n = inr (refl, inr refl)

pub KeepsVote-trans : (l m n : Node) → KeepsVote l m → KeepsVote m n → KeepsVote l n
KeepsVote-trans l m n (inl a) (inl b) = inl (omega arith)
KeepsVote-trans l m n (inl a) (inr b) = inl (omega (arith, b.0))
KeepsVote-trans l m n (inr a) (inl b) = inl (omega (arith, a.0))
KeepsVote-trans l m n (inr a) (inr b) = ground (arith, a.0, a.1, b.0, b.1)

-- The term and the vote that a metadata file brings back; without one, those of a new node.
abbrev disk_term : Option Metadata → ℕ
disk_term none = 0
disk_term (some m) = m.current_term

abbrev disk_vote : Option Metadata → ℤ
disk_vote none = minus_one
disk_vote (some m) = m.voted_for

-- The file holds the term and the vote of the node.
pub record OnDisk (w : World) : Type 0 where
  pub term : disk_term w.metadata_file ≡ w.node.current_term
  pub vote : disk_vote w.metadata_file ≡ w.node.voted_for

-- What an operation of a node promises
pub record Holds (v w : World) : Type 0 where
  pub ballot : KeepsVote v.node w.node
  pub disk : OnDisk w

pub Holds-trans : {u v w : World} → Holds u v → Holds v w → Holds u w
Holds-trans {u} {v} {w} a b = record {
  ballot = KeepsVote-trans u.node v.node w.node a.ballot b.ballot;
  disk = b.disk;
}

pub Holds-refl : (w : World) → OnDisk w → Holds w w
Holds-refl w d = record { ballot = KeepsVote-refl w.node; disk = d }
