-- ===== src/Server/Request/Attempts.antt =====
-- When sendClientRequest comes back, and when it never does.
use kv_store_project.Prelude.{
  ℕ, zero, suc, ◌+◌, ◌%◌, ◌≤◌, ◌≡◌, refl, inl, inr, Option, none, some, Option-cases, ◌⊎◌,
}
use kv_store_project.Raft.Cluster.{num_nodes}
use kv_store_project.Server.Request.{Standing, request_loop, send_client_request}

abbrev pub IsRedirect : Standing → Type 0
IsRedirect (Standing.redirected _) = Unit {0}
IsRedirect _ = ⊥

Standing-cases :
    (s : Standing)
    → (s ≡ Standing.accepted)
      ⊎ (s ≡ Standing.refused)
      ⊎ ((leader : Option ℕ) × (s ≡ Standing.redirected leader))
Standing-cases Standing.accepted = inl refl
Standing-cases Standing.refused = inr (inl refl)
Standing-cases (Standing.redirected leader) = inr (inr (leader, refl))

module _ {A : Type 0} (standing : A → Standing) (network : ℕ → ℕ → Option A) (rand : ℕ → ℕ) where
  -- From call `from` on no document redirects.
  abbrev pub Settles : ℕ → Type 0
  Settles from =
      (call node : ℕ) (document : A)
      → from ≤ call
      → network call node ≡ some document
      → ¬ IsRedirect (standing document)

  -- Every document redirects.
  abbrev pub AlwaysRedirects : Type 0
  AlwaysRedirects =
      (call node : ℕ)
      → (document : A) × (network call node ≡ some document) × IsRedirect (standing document)

  request_loop_endless :
      AlwaysRedirects
      → (rounds call current : ℕ) → request_loop standing network rand rounds call 0 current ≡ none
  unfolding request_loop
  request_loop_endless all zero call current = refl
  request_loop_endless all (suc rounds) call current =
      let (document, reply, is) = all call current in
      let again = request_loop_endless all rounds (call + 1) in
      elim (Standing-cases (standing document)) [
        | inl e ↦ absurd (rw e at is)
        | inr (inl e) ↦ absurd (rw e at is)
        | inr (inr (leader, e)) ↦ elim (Option-cases leader) [
          | inl nobody ↦ rw (request_loop, reply, e, nobody) (again (rand call % num_nodes))
          | inr (named, known) ↦ rw (request_loop, reply, e, known) (again named)
        ]
      ]

  -- While every node answers with a redirect, as when no leader is known or two nodes name each
  -- other, the request never comes back: no number of rounds is enough.
  pub send_client_request_endless :
      (rounds first : ℕ)
      → AlwaysRedirects
      → send_client_request standing network rand rounds first ≡ none
  unfolding send_client_request
  send_client_request_endless rounds first all =
      request_loop_endless all rounds 0 (first % num_nodes)
