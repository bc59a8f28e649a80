-- ===== src/Server/Request.antt =====
-- sendClientRequest of src/server.cpp. What each call of sendRPC brings back is an argument: a
-- function of the number of the call and of the node that is asked, `none` where the answer is no
-- document and an exception is caught. So are the values of rand().
pub mod Attempts
use kv_store_project.Prelude.{
  ℕ, zero, suc, ◌+◌, ◌%◌, Option, none, some, leb, if◌then◌else◌, Bool, true, false,
}
use kv_store_project.Raft.Cluster.{num_nodes}

-- What the member "status" of a document says; a redirect names the leader, or nobody (-1).
pub data Standing : Type 0 where
  accepted : Standing
  redirected : Option ℕ → Standing
  refused : Standing

module _ {A : Type 0} (standing : A → Standing) (network : ℕ → ℕ → Option A) (rand : ℕ → ℕ) where
  -- The loop, at its call number `call`, with `rounds` calls left to look at: `none` where they are
  -- used up; else the document that is returned, `none` for "All nodes unreachable".
  unfoldable pub request_loop : ℕ → ℕ → ℕ → ℕ → Option (Option A)
  request_loop zero call attempts current = none
  request_loop (suc rounds) call attempts current =
      let elsewhere = rand call % num_nodes in
      elim (leb num_nodes attempts) [
        | true ↦ some none
        | false ↦ elim (network call current) [
          | none ↦ request_loop rounds (call + 1) (attempts + 1) ((current + 1) % num_nodes)
          | some document ↦ elim (standing document) [
            | Standing.accepted ↦ some (some document)
            | Standing.redirected none ↦ request_loop rounds (call + 1) attempts elsewhere
            | Standing.redirected (some leader) ↦ request_loop rounds (call + 1) attempts leader
            | Standing.refused ↦ request_loop rounds (call + 1) (attempts + 1) elsewhere
          ]
        ]
      ]

  unfoldable pub send_client_request : ℕ → ℕ → Option (Option A)
  unfolding request_loop
  send_client_request rounds first = request_loop rounds 0 0 (first % num_nodes)
