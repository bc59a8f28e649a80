-- ===== src/Server/Display/Counters.antt =====
-- What METRICS and a round of WATCH show of the counters of a node.
use kv_store_project.Prelude.{ℕ, ◌≡◌, refl, List, [], ◌∷◌, ◌++◌, some}
use kv_store_project.Prelude.Int.{pos}
use kv_store_project.Prelude.Text.{Bytes, codes, bytes_eq}
use kv_store_project.Prelude.Map
use kv_store_project.Prelude.Map.{Map}
use kv_store_project.Raft.State.{Metrics}
use kv_store_project.Raft.Rpc.Library.{Library, IsLawful}
use kv_store_project.Raft.Rpc.Documents.{role_name, ok_json, metrics_json}
use kv_store_project.Server.Display.Live.{show_sections_and_uptime, show_metrics, show_round}
use kv_store_project.Server.Display.{number, words, Row, shown, Field, show_sections}
use kv_store_project.Server.Display.Rules.{
  show_number, show_words, show_nothing, shown_if_ok, show_section,
}

abbrev pub metrics_rows : ℕ → Metrics → List Row
metrics_rows uptime m =
    (codes "Term", number (pos m.current_term))
    ∷ (codes "Role", words (role_name m.role))
    ∷ (codes "Leader ID", number m.leader_id)
    ∷ (codes "Voted For", number m.voted_for)
    ∷ (codes "Log Size", number (pos m.log_size))
    ∷ (codes "Commit Index", number m.commit_index)
    ∷ (codes "Last Applied", number (pos m.last_applied))
    ∷ (codes "Count", number (pos m.snapshot_count))
    ∷ (codes "Last Index", number (pos m.last_snapshot_index))
    ∷ (codes "Last Term", number (pos m.last_snapshot_term))
    ∷ (codes "Elections", number (pos m.election_count))
    ∷ (codes "Leader Changes", number (pos m.leader_changes))
    ∷ (codes "Votes Received", number (pos m.votes_received))
    ∷ (codes "AppendEntries sent", number (pos m.append_entries_sent))
    ∷ (codes "AppendEntries recv", number (pos m.append_entries_received))
    ∷ (codes "RequestVote sent", number (pos m.request_votes_sent))
    ∷ (codes "RequestVote recv", number (pos m.request_votes_received))
    ∷ (codes "InstallSnapshot sent", number (pos m.install_snapshots_sent))
    ∷ (codes "InstallSnapshot recv", number (pos m.install_snapshots_received))
    ∷ (codes "Received", number (pos m.client_requests_received))
    ∷ (codes "Succeeded", number (pos m.client_requests_succeeded))
    ∷ (codes "Failed", number (pos m.client_requests_failed))
    ∷ (codes "Redirected", number (pos m.client_requests_redirected))
    ∷ (codes "Avg Response", number (pos 0))
    ∷ (codes "Uptime", number (pos uptime))
    ∷ []

abbrev pub watch_rows : ℕ → Metrics → List Row
watch_rows uptime m =
    (codes "Term", number (pos m.current_term))
    ∷ (codes "Role", words (role_name m.role))
    ∷ (codes "Leader ID", number m.leader_id)
    ∷ (codes "Log Size", number (pos m.log_size))
    ∷ (codes "Commit Index", number m.commit_index)
    ∷ (codes "Last Applied", number (pos m.last_applied))
    ∷ (codes "Count", number (pos m.snapshot_count))
    ∷ (codes "Last Index", number (pos m.last_snapshot_index))
    ∷ (codes "Count", number (pos m.election_count))
    ∷ (codes "Leader Changes", number (pos m.leader_changes))
    ∷ (codes "AppendEntries sent", number (pos m.append_entries_sent))
    ∷ (codes "AppendEntries recv", number (pos m.append_entries_received))
    ∷ (codes "RequestVote sent", number (pos m.request_votes_sent))
    ∷ (codes "RequestVote recv", number (pos m.request_votes_received))
    ∷ (codes "Total", number (pos m.client_requests_received))
    ∷ (codes "Succeeded", number (pos m.client_requests_succeeded))
    ∷ (codes "Failed", number (pos m.client_requests_failed))
    ∷ (codes "Uptime", number (pos uptime))
    ∷ []

module _ (L : Library) (lawful : IsLawful L) where
  show_no_section : (m : Map L.Json) → show_sections L [] (L.object m) ≡ some []
  unfolding show_sections
  show_no_section m = refl

  sections_and_uptime :
      (sections : List (Bytes × List Field)) (m : Map L.Json) (rows : List Row) (uptime : ℕ)
      → show_sections L sections (L.object m) ≡ some rows
      → Map.lookup (codes "uptime_seconds") m ≡ some (L.int (pos uptime))
      → show_sections_and_uptime L sections (L.object m)
        ≡ some (rows ++ (codes "Uptime", number (pos uptime)) ∷ [])
  unfolding show_sections_and_uptime
  sections_and_uptime sections m rows uptime shows age =
      rw
        (
          shows,
          show_number L lawful (codes "Uptime") (codes "uptime_seconds") [] (pos uptime) m [] age
              (show_nothing L lawful m),
        )
        refl

  pub metrics_screen :
      (uptime : ℕ) (m : Metrics)
      → show_metrics L (metrics_json L uptime m) ≡ shown (metrics_rows uptime m)
  unfolding show_metrics metrics_json ok_json Map.lookup bytes_eq
  metrics_screen uptime m = shown_if_ok L lawful _ _ _ _ (
      sections_and_uptime _ _ _ _
        (show_section L lawful _ _ _ _ _ _ _ refl
          (show_number L lawful _ _ _ _ _ _ refl (
            show_words L lawful _ _ _ _ _ _ refl (
              show_number L lawful _ _ _ _ _ _ refl
                (show_number L lawful _ _ _ _ _ _ refl (show_nothing L lawful _)))))
          (show_section L lawful _ _ _ _ _ _ _ refl
            (show_number L lawful _ _ _ _ _ _ refl (
              show_number L lawful _ _ _ _ _ _ refl
                (show_number L lawful _ _ _ _ _ _ refl (show_nothing L lawful _))))
            (show_section L lawful _ _ _ _ _ _ _ refl
              (show_number L lawful _ _ _ _ _ _ refl (
                show_number L lawful _ _ _ _ _ _ refl
                  (show_number L lawful _ _ _ _ _ _ refl (show_nothing L lawful _))))
              (show_section L lawful _ _ _ _ _ _ _ refl
                (show_number L lawful _ _ _ _ _ _ refl (
                  show_number L lawful _ _ _ _ _ _ refl
                    (show_number L lawful _ _ _ _ _ _ refl (show_nothing L lawful _))))
                (show_section L lawful _ _ _ _ _ _ _ refl
                  (show_number L lawful _ _ _ _ _ _ refl (
                    show_number L lawful _ _ _ _ _ _ refl (
                      show_number L lawful _ _ _ _ _ _ refl (
                        show_number L lawful _ _ _ _ _ _ refl (
                          show_number L lawful _ _ _ _ _ _ refl
                            (show_number L lawful _ _ _ _ _ _ refl (show_nothing L lawful _)))))))
                  (show_section L lawful _ _ _ _ _ _ _ refl
                    (show_number L lawful _ _ _ _ _ _ refl (
                      show_number L lawful _ _ _ _ _ _ refl (
                        show_number L lawful _ _ _ _ _ _ refl
                          (show_number L lawful _ _ _ _ _ _ refl (show_nothing L lawful _)))))
                    (show_section L lawful _ _ _ _ _ _ _ refl
                      (show_number L lawful _ _ _ _ _ _ refl (show_nothing L lawful _))
                      (show_no_section _))))))))
        refl)

  pub watch_screen :
      (uptime : ℕ) (m : Metrics)
      → show_round L (metrics_json L uptime m) ≡ shown (watch_rows uptime m)
  unfolding show_round metrics_json ok_json Map.lookup bytes_eq
  watch_screen uptime m = shown_if_ok L lawful _ _ _ _ (
      sections_and_uptime _ _ _ _
        (show_section L lawful _ _ _ _ _ _ _ refl
          (show_number L lawful _ _ _ _ _ _ refl (
            show_words L lawful _ _ _ _ _ _ refl
              (show_number L lawful _ _ _ _ _ _ refl (show_nothing L lawful _))))
          (show_section L lawful _ _ _ _ _ _ _ refl
            (show_number L lawful _ _ _ _ _ _ refl (
              show_number L lawful _ _ _ _ _ _ refl
                (show_number L lawful _ _ _ _ _ _ refl (show_nothing L lawful _))))
            (show_section L lawful _ _ _ _ _ _ _ refl
              (show_number L lawful _ _ _ _ _ _ refl
                (show_number L lawful _ _ _ _ _ _ refl (show_nothing L lawful _)))
              (show_section L lawful _ _ _ _ _ _ _ refl
                (show_number L lawful _ _ _ _ _ _ refl
                  (show_number L lawful _ _ _ _ _ _ refl (show_nothing L lawful _)))
                (show_section L lawful _ _ _ _ _ _ _ refl
                  (show_number L lawful _ _ _ _ _ _ refl (
                    show_number L lawful _ _ _ _ _ _ refl (
                      show_number L lawful _ _ _ _ _ _ refl
                        (show_number L lawful _ _ _ _ _ _ refl (show_nothing L lawful _)))))
                  (show_section L lawful _ _ _ _ _ _ _ refl
                    (show_number L lawful _ _ _ _ _ _ refl (
                      show_number L lawful _ _ _ _ _ _ refl
                        (show_number L lawful _ _ _ _ _ _ refl (show_nothing L lawful _))))
                    (show_no_section _)))))))
        refl)
