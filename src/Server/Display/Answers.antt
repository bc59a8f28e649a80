-- ===== src/Server/Display/Answers.antt =====
-- What the screens show of the answers of a node.
use kv_store_project.Prelude.{ℕ, ◌≡◌, refl, List, [], ◌∷◌, ◌++◌, none, some, map, take}
use kv_store_project.Prelude.Int.{pos}
use kv_store_project.Prelude.Text.{Bytes, codes, bytes_eq}
use kv_store_project.Prelude.Map
use kv_store_project.Prelude.Map.{Map}
use kv_store_project.Raft.State.{RaftEntry}
use kv_store_project.Raft.Answers.{Status, LogSizes, Logs, PeerInfo, ClusterInfo}
use kv_store_project.Raft.Rpc.Library.{Library, IsLawful}
use kv_store_project.Raft.Rpc.Documents.{
  role_name, ok_json, failure_json, status_json, log_sizes_json, listed_entry_json, logs_json,
  peer_info_json, cluster_info_json,
}
use kv_store_project.Server.Display.{
  number, words, Row, shown, throws, number_of, show_fields, show_each, show_status, show_log_sizes,
  show_snapshot, show_entry, show_logs, show_peer, show_cluster,
}
use kv_store_project.Server.Display.Rules.{show_number, show_words, show_nothing, shown_if_ok}

abbrev count_row : Bytes → ℕ → Row
count_row label n = (label, number (pos n))

abbrev pub status_rows : Status → List Row
status_rows s =
    count_row (codes "Node ID") s.node_id
    ∷ count_row (codes "Term") s.term
    ∷ (codes "Role", words (role_name s.role))
    ∷ (codes "Leader ID", number s.leader_id)
    ∷ (codes "Commit Index", number s.commit_index)
    ∷ count_row (codes "Last Applied") s.last_applied
    ∷ count_row (codes "Log Size") s.log_size
    ∷ []

abbrev pub log_size_rows : LogSizes → List Row
log_size_rows s =
    count_row (codes "Total Log Size") s.total_log_size
    ∷ count_row (codes "Physical Log Size") s.physical_log_size
    ∷ count_row (codes "Snapshot Index") s.snapshot_index
    ∷ (codes "Commit Index", number s.commit_index)
    ∷ count_row (codes "Last Applied") s.last_applied
    ∷ []

abbrev pub entry_rows : List RaftEntry → List Row
entry_rows [] = []
entry_rows (e ∷ es) =
    count_row (codes "Index") e.index
    ∷ count_row (codes "Term") e.term
    ∷ (codes "Command", words (take 40 e.command))
    ∷ entry_rows es

abbrev pub log_rows : Logs → List Row
log_rows l =
    entry_rows l.logs
    ++ (count_row (codes "Total") l.total_count ∷ count_row (codes "Showing") l.returned_count ∷ [])

abbrev pub peer_rows : List PeerInfo → List Row
peer_rows [] = []
peer_rows (p ∷ ps) =
    count_row (codes "Node") p.node_id
    ∷ count_row (codes "Port") p.port
    ∷ (codes "NextIdx", number p.next_index)
    ∷ (codes "MatchIdx", number p.match_index)
    ∷ peer_rows ps

abbrev pub cluster_rows : ClusterInfo → List Row
cluster_rows c =
    count_row (codes "Cluster Size") c.cluster_size
    ∷ (codes "Current Leader", number c.leader_id)
    ∷ peer_rows c.nodes

module _ (L : Library) (lawful : IsLawful L) where
  pub status_screen : (s : Status) → show_status L (status_json L s) ≡ shown (status_rows s)
  unfolding show_status status_json ok_json Map.lookup bytes_eq
  status_screen s = shown_if_ok L lawful _ _ _ _ (
      show_number L lawful _ _ _ _ _ _ refl (
        show_number L lawful _ _ _ _ _ _ refl (
          show_words L lawful _ _ _ _ _ _ refl (
            show_number L lawful _ _ _ _ _ _ refl (
              show_number L lawful _ _ _ _ _ _ refl (
                show_number L lawful _ _ _ _ _ _ refl
                  (show_number L lawful _ _ _ _ _ _ refl (show_nothing L lawful _))))))))

  pub log_sizes_screen :
      (s : LogSizes) → show_log_sizes L (log_sizes_json L s) ≡ shown (log_size_rows s)
  unfolding show_log_sizes log_sizes_json ok_json Map.lookup bytes_eq
  log_sizes_screen s = shown_if_ok L lawful _ _ _ _ (
      show_number L lawful _ _ _ _ _ _ refl (
        show_number L lawful _ _ _ _ _ _ refl (
          show_number L lawful _ _ _ _ _ _ refl (
            show_number L lawful _ _ _ _ _ _ refl
              (show_number L lawful _ _ _ _ _ _ refl (show_nothing L lawful _))))))

  show_entry_lem :
      (e : RaftEntry) → show_entry L (listed_entry_json L e) ≡ some (entry_rows (e ∷ []))
  unfolding show_entry listed_entry_json Map.lookup bytes_eq
  show_entry_lem e =
      let fields : show_fields L
            (number_of (codes "Index") (codes "index")
              ∷ number_of (codes "Term") (codes "term")
              ∷ [])
            (listed_entry_json L e)
          ≡ some (count_row (codes "Index") e.index ∷ count_row (codes "Term") e.term ∷ []) =
        show_number L lawful _ _ _ _ _ _ refl
          (show_number L lawful _ _ _ _ _ _ refl (show_nothing L lawful _)) in
      let command : L.at_text (codes "command") (listed_entry_json L e) ≡ some e.command =
        lawful.at_text-object (codes "command") e.command _ refl in
      rw (fields, command, show_entry) refl

  show_entries :
      (es : List RaftEntry)
      → show_each L (show_entry L) (map (listed_entry_json L) es) ≡ some (entry_rows es)
  unfolding show_each
  show_entries [] = refl
  show_entries (e ∷ es) = rw (show_entry_lem e) (rw (show_entries es) refl)

  pub logs_screen : (l : Logs) → show_logs L (logs_json L l) ≡ shown (log_rows l)
  unfolding show_logs logs_json ok_json Map.lookup bytes_eq
  logs_screen l =
      let array : L.value_array (codes "logs") (logs_json L l)
          ≡ some (map (listed_entry_json L) l.logs) =
        lawful.value_array-object (codes "logs") _ _ refl in
      let totals : show_fields L
            (number_of (codes "Total") (codes "total_count")
              ∷ number_of (codes "Showing") (codes "returned_count")
              ∷ [])
            (logs_json L l)
          ≡ some (
              count_row (codes "Total") l.total_count
              ∷ count_row (codes "Showing") l.returned_count
              ∷ []) =
        show_number L lawful _ _ _ _ _ _ refl
          (show_number L lawful _ _ _ _ _ _ refl (show_nothing L lawful _)) in
      shown_if_ok L lawful _ _ _ _ (rw (array, show_entries l.logs, totals) refl)

  show_peer_lem : (p : PeerInfo) → show_peer L (peer_info_json L p) ≡ some (peer_rows (p ∷ []))
  unfolding show_peer peer_info_json Map.lookup bytes_eq
  show_peer_lem p = show_number L lawful _ _ _ _ _ _ refl (
      show_number L lawful _ _ _ _ _ _ refl (
        show_number L lawful _ _ _ _ _ _ refl
          (show_number L lawful _ _ _ _ _ _ refl (show_nothing L lawful _))))

  show_peers :
      (ps : List PeerInfo)
      → show_each L (show_peer L) (map (peer_info_json L) ps) ≡ some (peer_rows ps)
  unfolding show_each
  show_peers [] = refl
  show_peers (p ∷ ps) = rw (show_peer_lem p) (rw (show_peers ps) refl)

  pub cluster_screen :
      (c : ClusterInfo) → show_cluster L (cluster_info_json L c) ≡ shown (cluster_rows c)
  unfolding show_cluster cluster_info_json ok_json Map.lookup bytes_eq
  cluster_screen c =
      let sizes : show_fields L
            (number_of (codes "Cluster Size") (codes "cluster_size")
              ∷ number_of (codes "Current Leader") (codes "leader_id")
              ∷ [])
            (cluster_info_json L c)
          ≡ some (
              count_row (codes "Cluster Size") c.cluster_size
              ∷ (codes "Current Leader", number c.leader_id)
              ∷ []) =
        show_number L lawful _ _ _ _ _ _ refl
          (show_number L lawful _ _ _ _ _ _ refl (show_nothing L lawful _)) in
      let array : L.value_array (codes "nodes") (cluster_info_json L c)
          ≡ some (map (peer_info_json L) c.nodes) =
        lawful.value_array-object (codes "nodes") _ _ refl in
      shown_if_ok L lawful _ _ _ _ (rw (sizes, array, show_peers c.nodes) refl)

  -- An answer without the member `message`, as that of sendClientRequest where no node was reached
  pub unreached_screen :
      (message : Bytes) → show_snapshot L (failure_json L (codes "msg") message) ≡ throws
  unfolding show_snapshot failure_json Map.lookup bytes_eq
  unreached_screen message =
      let missing : L.at_text (codes "message") (failure_json L (codes "msg") message) ≡ none =
        lawful.at_text-missing (codes "message") _ refl in
      rw (missing, show_snapshot) refl
