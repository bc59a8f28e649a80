-- ===== src/Server/Display.antt =====
-- What handle_client of src/server.cpp shows of the answers to STATUS, METRICS, LOGSIZE, SNAPSHOT,
-- LOGS and CLUSTER, and of METRICS in a round of WATCH: the labels with their values. Lines, frames
-- and spaces are left out. The answer is an object, as every answer of a node is; `throws` is a
-- conversion that throws, which nothing in handle_client catches.
pub mod Live
pub mod Rules
pub mod Answers
pub mod Counters
pub mod Screens
mod Examples
use kv_store_project.Prelude.{
  Bool, false, List, [], ◌∷◌, ◌++◌, Option, none, some, take, if◌then◌else◌,
}
use kv_store_project.Prelude.Int.{ℤ}
use kv_store_project.Prelude.Text.{Bytes, codes, bytes_eq}
use kv_store_project.Prelude.Words.{◌>>=◌}
use kv_store_project.Raft.Rpc.Library.{Library}

pub data Value : Type 0 where
  number : ℤ → Value
  words : Bytes → Value

abbrev pub Row : Type 0
Row = Bytes × Value

pub data Display : Type 0 where
  shown : List Row → Display
  failed : Bytes → Display
  throws : Display

-- A label with the name of the member that is shown behind it
pub data Field : Type 0 where
  number_of words_of : Bytes → Bytes → Field

abbrev pub display : Option (List Row) → Display
display none = throws
display (some rows) = shown rows

module _ (L : Library) where
  open L use {Json, at_int, at_text, at, value_array}

  -- respJson["status"] == "OK"
  abbrev pub is_ok : Json → Bool
  is_ok j = elim (at_text (codes "status") j) [ none ↦ false | some s ↦ bytes_eq s (codes "OK") ]

  unfoldable pub show_field : Field → Json → Option Row
  show_field (number_of label name) j = do n ← at_int name j; some (label, number n)
  show_field (words_of label name) j = do s ← at_text name j; some (label, words s)

  unfoldable pub show_fields : List Field → Json → Option (List Row)
  unfolding show_field
  show_fields [] j = some []
  show_fields (f ∷ fs) j = do row ← show_field f j; rows ← show_fields fs j; some (row ∷ rows)

  -- The members of members, by the name of the outer one
  unfoldable pub show_sections : List (Bytes × List Field) → Json → Option (List Row)
  show_sections [] j = some []
  show_sections ((name, fields) ∷ sections) j = do
    inner ← at name j
    rows ← show_fields fields inner
    more ← show_sections sections j
    some (rows ++ more)

  -- The rows for each element of an array
  unfoldable pub show_each : (Json → Option (List Row)) → List Json → Option (List Row)
  show_each show [] = some []
  show_each show (j ∷ js) = do rows ← show j; more ← show_each show js; some (rows ++ more)

  unfoldable pub show_status : Json → Display
  show_status j =
      if is_ok j
      then display (
          show_fields
            (number_of (codes "Node ID") (codes "node_id")
              ∷ number_of (codes "Term") (codes "term")
              ∷ words_of (codes "Role") (codes "role")
              ∷ number_of (codes "Leader ID") (codes "leader_id")
              ∷ number_of (codes "Commit Index") (codes "commit_index")
              ∷ number_of (codes "Last Applied") (codes "last_applied")
              ∷ number_of (codes "Log Size") (codes "log_size")
              ∷ [])
            j)
      else failed (codes "Failed to get status")

  unfoldable pub show_log_sizes : Json → Display
  show_log_sizes j =
      if is_ok j
      then display (
          show_fields
            (number_of (codes "Total Log Size") (codes "total_log_size")
              ∷ number_of (codes "Physical Log Size") (codes "physical_log_size")
              ∷ number_of (codes "Snapshot Index") (codes "snapshot_index")
              ∷ number_of (codes "Commit Index") (codes "commit_index")
              ∷ number_of (codes "Last Applied") (codes "last_applied")
              ∷ [])
            j)
      else failed (codes "Failed to get log size")

  -- The message has no label; a failure, too, is shown by it.
  unfoldable pub show_snapshot : Json → Display
  show_snapshot j = elim (at_text (codes "message") j) [
    | none ↦ throws
    | some message ↦
        if is_ok j
        then display (do
          rows ←
              show_fields
                (number_of (codes "Snapshot Index") (codes "snapshot_index")
                  ∷ number_of (codes "Snapshot Term") (codes "snapshot_term")
                  ∷ [])
                j
          some (([], words message) ∷ rows))
        else failed message
  ]

  -- The first forty bytes of a command
  unfoldable pub show_entry : Json → Option (List Row)
  show_entry j = do
    rows ←
        show_fields
          (number_of (codes "Index") (codes "index") ∷ number_of (codes "Term") (codes "term") ∷ [])
          j
    command ← at_text (codes "command") j
    some (rows ++ (codes "Command", words (take 40 command)) ∷ [])

  unfoldable pub show_logs : Json → Display
  show_logs j =
      if is_ok j
      then display (do
        entries ← value_array (codes "logs") j
        rows ← show_each show_entry entries
        totals ←
            show_fields
              (number_of (codes "Total") (codes "total_count")
                ∷ number_of (codes "Showing") (codes "returned_count")
                ∷ [])
              j
        some (rows ++ totals))
      else failed (codes "Failed to get logs")

  unfoldable pub show_peer : Json → Option (List Row)
  show_peer = show_fields (
      number_of (codes "Node") (codes "node_id")
      ∷ number_of (codes "Port") (codes "port")
      ∷ number_of (codes "NextIdx") (codes "next_index")
      ∷ number_of (codes "MatchIdx") (codes "match_index")
      ∷ [])

  unfoldable pub show_cluster : Json → Display
  show_cluster j =
      if is_ok j
      then display (do
        sizes ←
            show_fields
              (number_of (codes "Cluster Size") (codes "cluster_size")
                ∷ number_of (codes "Current Leader") (codes "leader_id")
                ∷ [])
              j
        peers ← value_array (codes "nodes") j
        rows ← show_each show_peer peers
        some (sizes ++ rows))
      else failed (codes "Failed to get cluster info")
