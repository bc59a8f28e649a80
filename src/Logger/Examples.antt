-- ===== src/Logger/Examples.antt =====
-- A logger at INFO that writes to a file.
use kv_store_project.Prelude.{◌≡◌, refl, true, [], ◌∷◌, ◌++◌}
use kv_store_project.Prelude.Text.{codes, bytes_eq}
use kv_store_project.Logger.{
  LogLevel, Call, initial, plain, of_node, of_role, init, log_line, coloured, get_level_string,
  decimal,
}
use kv_store_project.Logger.Lines.{log_all, init-log_all}

-- The line of a leader
line_example :
    log_line (of_role LogLevel.warn (codes "now") 12 (codes "Leader") 30 (codes "m"))
    ≡ codes "[now][WARN ][Node 12][Leader][Term 30]: m"
unfolding log_line get_level_string decimal bytes_eq
line_example = refl

abbrev quiet : Call
quiet = plain LogLevel.debug (codes "t0") (codes "not shown")

abbrev shown : Call
shown = of_node LogLevel.error (codes "t1") 1 (codes "shown")

init-log_all_example :
    let l' =
      log_all
        (quiet ∷ shown ∷ [])
        (init (λ _. true) (codes "raft_node.log") LogLevel.info initial) in
    (l'.log_file.written ≡ [] ++ (codes "raft_node.log", log_line shown) ∷ [])
    × (l'.stdout ≡ [] ++ coloured shown ∷ [])
unfolding bytes_eq
init-log_all_example =
    init-log_all (λ _. true) (codes "raft_node.log") LogLevel.info (quiet ∷ shown ∷ []) initial refl
      refl refl
