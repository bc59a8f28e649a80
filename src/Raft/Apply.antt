-- ===== src/Raft/Apply.antt =====
-- RaftNode::applyToStateMachine of src/raft_node.cpp and the loops that apply what is committed.
pub mod Commands
pub mod Progress
use kv_store_project.Prelude.{
  ℕ, zero, suc, ◌+◌, ◌-◌, Bool, true, false, List, [], ◌∷◌, ◌++◌, Option, none, some, ◌==◌,
  get_elem?, if◌then◌else◌,
}
use kv_store_project.Prelude.Int.{ℤ, pos, negsuc, ◌-ℤ◌, pos_part}
use kv_store_project.Prelude.Text.{Bytes, codes, bytes_eq}
use kv_store_project.Prelude.Stream.{next_word, get_line}
use kv_store_project.KvStore.{KvStore, put, get, remove}
use kv_store_project.Raft.State.{Node, World, Env, RaftEntry, Snapshot}

-- `if (!value.empty() && value[0] == ' ') value.erase(0, 1);`
abbrev pub drop_blank : Bytes → Bytes
drop_blank [] = []
drop_blank (c ∷ s) = if c == b' ' then s else c ∷ s

-- command + " " + key + " " + value, as handleClientCommand builds it
abbrev pub send_command : Bytes → Bytes → Bytes → Bytes
send_command command key value = command ++ (b' ' ∷ (key ++ (b' ' ∷ value)))

-- The commands of the state machine, with the text of the result.
unfoldable pub execute : Bool → Bytes → Bytes → Bytes → KvStore → KvStore × Bytes
execute can_open cmd key value s =
    if bytes_eq cmd (codes "PUT")
    then (put can_open key value s, codes "OK")
    else if bytes_eq cmd (codes "GET")
    then (s, elim (get key s) [ none ↦ codes "key not found" | some v ↦ v ])
    else if bytes_eq cmd (codes "DELETE")
    then (let (s', deleted) = remove can_open key s in
        (s', if deleted then codes "OK" else codes "key not found"))
    else (s, codes "error: unknown command")

unfoldable pub run_command : Bool → Bytes → KvStore → KvStore × Bytes
run_command can_open command s =
    let (cmd, rest) = next_word command in
    let (key, rest') = next_word rest in
    execute can_open cmd key (drop_blank (get_line 10 rest').0) s

-- RaftNode::applyToStateMachine
unfoldable pub apply_to_state_machine : Env → Bytes → World → World × Bytes
apply_to_state_machine env command w =
    if w.node.shutdown_requested
    then (w, codes "error: node shutting down")
    else (let (store, result) = run_command env.can_open command w.store in
        (record w { store = store }, result))

-- `latestSnapshot ? lastApplied - lastIncludedIndex - 1 : lastApplied`
abbrev pub log_place : Option Snapshot → ℕ → ℤ
log_place none i = pos i
log_place (some snap) i = pos i -ℤ pos snap.last_included_index -ℤ pos 1

-- The entry in a place of the vector, if the place is in range.
abbrev pub entry_at : List RaftEntry → ℤ → Option RaftEntry
entry_at log (pos i) = get_elem? log i
entry_at log (negsuc i) = none

-- One round of the loop: the counter goes up, and the entry it names is applied.
unfoldable pub apply_next : Env → World × Bytes → World × Bytes
unfolding apply_to_state_machine
apply_next env (w, result) =
    let w' = record w { node = record w.node { last_applied = w.node.last_applied + 1 } } in
    elim (entry_at w'.node.log (log_place w'.node.latest_snapshot w'.node.last_applied)) [
      | none ↦ (w', result)
      | some e ↦ apply_to_state_machine env e.command w'
    ]

-- `while (lastApplied < commitIndex) …`, with the result of the last command. Each round takes
-- one off `commitIndex - lastApplied`, which is the number of rounds where it is not negative.
unfoldable pub apply_loop : ℕ → Env → World × Bytes → World × Bytes
apply_loop zero env s = s
apply_loop (suc rounds) env s = apply_loop rounds env (apply_next env s)

unfoldable pub apply_committed : Env → World → World × Bytes
apply_committed env w =
    apply_loop (pos_part (w.node.commit_index -ℤ pos w.node.last_applied)) env (w, [])
