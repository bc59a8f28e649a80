-- ===== src/Server/Session.antt =====
-- handle_client of src/server.cpp: what one line of a client leads to. The boxes of the texts are
-- left out: a command is what remains of a line once its arguments are read, and a response says
-- what the text says. An exception that nothing catches ends the process.

pub mod Replies
pub mod History
pub mod Lines
use kv_store_project.Prelude.{
  ℕ, zero, suc, ◌+◌, ◌-◌, Bool, true, false, ◌&&◌, List, [], ◌∷◌, ◌++◌, Option, none, some, ltb,
  leb, ◌==◌, length, get_elem?, drop, if◌then◌else◌,
}
use kv_store_project.Prelude.Int.{ℤ, pos, negsuc}
use kv_store_project.Prelude.Text.{Bytes, is_empty, codes, bytes_eq}
use kv_store_project.Prelude.Stream.{next_word}
use kv_store_project.Server.Parse.{
  trim, is_digit, starts_with_digit, resolve_command_alias, stoi, PutArguments, parse_put,
}

-- The variables of a connection. `requests` is its number in `clientRequestCounter`.
pub record Session : Type 0 where
  pub history : List Bytes
  pub command_count : ℕ
  pub requests : ℕ

pub data Command : Type 0 where
  put : PutArguments → Command
  get_usage delete_usage : Command
  get delete : Bytes → Command
  status metrics log_size snapshot cluster : Command
  logs watch : ℕ → Command
  help stats clear : Command
  history : List Bytes → Command
  exit_raft exit_server : Bool → Command
  exit : ℕ → Command
  unknown : Bytes → Command

-- What follows a line. `runs` carries the line that is repeated, if one is.
pub data Action : Type 0 where
  skips no_previous bad_index crashes : Action
  runs : Option Bytes → Command → Action

-- GET and DELETE take a word.
abbrev pub with_key : Command → (Bytes → Command) → Bytes → Command
with_key usage make rest = let (key, _) = next_word rest in if is_empty key then usage else make key

unfoldable pub digits_of : Bytes → Bytes
digits_of [] = []
digits_of (c ∷ s) = let rest = digits_of s in if is_digit c then c ∷ rest else rest

-- The count of LOGS, from the digits of its argument; `none` where std::stoi throws.
unfoldable pub log_count : Bytes → Option ℕ
unfolding digits_of stoi
log_count rest =
    let digits = digits_of (next_word rest).0 in
    if is_empty digits then some 10 else elim (stoi digits) [
      | none ↦ none
      | some (negsuc _) ↦ some 10
      | some (pos n) ↦ some (if n == 0 then 10 else n)
    ]

-- The interval of WATCH, between 1 and 60
unfoldable pub watch_interval : Bytes → ℕ
unfolding stoi
watch_interval rest =
    let (word, _) = next_word rest in
    if is_empty word then 2 else elim (stoi word) [
      | none ↦ 2
      | some (negsuc _) ↦ 2
      | some (pos n) ↦ if ltb n 1 then 2 else if ltb 60 n then 60 else n
    ]

-- "admin123" as the next word
abbrev pub is_password : Bytes → Bool
is_password rest = bytes_eq (next_word rest).0 (codes "admin123")

-- The commands of the connection, at the end of the chain
unfoldable pub dispatch_session : Session → Bytes → Bytes → Command
dispatch_session s name rest =
    if bytes_eq name (codes "HELP")
    then help
    else if bytes_eq name (codes "HISTORY")
    then history (drop (length s.history - 20) s.history)
    else if bytes_eq name (codes "STATS")
    then stats
    else if bytes_eq name (codes "CLEAR")
    then clear
    else if bytes_eq name (codes "EXIT-RAFT")
    then exit_raft (is_password rest)
    else if bytes_eq name (codes "EXIT-SERVER")
    then exit_server (is_password rest)
    else if bytes_eq name (codes "EXIT")
    then exit s.command_count
    else unknown name

-- The commands that ask a node, in the middle of the chain; `none` where reading throws.
unfoldable pub dispatch_admin : Session → Bytes → Bytes → Option Command
unfolding log_count watch_interval
dispatch_admin s name rest =
    if bytes_eq name (codes "STATUS")
    then some status
    else if bytes_eq name (codes "METRICS")
    then some metrics
    else if bytes_eq name (codes "LOGSIZE")
    then some log_size
    else if bytes_eq name (codes "SNAPSHOT")
    then some snapshot
    else if bytes_eq name (codes "LOGS")
    then elim (log_count rest) [ none ↦ none | some n ↦ some (logs n) ]
    else if bytes_eq name (codes "CLUSTER")
    then some cluster
    else if bytes_eq name (codes "WATCH")
    then some (watch (watch_interval rest))
    else some (dispatch_session s name rest)

-- The chain of commands, with the arguments of the one that is named
unfoldable pub dispatch : Session → Bytes → Bytes → Option Command
unfolding parse_put
dispatch s name rest =
    if bytes_eq name (codes "PUT")
    then some (put (parse_put rest))
    else if bytes_eq name (codes "GET")
    then some (with_key get_usage get rest)
    else if bytes_eq name (codes "DELETE")
    then some (with_key delete_usage delete rest)
    else dispatch_admin s name rest

-- A line whose first word has been read as `word`
unfoldable pub run_line : Session → Option Bytes → Bytes → Bytes → Action
run_line s repeated word rest = elim (dispatch s (resolve_command_alias word) rest) [
  | none ↦ crashes
  | some command ↦ runs repeated command
]

-- A line of the history is read again. A line without a word leaves the word as it was.
unfoldable pub repeat_line : Session → Bytes → Bytes → Action
repeat_line s old line =
    let (word, rest) = next_word line in
    run_line s (some line) (if is_empty word then old else word) rest

-- `!n` with the number read: the line with that number, counted from 1.
abbrev pub repeat_nth : Session → Bytes → Option ℤ → Action
repeat_nth s word none = crashes
repeat_nth s word (some (negsuc _)) = bad_index
repeat_nth s word (some (pos zero)) = bad_index
repeat_nth s word (some (pos (suc n))) = elim (get_elem? s.history n) [
  | none ↦ bad_index
  | some line ↦ repeat_line s word line
]

abbrev pub is_nth : Bytes → Bool
is_nth [] = false
is_nth (c ∷ s) = c == b'!' && starts_with_digit s

-- The digits behind the mark
abbrev pub behind_mark : Bytes → Bytes
behind_mark [] = []
behind_mark (c ∷ s) = s

-- What the first word asks for
unfoldable pub run_word : Session → Bytes → Bytes → Action
run_word s word rest =
    if bytes_eq word (codes "!!")
    then (if leb 2 (length s.history)
        then elim (get_elem? s.history (length s.history - 2)) [
          | none ↦ no_previous
          | some line ↦ repeat_line s word line
        ]
        else no_previous)
    else if is_nth word
    then repeat_nth s word (stoi (behind_mark word))
    else run_line s none word rest

-- A line is trimmed and kept in the history before its first word is read.
unfoldable pub handle_line : Session → Bytes → Session × Action
unfolding trim
handle_line s raw =
    let line = trim raw in
    let s1 = record s { history = s.history ++ line ∷ []; command_count = s.command_count + 1 } in
    let (word, rest) = next_word line in
    let s2 = record s1 { requests = s1.requests + 1 } in
    if is_empty line
    then (s, skips)
    else if is_empty word
    then (s1, skips)
    else (s2, run_word s2 word rest)
