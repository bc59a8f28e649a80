-- ===== src/Server/Examples.antt =====
-- Lines and requests of a client.
use kv_store_project.Prelude.{
  ℕ, ◌≡◌, refl, true, false, [], ◌∷◌, Option, none, some, arith, if◌then◌else◌, ltb, ◌==◌,
}
use kv_store_project.Prelude.Int.{pos, negsuc, minus_one}
use kv_store_project.Prelude.Text.{codes, bytes_eq}
use kv_store_project.Prelude.Map
use kv_store_project.Prelude.Stream.{next_word, get_line}
use kv_store_project.KvStore.{construct, put}
use kv_store_project.Raft.State.{World, NodeState}
use kv_store_project.Raft.Apply.{send_command, run_command}
use kv_store_project.Raft.Client.{text, handle_client_command, recall}
use kv_store_project.Raft.Answers.{Answer, redirect, client_request, count_client_request}
use kv_store_project.Raft.Samples.{env, node, world}
use kv_store_project.Server.Parse.{
  entry, usage, parse_options, to_upper, is_key_option, stoi, parse_put, parse_key_value_format,
  resolve_command_alias, trim_right,
}
use kv_store_project.Server.Request.{send_client_request}
use kv_store_project.Server.Request.Attempts.{IsRedirect, send_client_request_endless}
use kv_store_project.Server.Watch.{Poll, stops_watch, watch_mode}
use kv_store_project.Server.Watch.Rounds.{watch_mode_endless}
use kv_store_project.Server.Session.{
  dispatch_admin, dispatch_session, Session, Action, runs, Command, run_line, repeat_line, run_word,
  dispatch, handle_line,
}
use kv_store_project.Server.Session.Replies.{
  get_response, value_of, process_ends, message, standing_of, get_response_lem, missing,
}
use kv_store_project.Server.Session.Lines.{IsPlain, put_line, put_line_stored, parse_put_named}

put_quoted : parse_put (codes " name \"John Doe\"") ≡ entry (codes "name") (codes "John Doe")
unfolding parse_put next_word to_upper bytes_eq get_line
put_quoted = refl

-- With quotes the named form is read as it is meant.
put_named : parse_put (codes " -k \"k\" --value \"a b\"") ≡ entry (codes "k") (codes "a b")
unfolding parse_put parse_key_value_format parse_options next_word to_upper bytes_eq get_line
put_named = refl

help_text : IsPlain b'k' (codes " --value v")
unfolding trim_right
help_text = record { solid = refl; bare = refl; ends = refl; one_line = omega arith }

put_as_in_help : parse_put (codes " --key k --value v") ≡ usage
put_as_in_help = parse_put_named b'k' (codes " --value v") help_text

negative : stoi (codes "-12x") ≡ some (negsuc 11)
unfolding stoi
negative = refl

too_large : stoi (codes "2147483648") ≡ none
unfolding stoi
too_large = refl

alias : resolve_command_alias (codes "fetch") ≡ codes "GET"
unfolding resolve_command_alias Map.lookup bytes_eq
alias = refl

abbrev session : Session
session = record { history = codes "PUT a 1" ∷ []; command_count = 1; requests = 1 }

-- The process does not survive a number that an `int` cannot hold.
crash : (handle_line session (codes "!2147483648")).1 ≡ Action.crashes
unfolding handle_line run_word stoi bytes_eq next_word
crash = refl

-- A second `!!` runs the first one, which is no command.
twice :
    (handle_line (handle_line session (codes "!!")).0 (codes "!!")).1
    ≡ runs (some (codes "!!")) (Command.unknown (codes "!!"))
unfolding handle_line run_word repeat_line run_line dispatch dispatch_admin dispatch_session
    resolve_command_alias bytes_eq next_word Map.lookup to_upper
twice = refl

value-IsPlain : IsPlain b'x' (codes " y")
unfolding trim_right
value-IsPlain = record { solid = refl; bare = refl; ends = refl; one_line = omega arith }

no_option : is_key_option (codes "b") ≡ false
unfolding to_upper bytes_eq
no_option = refl

put_line_stored_example :
    ((handle_line session (put_line (codes "b") (codes "x y"))).1
      ≡ runs none (Command.put (entry (codes "b") (codes "x y"))))
    × (run_command true (send_command (codes "PUT") (codes "b") (codes "x y")) (construct none)
        ≡ (put true (codes "b") (codes "x y") (construct none), codes "OK"))
put_line_stored_example =
    put_line_stored session true (construct none) b'b' [] b'x' (codes " y") (refl, tt) no_option
      value-IsPlain

-- The leader has the answer of the request in its table, so that it says what was stored then.
abbrev answered : World
answered = record world {
  node = record node {
    state = NodeState.leader;
    client_last_request = (codes "client-7", 3) ∷ [];
    client_result_cache = (codes "client-7", codes "OK") ∷ [];
  };
}

shows_ok :
    (handle_client_command env []
      (codes "client-7")
      3
      (codes "GET")
      (codes "x")
      []
      (count_client_request answered)).1
    ≡ text (codes "OK")
unfolding handle_client_command recall Map.lookup bytes_eq
shows_ok = refl

get_response_lem_example :
    get_response (codes "x") (
      some
        (client_request env []
          (message (codes "GET") (codes "client-7") 3 (codes "x") [])
          answered).1)
    ≡ (if bytes_eq (codes "OK") (codes "OK")
        then process_ends
        else if bytes_eq (codes "OK") (codes "key not found")
        then missing (codes "x")
        else value_of (codes "x") (codes "OK"))
get_response_lem_example =
    get_response_lem env [] (codes "client-7") 3 (codes "x") (codes "OK") answered refl shows_ok

-- The first two calls redirect, to node 1 and then to nobody; then nodes are unreachable.
abbrev network : ℕ → ℕ → Option Answer
network call asked =
    if ltb call 2 then some (if call == 0 then redirect (pos 1) else redirect minus_one) else none

all_redirect :
    (call node : ℕ)
    → (document : Answer) × (some (redirect minus_one) ≡ some document)
      × IsRedirect (standing_of document)
unfolding standing_of
all_redirect call asked = (redirect minus_one, refl, tt)

send_client_request_endless_example :
    send_client_request standing_of (λ call asked. some (redirect minus_one)) (λ k. k) 1000 0 ≡ none
send_client_request_endless_example =
    send_client_request_endless standing_of (λ call asked. some (redirect minus_one)) (λ k. k) 1000
      0 all_redirect

watch_mode_endless_example : watch_mode (λ _. false) (λ _. Poll.closed) 2 1000 ≡ none
unfolding stops_watch
watch_mode_endless_example =
    watch_mode_endless (λ _. false) (λ _. Poll.closed) 2 (λ _. refl) (λ _. refl) 1000
