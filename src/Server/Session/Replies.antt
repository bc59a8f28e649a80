-- ===== src/Server/Session/Replies.antt =====
-- What handle_client answers to PUT, GET and DELETE once sendClientRequest has come back, and what
-- a GET shows.
use kv_store_project.Prelude.{ℕ, ◌≡◌, true, List, Option, none, some, arith, if◌then◌else◌, []}
use kv_store_project.Prelude.Int.{ℤ}
use kv_store_project.Prelude.Text.{Bytes, codes, bytes_eq}
use kv_store_project.Raft.State.{World, Env}
use kv_store_project.Raft.Client.{PeerReply, text, is_leader, handle_client_command}
use kv_store_project.Raft.Answers.{
  Answer, redirect, ok, ok_value, failure, invalid_json, Request, client_request,
  count_client_request, answer_result,
}
use kv_store_project.Server.Request.{Standing}

-- The texts, and the end of the process by an exception that nothing catches
pub data Response : Type 0 where
  added cannot_add deleted missing : Bytes → Response
  value_of : Bytes → Bytes → Response
  to_leader : ℤ → Response
  process_ends : Response

-- The message for a command of the client with this name and number
abbrev pub message : Bytes → Bytes → ℕ → Bytes → Bytes → Request
message command client_id request_id key value = record {
  command = command;
  key = key;
  value = value;
  client_id = client_id;
  request_id = request_id;
}

-- The member "status" of an answer to a client's request
unfoldable pub standing_of : Answer → Standing
standing_of (redirect (ℤ.pos leader)) = Standing.redirected (some leader)
standing_of (redirect (ℤ.negsuc _)) = Standing.redirected none
standing_of ok = Standing.accepted
standing_of (ok_value _) = Standing.accepted
standing_of (failure _) = Standing.refused
standing_of invalid_json = Standing.refused

-- `none` stands for "All nodes unreachable".
unfoldable pub put_response : Bytes → Option Answer → Response
put_response key (some ok) = added key
put_response key (some (ok_value _)) = added key
put_response key (some (redirect leader)) = to_leader leader
put_response key _ = cannot_add key

-- An answer without the member "value" makes `get<std::string>` throw.
unfoldable pub get_response : Bytes → Option Answer → Response
get_response key (some ok) = process_ends
get_response key (some (ok_value value)) = value_of key value
get_response key (some (redirect leader)) = to_leader leader
get_response key _ = missing key

unfoldable pub delete_response : Bytes → Option Answer → Response
delete_response key (some ok) = deleted key
delete_response key (some (ok_value _)) = deleted key
delete_response key (some (redirect leader)) = to_leader leader
delete_response key _ = missing key

answer_get :
    (key result : Bytes) (w : World)
    → get_response key (some (answer_result (codes "GET") (text result) w).1) ≡ (
        if bytes_eq result (codes "OK")
        then process_ends
        else if bytes_eq result (codes "key not found")
        then missing key
        else value_of key result)
unfolding answer_result get_response bytes_eq
answer_get key result w = ground arith

-- What a GET shows, where the leader's state machine or the leader itself has answered with a text:
-- a text that is not "key not found" is shown as the value, also where it is an error text of the
-- leader; the text "OK", which a stored value can be, ends the process.
pub get_response_lem :
    (env : Env) (replies : List (Option PeerReply)) (client_id : Bytes) (request_id : ℕ)
    (key result : Bytes) (w : World)
    → is_leader w.node.state ≡ true
    → (handle_client_command env replies client_id request_id
        (codes "GET")
        key
        []
        (count_client_request w)).1
      ≡ text result
    → get_response key
        (some (client_request env replies (message (codes "GET") client_id request_id key []) w).1)
      ≡ (if bytes_eq result (codes "OK")
          then process_ends
          else if bytes_eq result (codes "key not found")
          then missing key
          else value_of key result)
unfolding client_request
get_response_lem env replies client_id request_id key result w leads answer =
    let w1 =
      (handle_client_command env replies client_id request_id (codes "GET") key []
        (count_client_request w)).0 in
    rw (leads, answer) (answer_get key result w1)
