-- ===== src/Raft/Answers/Examples.antt =====
-- Answers of a leader.
use kv_store_project.Prelude.{◌≡◌, ◌++◌, [], length, take}
use kv_store_project.Prelude.Int.{pos}
use kv_store_project.Prelude.Text.{codes}
use kv_store_project.Raft.Samples.{env, node, world}
use kv_store_project.Raft.Answers.{Request, client_request, get_logs}
use kv_store_project.Raft.Answers.Counts.{IsCounted, client_request-IsCounted}
use kv_store_project.Raft.Answers.Reports.{get_logs_lem}

abbrev put_b : Request
put_b = record {
  command = codes "PUT";
  key = codes "b";
  value = codes "1";
  client_id = codes "client-7";
  request_id = 1;
}

-- The node is a follower, which redirects.
client_request-IsCounted_example :
    IsCounted
      (client_request env [] put_b world).1
      world.node.metrics
      (client_request env [] put_b world).0.node.metrics
client_request-IsCounted_example = client_request-IsCounted env [] put_b world

get_logs_lem_example :
    let answer = get_logs (pos 1) node in
    (answer.returned_count ≡ 1)
    × (length answer.logs ≡ answer.returned_count)
    × (take 1 node.log ++ answer.logs ≡ node.log)
get_logs_lem_example = get_logs_lem 1 node
