-- ===== src/Lib.antt =====
-- A distributed key-value store: several nodes keep one log by the Raft protocol, apply its entries
-- to a map, and answer clients over TCP. A process holds the nodes, the map with its write-ahead
-- log, and two files for each node, the metadata and the latest snapshot. The program runs its
-- three nodes in one process, over one store (the global of src/kvstore.cpp): a `World` below is
-- one of the nodes with that store, and the other nodes rest while a handler runs. All paths below
-- are those of the repository.
--
-- Which file models which part:
--   Prelude: shared names, lists with `length`, `take` and `get_elem?` over the native numbers,
--     `int` as Int.ℤ, `std::string` as a list of bytes, maps as association lists, little-endian
--     words, and `>>` and `getline` on a stream.
--   Base64: src/decode_encodebase64.cpp, base64Encode and base64Decode.
--   LogEntry: src/log_entry.h, toBinary and fromBinary.
--   Wal: src/wal.cpp. The log is its file, its cache and its counter. WAL::WAL is `open_wal`,
--     appendEntry is `append_entry`, truncateUpTo is `truncate_up_to`.
--   KvStore: src/kvstore.cpp, the map with its log. The constructor, which replays the log, is
--     `construct`.
--   Raft.State: the fields of RaftNode in src/raft_node.h, src/metrics.h and src/snapshot.h. A
--     `World` is a node, the store of its process, and its two files.
--   Raft.Log: getLogTerm, getLogSize, getLogEntries, appendLogEntry and truncateLogSafe of
--     src/raft_node.cpp, and truncateLog of src/snapshot.cpp.
--   Raft.Persist: src/persist_functions.cpp, the files of src/snapshot.cpp, and the start of a
--     process.
--   Raft.Role: becomeFollower, reset_timeout and the lines that step down.
--   Raft.Vote: the RequestVote handler of src/rpc_server.cpp.
--   Raft.Append: the AppendEntries handler.
--   Raft.Threads: these two handlers as threads that share the mutex `mtx` of src/raft_node.h.
--   Raft.Apply: applyToStateMachine and the loop that applies what is committed.
--   Raft.Snapshots: triggerSnapshot and the lines of it that other functions repeat.
--   Raft.Election: start_election. Raft.Election.Ballots puts the handlers, the elections, the
--     restarts and the other operations together as the steps of one node (`Step`, `Run`).
--   Raft.Heartbeat: send_heartbeats, the turn of one peer and a round over all; `exchange` is a
--     turn with the AppendEntries handler of the peer at the other end.
--   Raft.Cluster: the three nodes of raftAlgorithm and an election among them, with the RequestVote
--     handlers of the peers at the other end.
--   Raft.Client: handleClientCommand.
--   Raft.Install: serializeSnapshot, deserializeSnapshot, the chunks of a transfer and the
--     InstallSnapshot handler. Raft.Heartbeat.Transfer puts the leader's side and the peer's together.
--   Raft.Submit: handleClientCommand with the AppendEntries handlers of the peers at the other end.
--   Raft.Rpc: the messages as texts: to_json and from_json, the answers as documents, the whole of
--     handle_node_client from the text to the answer, and sendRPC. nlohmann::json is the parameter
--     Raft.Rpc.Library.Library with the laws IsLawful; Raft.Rpc.Sample is an instance of them.
--   Server: handle_client of src/server.cpp and its helpers. Server.Parse has the parsers of a line,
--     Server.Request sendClientRequest, Server.Session the history and the commands, Server.Display
--     what the screens show of an answer, and Server.Watch the loop of WATCH.
--   Logger: src/logger.h and src/logger.cpp; what the other parts log is left out of their models.
--   Raft.Ballot: what every handler must keep of the term and the vote.
-- The files `Examples` run the definitions and the theorems on concrete data.
--
-- A handler is a function from a World to a World with its answer, so one handler runs at a time;
-- where the code leaves the mutex, Raft.Threads has the steps of the threads between which others
-- run. A handler that waits for a mutex it holds itself answers `blocked`, and only Raft.Threads
-- models that it keeps the mutex. What a handler finds around
-- it (the clock, rand(), whether the file of the write-ahead log opens) is an `Env`.
--
-- Numbers: terms, indices and counters are ℕ and `int` values that can be -1 are ℤ; an `int` that
-- would overflow is not modelled there. The codecs and the counter of the write-ahead log keep
-- their widths written out (`% 2 ^ 32`, `% 2 ^ 64`).
--
-- Loops: Wal.load_loop takes as fuel the length of the file, of which every record takes twenty
-- bytes; Base64.sextet_loop takes `valb + 1` rounds, each of which takes 6 off `valb`, and pad_loop
-- three; Raft.Install.receive_chunks and Raft.Heartbeat.send_chunks take the number of chunks;
-- Server.Parse.parse_options takes the length of the text, of which every round reads a character;
-- Server.Request.request_loop takes the number of calls to look at, and four more than those that
-- may redirect are enough; Server.Watch.watch_loop takes the number of rounds, and one more than the
-- refreshes is enough where every METRICS is answered; Raft.Apply.apply_loop takes `commitIndex -
-- lastApplied` rounds, the exact number. The other loops are recursion on the list they walk.
--
-- Not modelled: sockets, the other threads, timers and the process (src/main.cpp, the listening
-- loops of src/rpc_server.cpp and src/server.cpp), shutdownNode, the frames around what the server
-- shows, the texts of HELP, HISTORY and STATS, and Metrics::toString. nlohmann::json is a parameter
-- in Raft.Rpc and Server.Display; in the other modules its documents are the records of their
-- members. Writing the metadata and the snapshot to disk succeeds, also where `dump` would throw on
-- a text that is not UTF-8.
mod Prelude
pub mod Base64
pub mod LogEntry
pub mod Wal
pub mod KvStore
pub mod Raft
pub mod Logger
pub mod Server
