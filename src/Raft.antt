-- ===== src/Raft.antt =====
-- src/raft_node.h, src/raft_node.cpp and the handlers of src/rpc_server.cpp.
pub mod State
pub mod Log
pub mod Persist
pub mod Role
pub mod Ballot
pub mod Vote
pub mod Apply
pub mod Snapshots
pub mod Append
pub mod Election
pub mod Install
pub mod Client
pub mod Heartbeat
pub mod Cluster
pub mod Answers
pub mod Timer
pub mod Threads
pub mod Rpc
pub mod Submit
pub mod Samples
mod Examples
