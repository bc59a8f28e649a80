-- ===== src/Raft/Rpc.antt =====
-- The texts that the nodes send one another: the messages as JSON documents, and the handler and
-- the callers that write and read them (src/rpc_server.cpp, src/raft_node.h, src/raft_node.cpp).
pub mod Library
pub mod Messages
pub mod Documents
pub mod Handler
pub mod RoundTrip
pub mod Wire
pub mod Exchange
pub mod Sample
pub mod Overflow
mod Examples
