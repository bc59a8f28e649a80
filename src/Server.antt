-- ===== src/Server.antt =====
-- src/server.cpp: the text commands of the TCP server.
pub mod Parse
pub mod Request
pub mod Session
pub mod Watch
pub mod Display
mod Examples
