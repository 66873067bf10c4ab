-- ===== src/Server.antt =====
-- src/Server.cpp: the controlled station. `Registry` has the peers and their counter; the state of
-- the server, its answers to the messages of a peer and its reports are the other children.
pub mod Setup
pub mod Clock
pub mod Registry
pub mod Peers
pub mod Report
pub mod Packing
pub mod Groups
pub mod Replies
pub mod Handlers
pub mod Commands
pub mod Interrogation
pub mod Answers
pub mod Execution
pub mod LifeCycle
pub mod Sending
pub mod Running
pub mod Transmission
pub mod Collected
