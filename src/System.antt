-- ===== src/System.antt =====
-- A client and a server at the two ends of a link.
pub mod Link
pub mod Replies
pub mod Commands
pub mod Packets
pub mod Reports
pub mod Groups
pub mod Interrogation
