-- ===== src/Scenarios.antt =====
-- Runs of the model at concrete inputs: tests, and the theorems applied where their conditions hold.
pub mod Points
pub mod Links
pub mod Clients
pub mod Peers
pub mod Servers
pub mod Callbacks
pub mod Systems
pub mod Securities
pub mod Locks
pub mod Hooked
pub mod Flagged
pub mod Values
