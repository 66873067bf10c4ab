-- ===== src/Client.antt =====
-- src/Client.cpp: the controlling station, with its connections and its loop.
pub mod Remotes
pub mod Loop
pub mod Recovery
pub mod Stopping
pub mod Hooks
pub mod Interrupted
pub mod Known
pub mod Setup
pub mod Timeouts
pub mod Reports
pub mod Delivery
pub mod Messages
pub mod Transmit
pub mod Addresses
