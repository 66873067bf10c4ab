-- ===== src/Frame.antt =====
-- The octets of a packet: how a received message is written out again, and how raw octets are read.
pub mod Encode
pub mod Decode
pub mod RoundTrip
pub mod Format
pub mod Explain
