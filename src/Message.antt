-- ===== src/Message.antt =====
-- src/remote/message: the messages that come in and go out.
pub mod Incoming
pub mod Cursor
pub mod Causes
pub mod Conversions
pub mod Values
pub mod Objects
pub mod Acceptance
pub mod Outgoing
pub mod Elements
pub mod Decoded
pub mod Structures
pub mod Lifetime
