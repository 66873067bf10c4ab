-- ===== src/Connection.antt =====
-- src/remote/Connection.cpp: the client's end of one link. `State` has its state, `Link` the
-- operations that move it, `Pending` the map of awaited answers, `Command` the commands that wait.
pub mod State
pub mod Pending
pub mod Link
pub mod Names
pub mod Command
pub mod Safety
pub mod Handshake
pub mod Answers
pub mod Sending
pub mod Staying
