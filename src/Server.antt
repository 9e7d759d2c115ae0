-- ===== src/Server.antt =====
-- The server's handlers and their dispatch: server/server.cpp.
pub mod State
pub mod Sessions
pub mod Boards
pub mod Rooms
pub mod Dispatch
pub mod Invariant
pub mod Serving
pub mod Tokens
pub mod Access
pub mod Faults
pub mod Identity
pub mod Accounts
pub mod Unordered
pub mod Connection
