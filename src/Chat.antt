-- ===== src/Chat.antt =====
-- The chat room that a client runs: client/server_part.cpp.
pub mod Packages
pub mod Room
pub mod History
pub mod Silence
pub mod Members
