-- ===== src/Client.antt =====
-- The client of the BBS: what it asks of the server, and its commands.
pub mod Requests
pub mod Tasks
pub mod Handling
pub mod Service
pub mod Carried
pub mod Patterns
pub mod Breaks
pub mod Commands
pub mod Deeds
pub mod Chatting
pub mod Speaking
pub mod Told
pub mod Lines
pub mod Typing
