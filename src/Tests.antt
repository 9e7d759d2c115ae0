-- ===== src/Tests.antt =====
-- Runs of the model, and the theorems at concrete inputs.
pub mod Database
pub mod Server
pub mod Accounts
pub mod Chat
pub mod Client
pub mod Wire
pub mod Sockets
pub mod Startup
pub mod Connection
pub mod Carried
pub mod Text
