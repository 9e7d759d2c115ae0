-- ===== src/Database.antt =====
-- The in-memory part of the server's database: server/database.h and server/database.cpp.
pub mod Types
pub mod Users
pub mod Accounts
pub mod Registrations
pub mod Injection
pub mod Boards
pub mod Posts
pub mod Rooms
pub mod Listing
pub mod Calls
pub mod Invariant
pub mod Changes
pub mod Pages
pub mod Reading
pub mod Safety
pub mod Ownership
