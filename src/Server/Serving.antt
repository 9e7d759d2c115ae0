-- ===== src/Server/Serving.antt =====
-- The server's invariant is kept, handler by handler, and over any sequence of packages.
pub mod Rules
pub mod Boards
pub mod Rooms
pub mod Sessions
pub mod Events
