-- ===== src/Wire/Udp.antt =====
-- Messages over UDP: the packets, and the table of unfinished messages.
pub mod Packet
pub mod Table
pub mod Send
pub mod Sending
pub mod Returning
pub mod Receiving
pub mod Arrivals
pub mod Reassembly
