-- ===== src/Wire.antt =====
-- The wire format and the transports: socket.h and socket.cpp.
pub mod Bytes
pub mod Package
pub mod Codec
pub mod Udp
pub mod Delivery
pub mod Tcp
