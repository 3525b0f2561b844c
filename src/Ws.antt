-- ===== src/Ws.antt =====
-- src/ws.cpp.
pub mod Streams
pub mod Socket
pub mod Pointers
