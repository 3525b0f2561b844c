-- ===== src/Td365.antt =====
-- src/td365.cpp and include/td365/td365.h.
pub mod State
pub mod Wait
pub mod Connecting
pub mod Methods
pub mod Waiting
pub mod Noting
pub mod Session
pub mod Ending
pub mod Timeouts
