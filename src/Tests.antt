-- ===== src/Tests.antt =====
-- Concrete libraries and inputs, and the theorems applied to them.
pub mod Library
pub mod Network
pub mod Requests
pub mod Portal
pub mod Values
pub mod Codecs
pub mod Lines
pub mod Sessions
pub mod Logins
pub mod Cookies
pub mod Waits
pub mod Whole
pub mod Trades
pub mod Demo
pub mod Sockets
pub mod Trading
