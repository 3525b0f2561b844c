-- ===== src/Authenticator.antt =====
-- src/authenticator.cpp.
pub mod Token
pub mod Accounts
pub mod Login
pub mod TokenFile
pub mod Caching
