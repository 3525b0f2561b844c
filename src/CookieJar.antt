-- ===== src/CookieJar.antt =====
-- src/cookiejar.cpp and include/td365/cookiejar.h, but for the file that the jar is kept in.
pub mod Headers
pub mod Jar
pub mod Lookup
pub mod RequestHeader
pub mod File
pub mod Storage
pub mod Abstract
