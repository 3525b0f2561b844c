-- ===== src/RestApi.antt =====
-- src/rest_api.cpp.
pub mod Urls
pub mod Pages
pub mod Client
pub mod Bodies
pub mod Redirection
pub mod Calls
pub mod Connecting
pub mod Trading
pub mod Backfill
pub mod Placing
