-- ===== src/HttpClient.antt =====
-- src/http_client.cpp, and the helpers of src/utils.cpp that go with it.
pub mod Boost
pub mod Requests
pub mod Debug
pub mod Client
pub mod Keeping
pub mod Exchange
pub mod Interface
pub mod Service
