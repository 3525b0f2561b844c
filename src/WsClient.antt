-- ===== src/WsClient.antt =====
-- src/ws_client.cpp and include/td365/ws_client.h.
pub mod State
pub mod Requests
pub mod Subscriptions
pub mod PayloadTypes
pub mod Payloads
pub mod Messages
pub mod Connect
pub mod Loop
pub mod Keeps
pub mod Sync
pub mod Protocol
pub mod Deadline
pub mod Delivery
pub mod Prices
