-- ===== src/Types.antt =====
-- include/td365/types.h.
pub mod Market
pub mod Account
pub mod Trade
pub mod Order
pub mod Candle
pub mod Tick
pub mod Event
