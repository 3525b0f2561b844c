-- ===== src/Codec.antt =====
-- src/types.cpp: the JSON form of each type, a module to a type.
pub mod MarketGroup
pub mod Market
pub mod MarketDetails
pub mod ClientWebOptionInfo
pub mod TradeDetails
pub mod RequestTradeSimulate
pub mod Candle
pub mod AccountSummary
pub mod AlertList
pub mod CurrencyRecord
pub mod OpeningOrders
pub mod PositionRecord
pub mod CurrencySet
pub mod PositionSet
pub mod AccountDetails
pub mod MarketDetailsResponse
pub mod TradeResponse
pub mod Tick
pub mod RoundTrips
