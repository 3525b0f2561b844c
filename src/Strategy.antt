-- ===== src/Strategy.antt =====
-- examples/trade_test.cpp: a program that trades on the candles it builds from the ticks of one market.
pub mod Candles
pub mod Aggregation
pub mod Signals
pub mod Alerts
pub mod Trader
pub mod Keeping
pub mod Running
pub mod Filling
