-- ===== src/Types/Trade.antt =====
-- include/td365/types.h: requests to trade and what comes back. `D` stands for `double`.
use libtd.Base.{Bool}
use libtd.Base.Int.{ℤ}
use libtd.Text.{Bytes}

-- `trade_request::direction`.
pub data Direction : Type 0 where
  buy sell : Direction

pub record TradeRequest (D : Type 0) : Type 0 where
  pub dir : Direction
  pub market_id : ℤ
  pub quote_id : ℤ
  pub price : D
  pub stake : D
  pub stop : D
  pub limit : D
  pub key : Bytes

pub record TradeResponse : Type 0 where
  pub accepted : Bool
  pub message : Bytes
  pub order_id : ℤ
  pub status_code : ℤ

pub record TradeDetails (D : Type 0) : Type 0 where
  pub position_id : ℤ
  pub order_id : ℤ
  pub market_id : ℤ
  pub quote_id : ℤ
  pub opening_price : D
  pub stake : D
  pub direction : Bytes
  pub creation_time : Bytes
  pub creation_time_utc : Bytes

pub record RequestTradeSimulate (D : Type 0) : Type 0 where
  pub market_id : ℤ
  pub quote_id : ℤ
  pub price : D
  pub stake : D
  pub trade_type : ℤ
  pub trade_mode : Bool
  pub has_closing_order : Bool
  pub is_guaranteed : Bool
  pub order_mode_id : ℤ
  pub order_type_id : ℤ
  pub order_price_mode_id : ℤ
  pub limit_order_price : Bytes
  pub stop_order_price : Bytes
  pub trailing_point : ℤ
  pub close_position_id : ℤ
  pub is_kaazing_feed : Bool
  pub user_agent : Bytes
  pub key : Bytes
