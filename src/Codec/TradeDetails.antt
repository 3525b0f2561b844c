-- ===== src/Codec/TradeDetails.antt =====
-- src/types.cpp: the JSON form of `trade_details`.
use libtd.Base.{Result, ok, ◌>>=◌}
use libtd.Json.{JsonLib, int_at, int64_at, string_at, double_at}
use libtd.Types.Trade.{TradeDetails}

module _ {D : Type 0} (J : JsonLib D) where
  open J use {Json, of_int, of_bool, of_string, of_double, object}

  unfoldable pub from_json : Json → Result (TradeDetails D)
  from_json j = do
    position_id ← int64_at J j "PositionID"
    order_id ← int64_at J j "OrderID"
    market_id ← int_at J j "MarketID"
    quote_id ← int_at J j "QuoteID"
    opening_price ← double_at J j "OpeningPrice"
    stake ← double_at J j "Stake"
    direction ← string_at J j "Direction"
    creation_time ← string_at J j "CreationTime"
    creation_time_utc ← string_at J j "CreationTimeUTC"
    ok (record {
      position_id = position_id;
      order_id = order_id;
      market_id = market_id;
      quote_id = quote_id;
      opening_price = opening_price;
      stake = stake;
      direction = direction;
      creation_time = creation_time;
      creation_time_utc = creation_time_utc;
    })
