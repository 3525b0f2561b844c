-- ===== src/Codec/RequestTradeSimulate.antt =====
-- src/types.cpp: the JSON form of `request_trade_simulate`.
use libtd.Base.{◌≡◌, Result, ok, ◌>>=◌, [], ◌∷◌}
use libtd.Base.Int.{IsInt32}
use libtd.Json.{JsonLib, int_at, string_at, bool_at, double_at, codec_laws}
use libtd.Types.Trade.{RequestTradeSimulate}

-- Every integer field holds a value of its C++ type.
pub record FitsInt {D : Type 0} (r : RequestTradeSimulate D) : Type 0 where
  pub market_id : IsInt32 r.market_id
  pub quote_id : IsInt32 r.quote_id
  pub trade_type : IsInt32 r.trade_type
  pub order_mode_id : IsInt32 r.order_mode_id
  pub order_type_id : IsInt32 r.order_type_id
  pub order_price_mode_id : IsInt32 r.order_price_mode_id
  pub trailing_point : IsInt32 r.trailing_point
  pub close_position_id : IsInt32 r.close_position_id

module _ {D : Type 0} (J : JsonLib D) where
  open J use {Json, of_int, of_bool, of_string, of_double, object}

  unfoldable pub to_json : RequestTradeSimulate D → Json
  to_json r = object (
      ("marketID", of_int r.market_id)
      ∷ ("quoteID", of_int r.quote_id)
      ∷ ("price", of_double r.price)
      ∷ ("stake", of_double r.stake)
      ∷ ("tradeType", of_int r.trade_type)
      ∷ ("tradeMode", of_bool r.trade_mode)
      ∷ ("hasClosingOrder", of_bool r.has_closing_order)
      ∷ ("isGuaranteed", of_bool r.is_guaranteed)
      ∷ ("orderModeID", of_int r.order_mode_id)
      ∷ ("orderTypeID", of_int r.order_type_id)
      ∷ ("orderPriceModeID", of_int r.order_price_mode_id)
      ∷ ("limitOrderPrice", of_string r.limit_order_price)
      ∷ ("stopOrderPrice", of_string r.stop_order_price)
      ∷ ("trailingPoint", of_int r.trailing_point)
      ∷ ("closePositionID", of_int r.close_position_id)
      ∷ ("isKaazingFeed", of_bool r.is_kaazing_feed)
      ∷ ("userAgent", of_string r.user_agent)
      ∷ ("key", of_string r.key)
      ∷ [])

  unfoldable pub from_json : Json → Result (RequestTradeSimulate D)
  from_json j = do
    market_id ← int_at J j "marketID"
    quote_id ← int_at J j "quoteID"
    price ← double_at J j "price"
    stake ← double_at J j "stake"
    trade_type ← int_at J j "tradeType"
    trade_mode ← bool_at J j "tradeMode"
    has_closing_order ← bool_at J j "hasClosingOrder"
    is_guaranteed ← bool_at J j "isGuaranteed"
    order_mode_id ← int_at J j "orderModeID"
    order_type_id ← int_at J j "orderTypeID"
    order_price_mode_id ← int_at J j "orderPriceModeID"
    limit_order_price ← string_at J j "limitOrderPrice"
    stop_order_price ← string_at J j "stopOrderPrice"
    trailing_point ← int_at J j "trailingPoint"
    close_position_id ← int_at J j "closePositionID"
    is_kaazing_feed ← bool_at J j "isKaazingFeed"
    user_agent ← string_at J j "userAgent"
    key ← string_at J j "key"
    ok (record {
      market_id = market_id;
      quote_id = quote_id;
      price = price;
      stake = stake;
      trade_type = trade_type;
      trade_mode = trade_mode;
      has_closing_order = has_closing_order;
      is_guaranteed = is_guaranteed;
      order_mode_id = order_mode_id;
      order_type_id = order_type_id;
      order_price_mode_id = order_price_mode_id;
      limit_order_price = limit_order_price;
      stop_order_price = stop_order_price;
      trailing_point = trailing_point;
      close_position_id = close_position_id;
      is_kaazing_feed = is_kaazing_feed;
      user_agent = user_agent;
      key = key;
    })

  -- from_json reads back the simulated trade request that to_json writes, if the integers fit.
  pub from_json-simulation : (r : RequestTradeSimulate D) → FitsInt r → from_json (to_json r) ≡ ok r
  unfolding from_json to_json
  from_json-simulation r h = simp (
    codec_laws, J, h.market_id, h.quote_id, h.trade_type, h.order_mode_id, h.order_type_id,
    h.order_price_mode_id, h.trailing_point, h.close_position_id,
  )
