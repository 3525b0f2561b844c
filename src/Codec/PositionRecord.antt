-- ===== src/Codec/PositionRecord.antt =====
-- src/types.cpp: the JSON form of `position_record`.
use libtd.Base.{◌≡◌, Result, ok, ◌>>=◌, [], ◌∷◌}
use libtd.Base.Int.{IsInt32, IsInt64}
use libtd.Json.{JsonLib, int_at, int64_at, string_at, bool_at, double_at, codec_laws}
use libtd.Types.Account.{PositionRecord}

-- Every integer field holds a value of its C++ type.
pub record FitsInt {D : Type 0} (p : PositionRecord D) : Type 0 where
  pub market_id : IsInt32 p.market_id
  pub order_id : IsInt64 p.order_id
  pub position_id : IsInt64 p.position_id
  pub prc_gen_decimal_places : IsInt32 p.prc_gen_decimal_places
  pub quote_id : IsInt64 p.quote_id

module _ {D : Type 0} (J : JsonLib D) where
  open J use {Json, of_int, of_bool, of_string, of_double, object}

  unfoldable pub to_json : PositionRecord D → Json
  to_json p = object (
      ("BetPer", of_double p.bet_per)
      ∷ ("CreationTime", of_string p.creation_time)
      ∷ ("CreationTimeUTC", of_string p.creation_time_utc)
      ∷ ("CurrencyCode", of_string p.currency_code)
      ∷ ("CurrencySymbol", of_string p.currency_symbol)
      ∷ ("CurrentPrice", of_string p.current_price)
      ∷ ("CurrentPriceDecimal", of_double p.current_price_decimal)
      ∷ ("Direction", of_string p.direction)
      ∷ ("ExpiryDateTime", of_string p.expiry_date_time)
      ∷ ("IMR", of_double p.imr)
      ∷ ("IsRollingMarket", of_bool p.is_rolling_market)
      ∷ ("IsTotal", of_bool p.is_total)
      ∷ ("IsTriggered", of_bool p.is_triggered)
      ∷ ("LimitOrderPrice", of_string p.limit_order_price)
      ∷ ("LimitOrderPriceDecimal", of_double p.limit_order_price_decimal)
      ∷ ("MarginFactor", of_double p.margin_factor)
      ∷ ("MarketID", of_int p.market_id)
      ∷ ("MarketName", of_string p.market_name)
      ∷ ("NotionalValue", of_double p.notional_value)
      ∷ ("OpenPL", of_double p.open_pl)
      ∷ ("OpeningPrice", of_string p.opening_price)
      ∷ ("OpeningPriceDecimal", of_double p.opening_price_decimal)
      ∷ ("OrderID", of_int p.order_id)
      ∷ ("OrderType", of_string p.order_type)
      ∷ ("PositionID", of_int p.position_id)
      ∷ ("PrcGenDecimalPlaces", of_int p.prc_gen_decimal_places)
      ∷ ("QuoteID", of_int p.quote_id)
      ∷ ("Stake", of_double p.stake)
      ∷ ("StopOrderPrice", of_string p.stop_order_price)
      ∷ ("StopOrderPriceDecimal", of_double p.stop_order_price_decimal)
      ∷ ("StopType", of_string p.stop_type)
      ∷ ("Tradable", of_bool p.tradable)
      ∷ ("Type", of_string p.type)
      ∷ [])

  unfoldable pub from_json : Json → Result (PositionRecord D)
  from_json j = do
    bet_per ← double_at J j "BetPer"
    creation_time ← string_at J j "CreationTime"
    creation_time_utc ← string_at J j "CreationTimeUTC"
    currency_code ← string_at J j "CurrencyCode"
    currency_symbol ← string_at J j "CurrencySymbol"
    current_price ← string_at J j "CurrentPrice"
    current_price_decimal ← double_at J j "CurrentPriceDecimal"
    direction ← string_at J j "Direction"
    expiry_date_time ← string_at J j "ExpiryDateTime"
    imr ← double_at J j "IMR"
    is_rolling_market ← bool_at J j "IsRollingMarket"
    is_total ← bool_at J j "IsTotal"
    is_triggered ← bool_at J j "IsTriggered"
    limit_order_price ← string_at J j "LimitOrderPrice"
    limit_order_price_decimal ← double_at J j "LimitOrderPriceDecimal"
    margin_factor ← double_at J j "MarginFactor"
    market_id ← int_at J j "MarketID"
    market_name ← string_at J j "MarketName"
    notional_value ← double_at J j "NotionalValue"
    open_pl ← double_at J j "OpenPL"
    opening_price ← string_at J j "OpeningPrice"
    opening_price_decimal ← double_at J j "OpeningPriceDecimal"
    order_id ← int64_at J j "OrderID"
    order_type ← string_at J j "OrderType"
    position_id ← int64_at J j "PositionID"
    prc_gen_decimal_places ← int_at J j "PrcGenDecimalPlaces"
    quote_id ← int64_at J j "QuoteID"
    stake ← double_at J j "Stake"
    stop_order_price ← string_at J j "StopOrderPrice"
    stop_order_price_decimal ← double_at J j "StopOrderPriceDecimal"
    stop_type ← string_at J j "StopType"
    tradable ← bool_at J j "Tradable"
    type ← string_at J j "Type"
    ok (record {
      bet_per = bet_per;
      creation_time = creation_time;
      creation_time_utc = creation_time_utc;
      currency_code = currency_code;
      currency_symbol = currency_symbol;
      current_price = current_price;
      current_price_decimal = current_price_decimal;
      direction = direction;
      expiry_date_time = expiry_date_time;
      imr = imr;
      is_rolling_market = is_rolling_market;
      is_total = is_total;
      is_triggered = is_triggered;
      limit_order_price = limit_order_price;
      limit_order_price_decimal = limit_order_price_decimal;
      margin_factor = margin_factor;
      market_id = market_id;
      market_name = market_name;
      notional_value = notional_value;
      open_pl = open_pl;
      opening_price = opening_price;
      opening_price_decimal = opening_price_decimal;
      order_id = order_id;
      order_type = order_type;
      position_id = position_id;
      prc_gen_decimal_places = prc_gen_decimal_places;
      quote_id = quote_id;
      stake = stake;
      stop_order_price = stop_order_price;
      stop_order_price_decimal = stop_order_price_decimal;
      stop_type = stop_type;
      tradable = tradable;
      type = type;
    })

  -- What `to_json` writes, `from_json` reads back with no field changed, if the integers fit.
  pub from_json-to_json : (p : PositionRecord D) → FitsInt p → from_json (to_json p) ≡ ok p
  unfolding from_json to_json
  from_json-to_json p h =
      simp (
        codec_laws, J, h.market_id, h.order_id, h.position_id, h.prc_gen_decimal_places, h.quote_id,
      )
