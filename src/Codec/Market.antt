-- ===== src/Codec/Market.antt =====
-- src/types.cpp: the JSON form of `market`.
use libtd.Base.{◌≡◌, Result, ok, ◌>>=◌, [], ◌∷◌}
use libtd.Base.Int.{IsInt32}
use libtd.Json.{JsonLib, int_at, string_at, bool_at, double_at, codec_laws}
use libtd.Types.Market.{Market}

-- Every integer field holds a value of its C++ type.
pub record FitsInt {D : Type 0} (m : Market D) : Type 0 where
  pub market_id : IsInt32 m.market_id
  pub quote_id : IsInt32 m.quote_id
  pub at_quote_at_market : IsInt32 m.at_quote_at_market
  pub exchange_id : IsInt32 m.exchange_id
  pub prc_gen_fractional_price : IsInt32 m.prc_gen_fractional_price
  pub prc_gen_decimal_places : IsInt32 m.prc_gen_decimal_places
  pub is_gsl_percent : IsInt32 m.is_gsl_percent
  pub allow_gtds_stops : IsInt32 m.allow_gtds_stops
  pub is_gsl_charge_percent : IsInt32 m.is_gsl_charge_percent
  pub trade_rate_type : IsInt32 m.trade_rate_type
  pub super_group_id : IsInt32 m.super_group_id

module _ {D : Type 0} (J : JsonLib D) where
  open J use {Json, of_int, of_bool, of_string, of_double, object}

  unfoldable pub to_json : Market D → Json
  to_json m = object (
      ("MarketID", of_int m.market_id)
      ∷ ("QuoteID", of_int m.quote_id)
      ∷ ("AtQuoteAtMarket", of_int m.at_quote_at_market)
      ∷ ("ExchangeID", of_int m.exchange_id)
      ∷ ("PrcGenFractionalPrice", of_int m.prc_gen_fractional_price)
      ∷ ("PrcGenDecimalPlaces", of_int m.prc_gen_decimal_places)
      ∷ ("High", of_double m.high)
      ∷ ("Low", of_double m.low)
      ∷ ("DailyChange", of_double m.daily_change)
      ∷ ("Bid", of_double m.bid)
      ∷ ("Ask", of_double m.ask)
      ∷ ("BetPer", of_double m.bet_per)
      ∷ ("IsGSLPercent", of_int m.is_gsl_percent)
      ∷ ("GSLDis", of_double m.gsl_dis)
      ∷ ("MinCloseOrderDisTicks", of_double m.min_close_order_dis_ticks)
      ∷ ("MinOpenOrderDisTicks", of_double m.min_open_order_dis_ticks)
      ∷ ("DisplayBetPer", of_double m.display_bet_per)
      ∷ ("IsInPortfolio", of_bool m.is_in_portfolio)
      ∷ ("Tradable", of_bool m.tradable)
      ∷ ("TradeOnWeb", of_bool m.trade_on_web)
      ∷ ("CallOnly", of_bool m.call_only)
      ∷ ("MarketName", of_string m.market_name)
      ∷ ("TradeStartTime", of_string m.trade_start_time)
      ∷ ("Currency", of_string m.currency)
      ∷ ("AllowGtdsStops", of_int m.allow_gtds_stops)
      ∷ ("ForceOpen", of_bool m.force_open)
      ∷ ("Margin", of_double m.margin)
      ∷ ("MarginType", of_bool m.margin_type)
      ∷ ("GSLCharge", of_double m.gsl_charge)
      ∷ ("IsGSLChargePercent", of_int m.is_gsl_charge_percent)
      ∷ ("Spread", of_double m.spread)
      ∷ ("TradeRateType", of_int m.trade_rate_type)
      ∷ ("OpenTradeRate", of_double m.open_trade_rate)
      ∷ ("CloseTradeRate", of_double m.close_trade_rate)
      ∷ ("MinOpenTradeRate", of_double m.min_open_trade_rate)
      ∷ ("MinCloseTradeRate", of_double m.min_close_trade_rate)
      ∷ ("PriceDecimal", of_double m.price_decimal)
      ∷ ("Subscription", of_bool m.subscription)
      ∷ ("SuperGroupID", of_int m.super_group_id)
      ∷ [])

  unfoldable pub from_json : Json → Result (Market D)
  from_json j = do
    market_id ← int_at J j "MarketID"
    quote_id ← int_at J j "QuoteID"
    at_quote_at_market ← int_at J j "AtQuoteAtMarket"
    exchange_id ← int_at J j "ExchangeID"
    prc_gen_fractional_price ← int_at J j "PrcGenFractionalPrice"
    prc_gen_decimal_places ← int_at J j "PrcGenDecimalPlaces"
    high ← double_at J j "High"
    low ← double_at J j "Low"
    daily_change ← double_at J j "DailyChange"
    bid ← double_at J j "Bid"
    ask ← double_at J j "Ask"
    bet_per ← double_at J j "BetPer"
    is_gsl_percent ← int_at J j "IsGSLPercent"
    gsl_dis ← double_at J j "GSLDis"
    min_close_order_dis_ticks ← double_at J j "MinCloseOrderDisTicks"
    min_open_order_dis_ticks ← double_at J j "MinOpenOrderDisTicks"
    display_bet_per ← double_at J j "DisplayBetPer"
    is_in_portfolio ← bool_at J j "IsInPortfolio"
    tradable ← bool_at J j "Tradable"
    trade_on_web ← bool_at J j "TradeOnWeb"
    call_only ← bool_at J j "CallOnly"
    market_name ← string_at J j "MarketName"
    trade_start_time ← string_at J j "TradeStartTime"
    currency ← string_at J j "Currency"
    allow_gtds_stops ← int_at J j "AllowGtdsStops"
    force_open ← bool_at J j "ForceOpen"
    margin ← double_at J j "Margin"
    margin_type ← bool_at J j "MarginType"
    gsl_charge ← double_at J j "GSLCharge"
    is_gsl_charge_percent ← int_at J j "IsGSLChargePercent"
    spread ← double_at J j "Spread"
    trade_rate_type ← int_at J j "TradeRateType"
    open_trade_rate ← double_at J j "OpenTradeRate"
    close_trade_rate ← double_at J j "CloseTradeRate"
    min_open_trade_rate ← double_at J j "MinOpenTradeRate"
    min_close_trade_rate ← double_at J j "MinCloseTradeRate"
    price_decimal ← double_at J j "PriceDecimal"
    subscription ← bool_at J j "Subscription"
    super_group_id ← int_at J j "SuperGroupID"
    ok (record {
      market_id = market_id;
      quote_id = quote_id;
      at_quote_at_market = at_quote_at_market;
      exchange_id = exchange_id;
      prc_gen_fractional_price = prc_gen_fractional_price;
      prc_gen_decimal_places = prc_gen_decimal_places;
      high = high;
      low = low;
      daily_change = daily_change;
      bid = bid;
      ask = ask;
      bet_per = bet_per;
      is_gsl_percent = is_gsl_percent;
      gsl_dis = gsl_dis;
      min_close_order_dis_ticks = min_close_order_dis_ticks;
      min_open_order_dis_ticks = min_open_order_dis_ticks;
      display_bet_per = display_bet_per;
      is_in_portfolio = is_in_portfolio;
      tradable = tradable;
      trade_on_web = trade_on_web;
      call_only = call_only;
      market_name = market_name;
      trade_start_time = trade_start_time;
      currency = currency;
      allow_gtds_stops = allow_gtds_stops;
      force_open = force_open;
      margin = margin;
      margin_type = margin_type;
      gsl_charge = gsl_charge;
      is_gsl_charge_percent = is_gsl_charge_percent;
      spread = spread;
      trade_rate_type = trade_rate_type;
      open_trade_rate = open_trade_rate;
      close_trade_rate = close_trade_rate;
      min_open_trade_rate = min_open_trade_rate;
      min_close_trade_rate = min_close_trade_rate;
      price_decimal = price_decimal;
      subscription = subscription;
      super_group_id = super_group_id;
    })

  -- from_json reads back the market that to_json writes, if the integers fit.
  pub from_json-market : (m : Market D) → FitsInt m → from_json (to_json m) ≡ ok m
  unfolding from_json to_json
  from_json-market m h = simp (
    codec_laws, J, h.market_id, h.quote_id, h.at_quote_at_market, h.exchange_id,
    h.prc_gen_fractional_price, h.prc_gen_decimal_places, h.is_gsl_percent, h.allow_gtds_stops,
    h.is_gsl_charge_percent, h.trade_rate_type, h.super_group_id,
  )
