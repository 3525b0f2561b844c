-- ===== src/Codec/MarketDetails.antt =====
-- src/types.cpp: the JSON form of `market_details`.
use libtd.Base.{Result, ok, ◌>>=◌}
use libtd.Json.{JsonLib, int_at, string_at, bool_at, double_at}
use libtd.Types.Market.{MarketDetails}

module _ {D : Type 0} (J : JsonLib D) where
  open J use {Json, of_int, of_bool, of_string, of_double, object}

  unfoldable pub from_json : Json → Result (MarketDetails D)
  from_json j = do
    market_id ← int_at J j "MarketID"
    quote_id ← int_at J j "QuoteID"
    at_quote_at_market ← int_at J j "AtQuoteAtMarket"
    exchange_id ← int_at J j "ExchangeID"
    prc_gen_fractional_price ← int_at J j "PrcGenFractionalPrice"
    prc_gen_decimal_places ← int_at J j "PrcGenDecimalPlaces"
    high ← double_at J j "High"
    low ← double_at J j "Low"
    daily_change ← double_at J j "DailyChange"
    bid ← double_at J j "Bid"
    ask ← double_at J j "Ask"
    bet_per ← double_at J j "BetPer"
    is_gsl_percent ← int_at J j "IsGSLPercent"
    gsl_dis ← double_at J j "GSLDis"
    min_close_order_dis_ticks ← double_at J j "MinCloseOrderDisTicks"
    min_open_order_dis_ticks ← double_at J j "MinOpenOrderDisTicks"
    display_bet_per ← double_at J j "DisplayBetPer"
    is_in_portfolio ← bool_at J j "IsInPortfolio"
    tradable ← bool_at J j "Tradable"
    trade_on_web ← bool_at J j "TradeOnWeb"
    call_only ← bool_at J j "CallOnly"
    market_name ← string_at J j "MarketName"
    trade_start_time ← string_at J j "TradeStartTime"
    currency ← string_at J j "Currency"
    allow_gtds_stops ← int_at J j "AllowGtdsStops"
    force_open ← bool_at J j "ForceOpen"
    margin ← double_at J j "Margin"
    margin_type ← bool_at J j "MarginType"
    gsl_charge ← double_at J j "GSLCharge"
    is_gsl_charge_percent ← int_at J j "IsGSLChargePercent"
    spread ← double_at J j "Spread"
    trade_rate_type ← int_at J j "TradeRateType"
    open_trade_rate ← double_at J j "OpenTradeRate"
    close_trade_rate ← double_at J j "CloseTradeRate"
    min_open_trade_rate ← double_at J j "MinOpenTradeRate"
    min_close_trade_rate ← double_at J j "MinCloseTradeRate"
    price_decimal ← double_at J j "PriceDecimal"
    subscription ← bool_at J j "Subscription"
    super_group_id ← int_at J j "SuperGroupID"
    ok (record {
      market_id = market_id;
      quote_id = quote_id;
      at_quote_at_market = at_quote_at_market;
      exchange_id = exchange_id;
      prc_gen_fractional_price = prc_gen_fractional_price;
      prc_gen_decimal_places = prc_gen_decimal_places;
      high = high;
      low = low;
      daily_change = daily_change;
      bid = bid;
      ask = ask;
      bet_per = bet_per;
      is_gsl_percent = is_gsl_percent;
      gsl_dis = gsl_dis;
      min_close_order_dis_ticks = min_close_order_dis_ticks;
      min_open_order_dis_ticks = min_open_order_dis_ticks;
      display_bet_per = display_bet_per;
      is_in_portfolio = is_in_portfolio;
      tradable = tradable;
      trade_on_web = trade_on_web;
      call_only = call_only;
      market_name = market_name;
      trade_start_time = trade_start_time;
      currency = currency;
      allow_gtds_stops = allow_gtds_stops;
      force_open = force_open;
      margin = margin;
      margin_type = margin_type;
      gsl_charge = gsl_charge;
      is_gsl_charge_percent = is_gsl_charge_percent;
      spread = spread;
      trade_rate_type = trade_rate_type;
      open_trade_rate = open_trade_rate;
      close_trade_rate = close_trade_rate;
      min_open_trade_rate = min_open_trade_rate;
      min_close_trade_rate = min_close_trade_rate;
      price_decimal = price_decimal;
      subscription = subscription;
      super_group_id = super_group_id;
    })
