-- ===== src/Tests/Values.antt =====
-- A value of each type that the codecs read and write.
use libtd.Base.{[], ◌∷◌, true, false}
use libtd.Base.Int.{ℤ, pos}
use libtd.Text.{codes}
use libtd.Types.Tick.{up, sampled}
use libtd.Types.Market.{MarketGroup}
use libtd.Types.Market.{Market}
use libtd.Types.Account.{CurrencyRecord}
use libtd.Types.Account.{CurrencySet}
use libtd.Types.Account.{AlertList}
use libtd.Types.Account.{OpeningOrders}
use libtd.Types.Account.{PositionRecord}
use libtd.Types.Account.{PositionSet}
use libtd.Types.Account.{AccountDetails}
use libtd.Types.Account.{AccountSummary}
use libtd.Types.Trade.{RequestTradeSimulate}
use libtd.Types.Candle.{Candle}
use libtd.Types.Tick.{Tick}

abbrev pub a_market_group : MarketGroup
a_market_group = record {
  id = pos 2;
  name = codes "d";
  is_super_group = false;
  is_white_label_popular_market = true;
  has_subscription = false;
}

abbrev pub a_market : Market ℤ
a_market = record {
  market_id = pos 7;
  quote_id = pos 8;
  at_quote_at_market = pos 9;
  exchange_id = pos 10;
  prc_gen_fractional_price = pos 11;
  prc_gen_decimal_places = pos 12;
  high = pos 13;
  low = pos 14;
  daily_change = pos 15;
  bid = pos 16;
  ask = pos 17;
  bet_per = pos 18;
  is_gsl_percent = pos 19;
  gsl_dis = pos 20;
  min_close_order_dis_ticks = pos 21;
  min_open_order_dis_ticks = pos 22;
  display_bet_per = pos 23;
  is_in_portfolio = false;
  tradable = true;
  trade_on_web = false;
  call_only = true;
  market_name = codes "i";
  trade_start_time = codes "j";
  currency = codes "a";
  allow_gtds_stops = pos 31;
  force_open = false;
  margin = pos 33;
  margin_type = false;
  gsl_charge = pos 35;
  is_gsl_charge_percent = pos 36;
  spread = pos 37;
  trade_rate_type = pos 38;
  open_trade_rate = pos 39;
  close_trade_rate = pos 40;
  min_open_trade_rate = pos 41;
  min_close_trade_rate = pos 42;
  price_decimal = pos 43;
  subscription = false;
  super_group_id = pos 45;
}

abbrev pub a_currency_record : CurrencyRecord ℤ
a_currency_record = record {
  account_balance = pos 46;
  account_valuation = pos 47;
  credit_allocation = pos 48;
  currency = codes "j";
  currency_code = codes "a";
  currency_symbol = codes "b";
  initial_margin = pos 2;
  is_total = true;
  margin_percentage = codes "e";
  open_pl = pos 5;
  percentage = codes "g";
  status = pos 7;
  trading_resources = pos 8;
  variation_margin_required = pos 9;
  waived_initial_margin_limit = pos 10;
  pt = pos 11;
}

abbrev pub a_currency_set : CurrencySet ℤ
a_currency_set = record {
  records = a_currency_record ∷ [];
  status = pos 13;
  total_records = pos 14;
}

abbrev pub a_alert_list : AlertList
a_alert_list = record { total_records = pos 15 }

abbrev pub a_opening_orders : OpeningOrders
a_opening_orders = record { status = pos 16; total_records = pos 17 }

abbrev pub a_position_record : PositionRecord ℤ
a_position_record = record {
  bet_per = pos 18;
  creation_time = codes "j";
  creation_time_utc = codes "a";
  currency_code = codes "b";
  currency_symbol = codes "c";
  current_price = codes "d";
  current_price_decimal = pos 24;
  direction = codes "f";
  expiry_date_time = codes "g";
  imr = pos 27;
  is_rolling_market = false;
  is_total = true;
  is_triggered = false;
  limit_order_price = codes "b";
  limit_order_price_decimal = pos 32;
  margin_factor = pos 33;
  market_id = pos 34;
  market_name = codes "f";
  notional_value = pos 36;
  open_pl = pos 37;
  opening_price = codes "i";
  opening_price_decimal = pos 39;
  order_id = pos 40;
  order_type = codes "b";
  position_id = pos 42;
  prc_gen_decimal_places = pos 43;
  quote_id = pos 44;
  stake = pos 45;
  stop_order_price = codes "g";
  stop_order_price_decimal = pos 47;
  stop_type = codes "i";
  tradable = true;
  type = codes "a";
}

abbrev pub a_position_set : PositionSet ℤ
a_position_set = record { records = a_position_record ∷ []; status = pos 2; total_records = pos 3 }

abbrev pub a_account_details : AccountDetails ℤ
a_account_details = record {
  alerts = a_alert_list;
  calculated_utc_ticks = pos 5;
  client_id = pos 6;
  client_language_id = pos 7;
  currencies = a_currency_set;
  opening_orders_data = a_opening_orders;
  positions = a_position_set;
  trading_account_type = codes "b";
}

abbrev pub a_account_summary : AccountSummary ℤ
a_account_summary = record {
  account_id = codes "c";
  platform_id = pos 13;
  account_valuation = pos 14;
  funded_percentage_string = codes "f";
  client_id = pos 16;
  trading_account_type = codes "h";
  margin = pos 18;
  open_pnl_quote = pos 19;
  account_balance = pos 20;
  credit = pos 21;
  waived_margin = pos 22;
  resources = pos 23;
  change_imr = pos 24;
  variation_margin_required = pos 25;
}

abbrev pub a_request_trade_simulate : RequestTradeSimulate ℤ
a_request_trade_simulate = record {
  market_id = pos 26;
  quote_id = pos 27;
  price = pos 28;
  stake = pos 29;
  trade_type = pos 30;
  trade_mode = true;
  has_closing_order = false;
  is_guaranteed = true;
  order_mode_id = pos 34;
  order_type_id = pos 35;
  order_price_mode_id = pos 36;
  limit_order_price = codes "h";
  stop_order_price = codes "i";
  trailing_point = pos 39;
  close_position_id = pos 40;
  is_kaazing_feed = true;
  user_agent = codes "c";
  key = codes "d";
}

abbrev pub a_candle : Candle ℤ
a_candle = record {
  timestamp = pos 44;
  open_price = pos 45;
  high = pos 46;
  low = pos 47;
  close = pos 48;
  volume = pos 49;
}

abbrev pub a_tick : Tick ℤ
a_tick = record {
  quote_id = pos 50;
  bid = pos 1;
  ask = pos 2;
  daily_change = pos 3;
  dir = up;
  tradable = true;
  high = pos 6;
  low = pos 7;
  hash = codes "i";
  call_only = true;
  mid_price = pos 10;
  timestamp = pos 11;
  field13 = pos 12;
  group = sampled;
  latency = pos 14;
}
