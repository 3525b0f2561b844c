-- ===== src/Types/Market.antt =====
-- include/td365/types.h: market groups, markets and their details. `D` stands for `double`.
use libtd.Base.{Bool}
use libtd.Base.Int.{ℤ}
use libtd.Text.{Bytes}

pub record MarketGroup : Type 0 where
  pub id : ℤ
  pub name : Bytes
  pub is_super_group : Bool
  pub is_white_label_popular_market : Bool
  pub has_subscription : Bool

pub record Market (D : Type 0) : Type 0 where
  pub market_id : ℤ
  pub quote_id : ℤ
  pub at_quote_at_market : ℤ
  pub exchange_id : ℤ
  pub prc_gen_fractional_price : ℤ
  pub prc_gen_decimal_places : ℤ
  pub high : D
  pub low : D
  pub daily_change : D
  pub bid : D
  pub ask : D
  pub bet_per : D
  pub is_gsl_percent : ℤ
  pub gsl_dis : D
  pub min_close_order_dis_ticks : D
  pub min_open_order_dis_ticks : D
  pub display_bet_per : D
  pub is_in_portfolio : Bool
  pub tradable : Bool
  pub trade_on_web : Bool
  pub call_only : Bool
  pub market_name : Bytes
  pub trade_start_time : Bytes
  pub currency : Bytes
  pub allow_gtds_stops : ℤ
  pub force_open : Bool
  pub margin : D
  pub margin_type : Bool
  pub gsl_charge : D
  pub is_gsl_charge_percent : ℤ
  pub spread : D
  pub trade_rate_type : ℤ
  pub open_trade_rate : D
  pub close_trade_rate : D
  pub min_open_trade_rate : D
  pub min_close_trade_rate : D
  pub price_decimal : D
  pub subscription : Bool
  pub super_group_id : ℤ

pub record MarketDetails (D : Type 0) : Type 0 where
  pub market_id : ℤ
  pub quote_id : ℤ
  pub at_quote_at_market : ℤ
  pub exchange_id : ℤ
  pub prc_gen_fractional_price : ℤ
  pub prc_gen_decimal_places : ℤ
  pub high : D
  pub low : D
  pub daily_change : D
  pub bid : D
  pub ask : D
  pub bet_per : D
  pub is_gsl_percent : ℤ
  pub gsl_dis : D
  pub min_close_order_dis_ticks : D
  pub min_open_order_dis_ticks : D
  pub display_bet_per : D
  pub is_in_portfolio : Bool
  pub tradable : Bool
  pub trade_on_web : Bool
  pub call_only : Bool
  pub market_name : Bytes
  pub trade_start_time : Bytes
  pub currency : Bytes
  pub allow_gtds_stops : ℤ
  pub force_open : Bool
  pub margin : D
  pub margin_type : Bool
  pub gsl_charge : D
  pub is_gsl_charge_percent : ℤ
  pub spread : D
  pub trade_rate_type : ℤ
  pub open_trade_rate : D
  pub close_trade_rate : D
  pub min_open_trade_rate : D
  pub min_close_trade_rate : D
  pub price_decimal : D
  pub subscription : Bool
  pub super_group_id : ℤ

pub record ClientWebOptionInfo (D : Type 0) : Type 0 where
  pub cfd_default_stake : D
  pub is_deal_alway_hedge : Bool
  pub is_deal_alway_guarantee : Bool
  pub is_one_click_trade : Bool
  pub is_order_alway_hedge : Bool
  pub is_order_alway_guarantee : Bool
  pub stop_type_id : ℤ
  pub trade_order_type_id : ℤ
  pub deal_default_stake : D
  pub order_default_stake : D
  pub web_min_stake : D
  pub web_max_stake : D

pub record MarketDetailsResponse (D : Type 0) : Type 0 where
  pub market_details_data : MarketDetails D
  pub web_info : ClientWebOptionInfo D
