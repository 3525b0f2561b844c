-- ===== src/Types/Account.antt =====
-- include/td365/types.h: the account summary and the account details. `D` stands for `double`.
use libtd.Base.{Bool, List}
use libtd.Base.Int.{ℤ}
use libtd.Text.{Bytes}

pub record AccountSummary (D : Type 0) : Type 0 where
  pub account_id : Bytes
  pub platform_id : ℤ
  pub account_valuation : D
  pub funded_percentage_string : Bytes
  pub client_id : ℤ
  pub trading_account_type : Bytes
  pub margin : D
  pub open_pnl_quote : D
  pub account_balance : D
  pub credit : D
  pub waived_margin : D
  pub resources : D
  pub change_imr : D
  pub variation_margin_required : D

pub record AlertList : Type 0 where
  pub total_records : ℤ

pub record CurrencyRecord (D : Type 0) : Type 0 where
  pub account_balance : D
  pub account_valuation : D
  pub credit_allocation : D
  pub currency : Bytes
  pub currency_code : Bytes
  pub currency_symbol : Bytes
  pub initial_margin : D
  pub is_total : Bool
  pub margin_percentage : Bytes
  pub open_pl : D
  pub percentage : Bytes
  pub status : ℤ
  pub trading_resources : D
  pub variation_margin_required : D
  pub waived_initial_margin_limit : D
  pub pt : ℤ

pub record CurrencySet (D : Type 0) : Type 0 where
  pub records : List (CurrencyRecord D)
  pub status : ℤ
  pub total_records : ℤ

pub record OpeningOrders : Type 0 where
  pub status : ℤ
  pub total_records : ℤ

pub record PositionRecord (D : Type 0) : Type 0 where
  pub bet_per : D
  pub creation_time : Bytes
  pub creation_time_utc : Bytes
  pub currency_code : Bytes
  pub currency_symbol : Bytes
  pub current_price : Bytes
  pub current_price_decimal : D
  pub direction : Bytes
  pub expiry_date_time : Bytes
  pub imr : D
  pub is_rolling_market : Bool
  pub is_total : Bool
  pub is_triggered : Bool
  pub limit_order_price : Bytes
  pub limit_order_price_decimal : D
  pub margin_factor : D
  pub market_id : ℤ
  pub market_name : Bytes
  pub notional_value : D
  pub open_pl : D
  pub opening_price : Bytes
  pub opening_price_decimal : D
  pub order_id : ℤ
  pub order_type : Bytes
  pub position_id : ℤ
  pub prc_gen_decimal_places : ℤ
  pub quote_id : ℤ
  pub stake : D
  pub stop_order_price : Bytes
  pub stop_order_price_decimal : D
  pub stop_type : Bytes
  pub tradable : Bool
  pub type : Bytes

pub record PositionSet (D : Type 0) : Type 0 where
  pub records : List (PositionRecord D)
  pub status : ℤ
  pub total_records : ℤ

pub record AccountDetails (D : Type 0) : Type 0 where
  pub alerts : AlertList
  pub calculated_utc_ticks : ℤ
  pub client_id : ℤ
  pub client_language_id : ℤ
  pub currencies : CurrencySet D
  pub opening_orders_data : OpeningOrders
  pub positions : PositionSet D
  pub trading_account_type : Bytes
