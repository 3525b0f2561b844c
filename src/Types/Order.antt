-- ===== src/Types/Order.antt =====
-- include/td365/types.h: structures that no code of the library uses.
use libtd.Base.{Bool, true, false}
use libtd.Base.Int.{ℤ, pos}
use libtd.Types.Tick.{Tick}
use libtd.Types.Account.{AccountSummary, AccountDetails}
use libtd.Types.Trade.{TradeResponse}

-- `order_state::direction`.
pub data OrderDirection : Type 0 where
  buy sell none : OrderDirection

pub record OrderState (D : Type 0) : Type 0 where
  pub direction : OrderDirection
  pub stake : D
  pub trailing : Bool
  pub guarantee : Bool
  pub order_level : D
  pub good_until : ℤ
  pub has_stop : Bool
  pub stop_point : D
  pub stop_by_point : Bool
  pub has_limit : Bool
  pub limit_point : D
  pub limit_by_point : Bool
  pub order_has_ido : Bool

-- The initialisers of the members; `zero` is the double 0.0.
abbrev pub initial_order_state : {D : Type 0} → D → OrderState D
initial_order_state zero = record {
  direction = OrderDirection.none;
  stake = zero;
  trailing = false;
  guarantee = false;
  order_level = zero;
  good_until = pos 2;
  has_stop = false;
  stop_point = zero;
  stop_by_point = true;
  has_limit = false;
  limit_point = zero;
  limit_by_point = true;
  order_has_ido = false;
}

-- A callback takes its argument and changes the state of its owner.
pub record UserCallbacks (D Owner : Type 0) : Type 0 where
  pub tick_cb : Tick D → Owner → Owner
  pub acc_summary_cb : AccountSummary D → Owner → Owner
  pub acc_detail_cb : AccountDetails D → Owner → Owner
  pub trade_response_cb : TradeResponse → Owner → Owner
  pub exit_cb : Owner → Owner

abbrev pub no_callbacks : (D Owner : Type 0) → UserCallbacks D Owner
no_callbacks D Owner = record {
  tick_cb = λ tick owner. owner;
  acc_summary_cb = λ summary owner. owner;
  acc_detail_cb = λ details owner. owner;
  trade_response_cb = λ response owner. owner;
  exit_cb = λ owner. owner;
}
