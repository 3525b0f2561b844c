-- ===== src/Codec/ClientWebOptionInfo.antt =====
-- src/types.cpp: the JSON form of `client_web_option_info`.
use libtd.Base.{Result, ok, ◌>>=◌}
use libtd.Json.{JsonLib, int_at, bool_at, double_at}
use libtd.Types.Market.{ClientWebOptionInfo}

module _ {D : Type 0} (J : JsonLib D) where
  open J use {Json, of_int, of_bool, of_string, of_double, object}

  unfoldable pub from_json : Json → Result (ClientWebOptionInfo D)
  from_json j = do
    cfd_default_stake ← double_at J j "CFDDefaultStake"
    is_deal_alway_hedge ← bool_at J j "IsDealAlwayHedge"
    is_deal_alway_guarantee ← bool_at J j "IsDealAlwayGuarantee"
    is_one_click_trade ← bool_at J j "IsOneClickTrade"
    is_order_alway_hedge ← bool_at J j "IsOrderAlwayHedge"
    is_order_alway_guarantee ← bool_at J j "IsOrderAlwayGuarantee"
    stop_type_id ← int_at J j "StopTypeID"
    trade_order_type_id ← int_at J j "TradeOrderTypeID"
    deal_default_stake ← double_at J j "DealDefaultStake"
    order_default_stake ← double_at J j "OrderDefaultStake"
    web_min_stake ← double_at J j "WebMinStake"
    web_max_stake ← double_at J j "WebMaxStake"
    ok (record {
      cfd_default_stake = cfd_default_stake;
      is_deal_alway_hedge = is_deal_alway_hedge;
      is_deal_alway_guarantee = is_deal_alway_guarantee;
      is_one_click_trade = is_one_click_trade;
      is_order_alway_hedge = is_order_alway_hedge;
      is_order_alway_guarantee = is_order_alway_guarantee;
      stop_type_id = stop_type_id;
      trade_order_type_id = trade_order_type_id;
      deal_default_stake = deal_default_stake;
      order_default_stake = order_default_stake;
      web_min_stake = web_min_stake;
      web_max_stake = web_max_stake;
    })
