-- ===== src/Tests/Codecs.antt =====
-- The codecs of src/types.cpp on concrete values.
use libtd.Base.{◌≡◌, ok, arith}
use libtd.Base.Int.{pos}
use libtd.Codec.RoundTrips.{from_json-to_json}
use libtd.Tests.Library.{json}
use libtd.Tests.Values.{
  a_market_group, a_market, a_currency_record, a_currency_set, a_alert_list, a_opening_orders,
  a_position_record, a_position_set, a_account_details, a_account_summary, a_request_trade_simulate,
  a_candle, a_tick,
}
use libtd.Codec.MarketGroup
use libtd.Codec.Market
use libtd.Codec.CurrencyRecord
use libtd.Codec.CurrencySet
use libtd.Codec.AlertList
use libtd.Codec.OpeningOrders
use libtd.Codec.PositionRecord
use libtd.Codec.PositionSet
use libtd.Codec.AccountDetails
use libtd.Codec.AccountSummary
use libtd.Codec.RequestTradeSimulate
use libtd.Codec.Candle
use libtd.Codec.Tick
use libtd.Types.Tick.{FitsInt}

a_market_group-FitsInt : MarketGroup.FitsInt a_market_group
a_market_group-FitsInt = record { id = omega arith }

a_market-FitsInt : Market.FitsInt a_market
a_market-FitsInt = record {
  market_id = omega arith;
  quote_id = omega arith;
  at_quote_at_market = omega arith;
  exchange_id = omega arith;
  prc_gen_fractional_price = omega arith;
  prc_gen_decimal_places = omega arith;
  is_gsl_percent = omega arith;
  allow_gtds_stops = omega arith;
  is_gsl_charge_percent = omega arith;
  trade_rate_type = omega arith;
  super_group_id = omega arith;
}

a_currency_record-FitsInt : CurrencyRecord.FitsInt a_currency_record
a_currency_record-FitsInt = record { status = omega arith; pt = omega arith }

a_currency_set-FitsInt : CurrencySet.FitsInt a_currency_set
a_currency_set-FitsInt = record {
  records = (a_currency_record-FitsInt, tt);
  status = omega arith;
  total_records = omega arith;
}

a_alert_list-FitsInt : AlertList.FitsInt a_alert_list
a_alert_list-FitsInt = record { total_records = omega arith }

a_opening_orders-FitsInt : OpeningOrders.FitsInt a_opening_orders
a_opening_orders-FitsInt = record { status = omega arith; total_records = omega arith }

a_position_record-FitsInt : PositionRecord.FitsInt a_position_record
a_position_record-FitsInt = record {
  market_id = omega arith;
  order_id = omega arith;
  position_id = omega arith;
  prc_gen_decimal_places = omega arith;
  quote_id = omega arith;
}

a_position_set-FitsInt : PositionSet.FitsInt a_position_set
a_position_set-FitsInt = record {
  records = (a_position_record-FitsInt, tt);
  status = omega arith;
  total_records = omega arith;
}

a_account_details-FitsInt : AccountDetails.FitsInt a_account_details
a_account_details-FitsInt = record {
  alerts = a_alert_list-FitsInt;
  calculated_utc_ticks = omega arith;
  client_id = omega arith;
  client_language_id = omega arith;
  currencies = a_currency_set-FitsInt;
  opening_orders_data = a_opening_orders-FitsInt;
  positions = a_position_set-FitsInt;
}

a_account_summary-FitsInt : AccountSummary.FitsInt a_account_summary
a_account_summary-FitsInt = record { platform_id = omega arith; client_id = omega arith }

a_request_trade_simulate-FitsInt : RequestTradeSimulate.FitsInt a_request_trade_simulate
a_request_trade_simulate-FitsInt = record {
  market_id = omega arith;
  quote_id = omega arith;
  trade_type = omega arith;
  order_mode_id = omega arith;
  order_type_id = omega arith;
  order_price_mode_id = omega arith;
  trailing_point = omega arith;
  close_position_id = omega arith;
}

pub a_tick-FitsInt : FitsInt a_tick
a_tick-FitsInt = record {
  quote_id = omega arith;
  timestamp = omega arith;
  field13 = omega arith;
  latency = omega arith;
}

from_json-account_details_example :
    AccountDetails.from_json json (AccountDetails.to_json json a_account_details)
    ≡ ok a_account_details
from_json-account_details_example =
    AccountDetails.from_json-account_details json a_account_details a_account_details-FitsInt

from_json-to_json_example :
    (Tick.from_json json (Tick.to_json json a_tick) ≡ ok a_tick)
    × (Market.from_json json (Market.to_json json a_market) ≡ ok a_market)
    × (MarketGroup.from_json json (MarketGroup.to_json json a_market_group) ≡ ok a_market_group)
    × (RequestTradeSimulate.from_json json
          (RequestTradeSimulate.to_json json a_request_trade_simulate)
        ≡ ok a_request_trade_simulate)
    × (AccountSummary.from_json json (AccountSummary.to_json json a_account_summary)
        ≡ ok a_account_summary)
    × (Candle.from_json json (Candle.to_json json a_candle)
        ≡ ok (record a_candle { timestamp = pos 0 }))
from_json-to_json_example =
    from_json-to_json json a_tick a_market a_market_group a_request_trade_simulate a_account_summary
      a_candle a_tick-FitsInt a_market-FitsInt a_market_group-FitsInt
      a_request_trade_simulate-FitsInt a_account_summary-FitsInt
