-- ===== src/Codec/AccountDetails.antt =====
-- src/types.cpp: the JSON form of `account_details`. A part that is absent is left as the value that
-- `get` starts from, with no records.
use libtd.Base.{◌≡◌, Result, ok, ◌>>=◌, [], ◌∷◌, if◌then◌else◌}
use libtd.Base.Int.{pos, IsInt32, IsInt64}
use libtd.Json.{JsonLib, int_at, int64_at, string_at, value_at, codec_laws}
use libtd.Types.Account.{AccountDetails, AlertList, CurrencySet, OpeningOrders, PositionSet}
use libtd.Codec.AlertList
use libtd.Codec.CurrencySet
use libtd.Codec.OpeningOrders
use libtd.Codec.PositionSet

-- Every integer, those of the parts included, holds a value of its C++ type.
pub record FitsInt {D : Type 0} (a : AccountDetails D) : Type 0 where
  pub alerts : AlertList.FitsInt a.alerts
  pub calculated_utc_ticks : IsInt64 a.calculated_utc_ticks
  pub client_id : IsInt32 a.client_id
  pub client_language_id : IsInt32 a.client_language_id
  pub currencies : CurrencySet.FitsInt a.currencies
  pub opening_orders_data : OpeningOrders.FitsInt a.opening_orders_data
  pub positions : PositionSet.FitsInt a.positions

abbrev pub no_alerts : AlertList
no_alerts = record { total_records = pos 0 }

abbrev pub no_currencies : (D : Type 0) → CurrencySet D
no_currencies D = record { records = []; status = pos 0; total_records = pos 0 }

abbrev pub no_orders : OpeningOrders
no_orders = record { status = pos 0; total_records = pos 0 }

abbrev pub no_positions : (D : Type 0) → PositionSet D
no_positions D = record { records = []; status = pos 0; total_records = pos 0 }

module _ {D : Type 0} (J : JsonLib D) where
  open J use {Json, of_int, of_string, object, contains, contains-object}

  unfoldable pub to_json : AccountDetails D → Json
  to_json a = object (
      ("Alerts", AlertList.to_json J a.alerts)
      ∷ ("CalculatedUTCTicks", of_int a.calculated_utc_ticks)
      ∷ ("ClientId", of_int a.client_id)
      ∷ ("ClientLanguageId", of_int a.client_language_id)
      ∷ ("Currencies", CurrencySet.to_json J a.currencies)
      ∷ ("OpeningOrders", OpeningOrders.to_json J a.opening_orders_data)
      ∷ ("Positions", PositionSet.to_json J a.positions)
      ∷ ("TradingAccountType", of_string a.trading_account_type)
      ∷ [])

  unfoldable pub from_json : Json → Result (AccountDetails D)
  from_json j = do
    alerts ←
        if contains j "Alerts" then value_at J (AlertList.from_json J) j "Alerts" else ok no_alerts
    calculated_utc_ticks ← int64_at J j "CalculatedUTCTicks"
    client_id ← int_at J j "ClientId"
    client_language_id ← int_at J j "ClientLanguageId"
    currencies ←
        if contains j "Currencies"
        then value_at J (CurrencySet.from_json J) j "Currencies"
        else ok (no_currencies D)
    opening_orders_data ←
        if contains j "OpeningOrders"
        then value_at J (OpeningOrders.from_json J) j "OpeningOrders"
        else ok no_orders
    positions ←
        if contains j "Positions"
        then value_at J (PositionSet.from_json J) j "Positions"
        else ok (no_positions D)
    trading_account_type ← string_at J j "TradingAccountType"
    ok (record {
      alerts = alerts;
      calculated_utc_ticks = calculated_utc_ticks;
      client_id = client_id;
      client_language_id = client_language_id;
      currencies = currencies;
      opening_orders_data = opening_orders_data;
      positions = positions;
      trading_account_type = trading_account_type;
    })

  -- from_json reads back the account details that to_json writes, the records of currencies and
  -- positions included, if the integers fit.
  pub from_json-account_details : (a : AccountDetails D) → FitsInt a → from_json (to_json a) ≡ ok a
  unfolding from_json to_json
  from_json-account_details a h = simp (
    codec_laws,
    contains-object,
    AlertList.from_json-to_json J a.alerts h.alerts,
    CurrencySet.from_json-to_json J a.currencies h.currencies,
    OpeningOrders.from_json-to_json J a.opening_orders_data h.opening_orders_data,
    PositionSet.from_json-to_json J a.positions h.positions,
    h.calculated_utc_ticks,
    h.client_id,
    h.client_language_id,
  )

  -- from_json reads account details without alerts, currencies, orders and positions as details
  -- in which these are empty, if the integers fit.
  pub from_json-account_details_minimal :
      (a : AccountDetails D)
      → FitsInt a
      → from_json (
          object (
            ("CalculatedUTCTicks", of_int a.calculated_utc_ticks)
            ∷ ("ClientId", of_int a.client_id)
            ∷ ("ClientLanguageId", of_int a.client_language_id)
            ∷ ("TradingAccountType", of_string a.trading_account_type)
            ∷ []))
        ≡ ok (record a {
          alerts = no_alerts;
          currencies = no_currencies D;
          opening_orders_data = no_orders;
          positions = no_positions D;
        })
  unfolding from_json
  from_json-account_details_minimal a h =
      simp
        (codec_laws, contains-object, J, h.calculated_utc_ticks, h.client_id, h.client_language_id)
