-- ===== src/Codec/CurrencyRecord.antt =====
-- src/types.cpp: the JSON form of `currency_record`.
use libtd.Base.{◌≡◌, Result, ok, ◌>>=◌, [], ◌∷◌}
use libtd.Base.Int.{IsInt32}
use libtd.Json.{JsonLib, int_at, string_at, bool_at, double_at, codec_laws}
use libtd.Types.Account.{CurrencyRecord}

-- Every integer field holds a value of its C++ type.
pub record FitsInt {D : Type 0} (c : CurrencyRecord D) : Type 0 where
  pub status : IsInt32 c.status
  pub pt : IsInt32 c.pt

module _ {D : Type 0} (J : JsonLib D) where
  open J use {Json, of_int, of_bool, of_string, of_double, object}

  unfoldable pub to_json : CurrencyRecord D → Json
  to_json c = object (
      ("AccountBalance", of_double c.account_balance)
      ∷ ("AccountValuation", of_double c.account_valuation)
      ∷ ("CreditAllocation", of_double c.credit_allocation)
      ∷ ("Currency", of_string c.currency)
      ∷ ("CurrencyCode", of_string c.currency_code)
      ∷ ("CurrencySymbol", of_string c.currency_symbol)
      ∷ ("InitialMargin", of_double c.initial_margin)
      ∷ ("IsTotal", of_bool c.is_total)
      ∷ ("MarginPercentage", of_string c.margin_percentage)
      ∷ ("OpenPL", of_double c.open_pl)
      ∷ ("Percentage", of_string c.percentage)
      ∷ ("Status", of_int c.status)
      ∷ ("TradingResources", of_double c.trading_resources)
      ∷ ("VariationMarginRequired", of_double c.variation_margin_required)
      ∷ ("WaivedInitialMarginLimit", of_double c.waived_initial_margin_limit)
      ∷ ("pt", of_int c.pt)
      ∷ [])

  unfoldable pub from_json : Json → Result (CurrencyRecord D)
  from_json j = do
    account_balance ← double_at J j "AccountBalance"
    account_valuation ← double_at J j "AccountValuation"
    credit_allocation ← double_at J j "CreditAllocation"
    currency ← string_at J j "Currency"
    currency_code ← string_at J j "CurrencyCode"
    currency_symbol ← string_at J j "CurrencySymbol"
    initial_margin ← double_at J j "InitialMargin"
    is_total ← bool_at J j "IsTotal"
    margin_percentage ← string_at J j "MarginPercentage"
    open_pl ← double_at J j "OpenPL"
    percentage ← string_at J j "Percentage"
    status ← int_at J j "Status"
    trading_resources ← double_at J j "TradingResources"
    variation_margin_required ← double_at J j "VariationMarginRequired"
    waived_initial_margin_limit ← double_at J j "WaivedInitialMarginLimit"
    pt ← int_at J j "pt"
    ok (record {
      account_balance = account_balance;
      account_valuation = account_valuation;
      credit_allocation = credit_allocation;
      currency = currency;
      currency_code = currency_code;
      currency_symbol = currency_symbol;
      initial_margin = initial_margin;
      is_total = is_total;
      margin_percentage = margin_percentage;
      open_pl = open_pl;
      percentage = percentage;
      status = status;
      trading_resources = trading_resources;
      variation_margin_required = variation_margin_required;
      waived_initial_margin_limit = waived_initial_margin_limit;
      pt = pt;
    })

  -- What `to_json` writes, `from_json` reads back with no field changed, if the integers fit.
  pub from_json-to_json : (c : CurrencyRecord D) → FitsInt c → from_json (to_json c) ≡ ok c
  unfolding from_json to_json
  from_json-to_json c h = simp (codec_laws, J, h.status, h.pt)
