-- ===== src/Codec/AccountSummary.antt =====
-- src/types.cpp: the JSON form of `account_summary`.
use libtd.Base.{◌≡◌, Result, ok, ◌>>=◌, [], ◌∷◌}
use libtd.Base.Int.{IsInt32}
use libtd.Json.{JsonLib, int_at, string_at, double_at, codec_laws}
use libtd.Types.Account.{AccountSummary}

-- Every integer field holds a value of its C++ type.
pub record FitsInt {D : Type 0} (a : AccountSummary D) : Type 0 where
  pub platform_id : IsInt32 a.platform_id
  pub client_id : IsInt32 a.client_id

module _ {D : Type 0} (J : JsonLib D) where
  open J use {Json, of_int, of_bool, of_string, of_double, object}

  unfoldable pub to_json : AccountSummary D → Json
  to_json a = object (
      ("AccountID", of_string a.account_id)
      ∷ ("PlatformID", of_int a.platform_id)
      ∷ ("AccountValuation", of_double a.account_valuation)
      ∷ ("FundedPercentageString", of_string a.funded_percentage_string)
      ∷ ("ClientId", of_int a.client_id)
      ∷ ("TradingAccountType", of_string a.trading_account_type)
      ∷ ("Margin", of_double a.margin)
      ∷ ("OpenPnLQuote", of_double a.open_pnl_quote)
      ∷ ("AccountBalance", of_double a.account_balance)
      ∷ ("Credit", of_double a.credit)
      ∷ ("WaivedMargin", of_double a.waived_margin)
      ∷ ("Resources", of_double a.resources)
      ∷ ("ChangeIMR", of_double a.change_imr)
      ∷ ("VariationMarginRequired", of_double a.variation_margin_required)
      ∷ [])

  unfoldable pub from_json : Json → Result (AccountSummary D)
  from_json j = do
    account_id ← string_at J j "AccountID"
    platform_id ← int_at J j "PlatformID"
    account_valuation ← double_at J j "AccountValuation"
    funded_percentage_string ← string_at J j "FundedPercentageString"
    client_id ← int_at J j "ClientId"
    trading_account_type ← string_at J j "TradingAccountType"
    margin ← double_at J j "Margin"
    open_pnl_quote ← double_at J j "OpenPnLQuote"
    account_balance ← double_at J j "AccountBalance"
    credit ← double_at J j "Credit"
    waived_margin ← double_at J j "WaivedMargin"
    resources ← double_at J j "Resources"
    change_imr ← double_at J j "ChangeIMR"
    variation_margin_required ← double_at J j "VariationMarginRequired"
    ok (record {
      account_id = account_id;
      platform_id = platform_id;
      account_valuation = account_valuation;
      funded_percentage_string = funded_percentage_string;
      client_id = client_id;
      trading_account_type = trading_account_type;
      margin = margin;
      open_pnl_quote = open_pnl_quote;
      account_balance = account_balance;
      credit = credit;
      waived_margin = waived_margin;
      resources = resources;
      change_imr = change_imr;
      variation_margin_required = variation_margin_required;
    })

  -- from_json reads back the account summary that to_json writes, if the integers fit.
  pub from_json-account_summary : (a : AccountSummary D) → FitsInt a → from_json (to_json a) ≡ ok a
  unfolding from_json to_json
  from_json-account_summary a h = simp (codec_laws, J, h.platform_id, h.client_id)
