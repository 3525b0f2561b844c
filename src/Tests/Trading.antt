-- ===== src/Tests/Trading.antt =====
-- A trade whose simulation the server refuses, on a client that notes the targets of its requests.
use libtd.Base.{
  true, false, if◌then◌else◌, some, String, List, [], ◌∷◌, ◌++◌, All, ◌≡◌, ◌≢◌, refl, ok, Gives,
  Gives-ok,
}
use libtd.Base.Int.{ℤ, pos}
use libtd.Base.Stateful.{◌>>=◌, ◌>>◌}
use libtd.Text.{Bytes, codes, equal}
use libtd.Json.{JsonLib, value_at, int_at, string_at, bool_at, double_at}
use libtd.Types.Trade.{TradeRequest, TradeResponse, buy}
use libtd.Codec.MarketDetailsResponse
use libtd.Codec.MarketDetails
use libtd.Codec.ClientWebOptionInfo
use libtd.CookieJar.Headers.{session, to_lower}
use libtd.HttpClient.Boost.{Headers, same_name}
use libtd.HttpClient.Client.{get_http_body}
use libtd.HttpClient.Interface.{HttpLib}
use libtd.RestApi.Client.{RestState}
use libtd.RestApi.Calls.{is_success}
use libtd.RestApi.Trading.{place_trade}
use libtd.RestApi.Placing.{asks_trade, IsUntraded, EndsByTrade, Refuses, place_trade_unsimulated}
use libtd.Tests.Library.{Value, json, float, of_entries, text, number, boolean, double}
use libtd.Tests.Network.{boost, welcome, refused}

abbrev simulation : Bytes
simulation = codes "/UTSAPI.asmx/RequestTradeSimulate"

abbrev teller : HttpLib boost
teller = record {
  Client = Headers;
  World = List Bytes;
  create = λ url w. (ok [], w);
  get = λ target s. (ok welcome, (s.0, target ∷ s.1));
  post = λ target body headers s.
      (ok (if equal target simulation then refused else welcome), (s.0, target ∷ s.1));
  emplace = λ n v c. c ++ (n, v) ∷ [];
  cookie = λ c n. session n [];
  default_headers = λ c. c;
  headers-emplace = λ n v c. refl;
  headers-get = λ target s. refl;
  headers-post = λ target body headers s. refl;
}

abbrev market_details : List (String × Value)
market_details =
    ("MarketID", number (pos 1))
    ∷ ("QuoteID", number (pos 1))
    ∷ ("AtQuoteAtMarket", number (pos 1))
    ∷ ("ExchangeID", number (pos 1))
    ∷ ("PrcGenFractionalPrice", number (pos 1))
    ∷ ("PrcGenDecimalPlaces", number (pos 1))
    ∷ ("High", double (pos 1))
    ∷ ("Low", double (pos 1))
    ∷ ("DailyChange", double (pos 1))
    ∷ ("Bid", double (pos 1))
    ∷ ("Ask", double (pos 1))
    ∷ ("BetPer", double (pos 1))
    ∷ ("IsGSLPercent", number (pos 1))
    ∷ ("GSLDis", double (pos 1))
    ∷ ("MinCloseOrderDisTicks", double (pos 1))
    ∷ ("MinOpenOrderDisTicks", double (pos 1))
    ∷ ("DisplayBetPer", double (pos 1))
    ∷ ("IsInPortfolio", boolean true)
    ∷ ("Tradable", boolean true)
    ∷ ("TradeOnWeb", boolean true)
    ∷ ("CallOnly", boolean true)
    ∷ ("MarketName", text (codes "n"))
    ∷ ("TradeStartTime", text (codes "n"))
    ∷ ("Currency", text (codes "n"))
    ∷ ("AllowGtdsStops", number (pos 1))
    ∷ ("ForceOpen", boolean true)
    ∷ ("Margin", double (pos 1))
    ∷ ("MarginType", boolean true)
    ∷ ("GSLCharge", double (pos 1))
    ∷ ("IsGSLChargePercent", number (pos 1))
    ∷ ("Spread", double (pos 1))
    ∷ ("TradeRateType", number (pos 1))
    ∷ ("OpenTradeRate", double (pos 1))
    ∷ ("CloseTradeRate", double (pos 1))
    ∷ ("MinOpenTradeRate", double (pos 1))
    ∷ ("MinCloseTradeRate", double (pos 1))
    ∷ ("PriceDecimal", double (pos 1))
    ∷ ("Subscription", boolean true)
    ∷ ("SuperGroupID", number (pos 1))
    ∷ []

abbrev web_info : List (String × Value)
web_info =
    ("CFDDefaultStake", double (pos 1))
    ∷ ("IsDealAlwayHedge", boolean true)
    ∷ ("IsDealAlwayGuarantee", boolean true)
    ∷ ("IsOneClickTrade", boolean true)
    ∷ ("IsOrderAlwayHedge", boolean true)
    ∷ ("IsOrderAlwayGuarantee", boolean true)
    ∷ ("StopTypeID", number (pos 1))
    ∷ ("TradeOrderTypeID", number (pos 1))
    ∷ ("DealDefaultStake", double (pos 1))
    ∷ ("OrderDefaultStake", double (pos 1))
    ∷ ("WebMinStake", double (pos 1))
    ∷ ("WebMaxStake", double (pos 1))
    ∷ []

abbrev details : List (String × Value)
details = ("marketDetails", of_entries market_details) ∷ ("webInfo", of_entries web_info) ∷ []

abbrev shop : JsonLib ℤ
shop = record json { parse = λ s. ok (of_entries (("d", of_entries details) ∷ [])) }

abbrev order : TradeRequest ℤ
order = record {
  dir = buy;
  market_id = pos 1;
  quote_id = pos 2;
  price = pos 3;
  stake = pos 4;
  stop = pos 5;
  limit = pos 6;
  key = codes "k";
}

abbrev trader : RestState boost teller
trader =
    (record { client = some []; account_id = codes "A9"; get_market_details_url = codes "u" }, [])

-- No request so far was one for a trade.
abbrev NoTrade : Headers × List Bytes → Type 0
NoTrade s = All (λ target. asks_trade target ≡ false) (s.1)

teller-EndsByTrade : EndsByTrade boost teller NoTrade
teller-EndsByTrade = record { post-other = λ target body headers t other held. (other, held) }

teller-Refuses : Refuses boost teller NoTrade shop float order
unfolding equal is_success Gives
teller-Refuses t response e =
    Gives-ok (λ r. is_success r.status ≡ false) (ok refused) response refl e

trader-IsUntraded : IsUntraded boost teller NoTrade trader
unfolding equal
trader-IsUntraded = record { held = tt; apart = refl }

place_trade_unsimulated_example :
    IsUntraded boost teller NoTrade ((place_trade boost teller shop float order trader).1)
    × ((response : TradeResponse)
        → (place_trade boost teller shop float order trader).0 ≢ ok response)
place_trade_unsimulated_example =
    place_trade_unsimulated boost teller NoTrade shop float order trader teller-EndsByTrade
      teller-Refuses trader-IsUntraded

-- The request for the simulation was made, and it was the last one.
requests_made : (place_trade boost teller shop float order trader).1.1 ≡ simulation ∷ codes "u" ∷ []
unfolding place_trade get_http_body same_name to_lower equal is_success value_at int_at string_at
    bool_at double_at ◌>>=◌ ◌>>◌ MarketDetailsResponse.from_json MarketDetails.from_json
    ClientWebOptionInfo.from_json
requests_made = refl
