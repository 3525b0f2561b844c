-- ===== src/Tests/Demo.antt =====
-- The demonstration program against a site that answers each request by its target.
use libtd.Base.{if◌then◌else◌, none, [], ◌∷◌, ◌++◌, ◌≡◌, refl, Result, ok}
use libtd.Base.Int.{ℤ, pos}
use libtd.Base.Stateful.{◌>>=◌, ◌>>◌}
use libtd.Text.{Bytes, codes, equal}
use libtd.Text.Search.{find}
use libtd.Json.{JsonLib, value_at, read_array, int_at, string_at, bool_at, double_at, vector_at}
use libtd.Base.{traverse}
use libtd.Parsing.GroupingNames.{grouping_map}
use libtd.Types.Market.{MarketGroup, Market}
use libtd.Codec.MarketGroup as MarketGroupCodec
use libtd.Codec.Market as MarketCodec
use libtd.CookieJar.Headers.{session, to_lower}
use libtd.HttpClient.Boost.{Headers, success, same_name}
use libtd.HttpClient.Interface.{HttpLib}
use libtd.RestApi.Client.{open_client}
use libtd.Authenticator.Accounts.{demo}
use libtd.Authenticator.Login.{WebDetail}
use libtd.RestApi.Calls.{connect}
use libtd.RestApi.Urls.{replace_spaces, find_from, replace, replace_loop}
use libtd.RestApi.Pages.{
  extract_value, extract_login_id, extract_account_id, read_page, extract_ots,
}
use libtd.HttpClient.Client.{get_http_body}
use libtd.WsClient.State.{send, store_connection_id}
use libtd.WsClient.State
use libtd.WsClient.Connect.{handshake, read_or_throw}
use libtd.WsClient.Messages.{
  process_connect_response, process_authentication_response, before_resubscribe, index2,
  set_connection_id, send_reconnect, resubscribe,
}
use libtd.Parsing.CandleLine.{parse_candle}
use libtd.Parsing.Fields.{split_fields}
use libtd.Text.Split.{split}
use libtd.Parsing.Numbers.{string_to_timepoint, parse_double}
use libtd.Text.Decimal.{from_chars, show_ℤ, show_ℕ}
use libtd.Td365.State.{create}
use libtd.Strategy.Candles as Candles
use libtd.Strategy.Signals.{Signal}
use libtd.Strategy.Trader.{StrategyState, Await, construct, run, backfill}
use libtd.Td365.Methods
use libtd.Types.Candle.{Candle}
use libtd.Strategy.Filling.{places, backfill-places}
use libtd.Strategy.Running.{IsServing, construct-run-IsServing}
use libtd.Tests.Library.{Value, json, float, of_entries, of_items, text}
use libtd.Tests.Values.{a_market, a_market_group}
use libtd.Tests.Network.{boost, landed}
use libtd.Tests.Sessions.{never, greeted, accepting}
use libtd.Tests.Waits.{a_round}
use libtd.Tests.Trades.{doubles}

-- A client is its headers, and a response to a POST repeats the target.
abbrev site : HttpLib boost
site = record {
  Client = Headers;
  World = Unit {0};
  create = λ url w. (ok [], w);
  get = λ target s.
      (ok (if equal target (codes "b") then landed else record landed { body = target }), s);
  post = λ target body headers s. (ok (record { status = success; fields = []; body = target }), s);
  emplace = λ n v c. c ++ (n, v) ∷ [];
  cookie = λ c n. session n (codes "T1");
  default_headers = λ c. c;
  headers-emplace = λ n v c. refl;
  headers-get = λ target s. refl;
  headers-post = λ target body headers s. refl;
}

abbrev answer : Value → Value
answer v = of_entries (("d", v) ∷ [])

abbrev named : Bytes → MarketGroup
named name = record a_market_group { name = name }

abbrev nasdaq : Market ℤ
nasdaq = record a_market { market_name = codes "US Tech 100" }

abbrev line : Value
line = text (codes "1,2,3,4,5,6")

abbrev answers : Bytes → Result Value
answers target =
    if equal target (codes "/UTSAPI.asmx/GetMarketSuperGroup")
    then ok (
        answer (
          of_items (
            MarketGroupCodec.to_json json (named (codes "Forex"))
            ∷ MarketGroupCodec.to_json json (named (codes "Indices"))
            ∷ [])))
    else if equal target (codes "/UTSAPI.asmx/GetMarketGroup")
    then ok (answer (of_items (MarketGroupCodec.to_json json (named (codes "US")) ∷ [])))
    else if equal target (codes "/UTSAPI.asmx/GetMarketQuote")
    then ok (answer (of_items (MarketCodec.to_json json nasdaq ∷ [])))
    else if equal target (codes "/data/minute/7/mid?l=3")
    then ok (of_entries (("data", of_items (line ∷ line ∷ line ∷ [])) ∷ []))
    else json.parse target

abbrev library : JsonLib ℤ
library = record json { parse = answers }

abbrev let_in : Unit {0} → Result (WebDetail Bytes) × Unit {0}
let_in w = (
  ok (record {
    platform_url = codes "b";
    account_type = demo;
    site_host = codes "s";
    api_host = codes "i";
    sock_host = codes "u";
  }),
  w,
)

abbrev Demo : Type 0
Demo = StrategyState boost site library float doubles never grouping_map

abbrev before : Demo
before = record {
  client = create (record { client = none; account_id = []; get_market_details_url = [] }, tt);
  sig = record { last_signal = Signal.none; agg = Candles.create doubles (pos 5) };
  market = a_market;
  n_ticks = 0;
}

constructs :
    (construct boost site library float doubles never grouping_map let_in
      (ok tt)
      greeted
      accepting
      before).0
    ≡ ok tt
unfolding construct ◌>>=◌ ◌>>◌ connect open_client equal read_page same_name extract_login_id
    extract_account_id extract_value extract_ots find replace_spaces find_from replace replace_loop
    handshake State.◌>>=◌ read_or_throw process_connect_response process_authentication_response
    before_resubscribe index2 set_connection_id send_reconnect resubscribe send store_connection_id
    create Candles.create get_http_body to_lower MarketGroupCodec.from_json MarketCodec.from_json
    MarketGroupCodec.to_json MarketCodec.to_json parse_candle split_fields split string_to_timepoint
    from_chars parse_double value_at read_array traverse int_at string_at bool_at double_at
    vector_at show_ℤ show_ℕ
constructs = refl

abbrev one_wait : Await
one_wait = record { start = 0; rounds = a_round ∷ []; clock = pos 7 }

abbrev built : Demo
built =
    (construct boost site library float doubles never grouping_map let_in (ok tt) greeted accepting
      before).1

construct-run-IsServing_example :
    IsServing boost site library float doubles never grouping_map
      ((run boost site library float doubles never grouping_map (one_wait ∷ []) built).1)
unfolding create
construct-run-IsServing_example =
    construct-run-IsServing boost site library float doubles never grouping_map let_in (ok tt)
      greeted accepting before (one_wait ∷ []) refl constructs

abbrev each : Candle ℤ
each = record {
  timestamp = pos 0;
  open_price = pos 2;
  high = pos 3;
  low = pos 4;
  close = pos 5;
  volume = pos 6;
}

fetched :
    (Methods.backfill boost site library float (before.market.market_id) 3 (before.client)).0
    ≡ ok (each ∷ each ∷ each ∷ [])
unfolding Methods.backfill ◌>>=◌ create get_http_body equal parse_candle split_fields split
    string_to_timepoint from_chars parse_double value_at read_array traverse string_at vector_at
    show_ℤ show_ℕ same_name
fetched = refl

backfill-places_example :
    ((backfill boost site library float doubles never grouping_map before).0 ≡ ok tt)
    × (places
          ((backfill boost site library float doubles never grouping_map before).1.sig.agg.history)
        ≡ each ∷ each ∷ each ∷ [])
backfill-places_example =
    backfill-places boost site library float doubles never grouping_map before
      (each ∷ each ∷ each ∷ []) fetched
