-- ===== src/RestApi/Trading.antt =====
-- Trades and candles over HTTP, and the methods of src/td365.cpp above them.
use libtd.Base.{ℕ, ◌++◌, List, none, some}
use libtd.Base.Int.{ℤ}
use libtd.Base.Stateful.{Stateful, ◌>>=◌, ◌>>◌, give, throwing}
use libtd.Text.{Bytes, codes}
use libtd.Text.Decimal.{show_ℕ, show_ℤ}
use libtd.Json.{JsonLib}
use libtd.Parsing.Numbers.{FloatLib}
use libtd.Types.Candle.{Candle}
use libtd.Types.Trade.{TradeRequest, TradeResponse}
use libtd.Codec.TradeResponse as TradeCodec
use libtd.HttpClient.Boost.{BoostLib}
use libtd.HttpClient.Interface.{HttpLib, apart}
use libtd.RestApi.Client.{RestState, on_world}
use libtd.RestApi.Bodies.{trade_body, read_candles}
use libtd.RestApi.Calls.{make_post, get_market_details}

module _ (B : BoostLib) (H : HttpLib B) {D : Type 0} (J : JsonLib D) (F : FloatLib D) where
  unfoldable pub trade : TradeRequest D → Stateful (RestState B H) TradeResponse
  unfolding make_post trade_body
  trade request =
      make_post B H J (TradeCodec.from_json J) (codes "/UTSAPI.asmx/RequestTrade")
        (some (J.dump (trade_body J F request))) none

  unfoldable pub sim_trade : TradeRequest D → Stateful (RestState B H) (Unit {0})
  unfolding make_post trade_body
  sim_trade request = do
    simulated ←
        make_post B H J (TradeCodec.from_json J) (codes "/UTSAPI.asmx/RequestTradeSimulate")
          (some (J.dump (trade_body J F request))) none
    give tt

  abbrev pub candle_target : ℤ → ℕ → Bytes
  candle_target market_id sz =
      codes "/data/minute/" ++ (show_ℤ market_id ++ (codes "/mid?l=" ++ show_ℕ sz))

  unfoldable pub backfill : ℤ → ℕ → Stateful (RestState B H) (List (Candle D))
  unfolding apart read_candles on_world
  backfill market_id sz = do
    url ← throwing (B.parse_url (codes "https://charts.finsatechnology.com"))
    response ← on_world B H (apart B H url (H.get (candle_target market_id sz)))
    throwing (read_candles J F B sz response)

  -- `td365::trade`: the details of the market are asked for, and the trade is simulated, before it is
  -- requested.
  unfoldable pub place_trade : TradeRequest D → Stateful (RestState B H) TradeResponse
  unfolding get_market_details sim_trade trade
  place_trade request = do
    details ← get_market_details B H J request.market_id
    sim_trade request
    trade request
