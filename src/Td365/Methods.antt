-- ===== src/Td365/Methods.antt =====
-- src/td365.cpp: the methods that hand their arguments on to one of the two members, and `wait` with the
-- request that refreshes the session. `Connecting` has the two overloads of `connect`.
use libtd.Base.{ℕ, String, Option, List}
use libtd.Base.Int.{ℤ}
use libtd.Base.Stateful.{Stateful}
use libtd.Json.{JsonLib}
use libtd.Types.Tick.{Grouping}
use libtd.Types.Market.{Market, MarketGroup, MarketDetailsResponse}
use libtd.Types.Candle.{Candle}
use libtd.Types.Trade.{TradeRequest, TradeResponse}
use libtd.Parsing.Numbers.{FloatLib}
use libtd.HttpClient.Boost.{BoostLib}
use libtd.HttpClient.Interface.{HttpLib}
use libtd.RestApi.Calls
use libtd.RestApi.Trading
use libtd.WsClient.State.{Oracle}
use libtd.WsClient.Subscriptions
use libtd.WsClient.Loop.{Outcome}
use libtd.Td365.State.{on_rest, on_ws}
use libtd.Td365.Wait.{Round}
use libtd.Td365.Wait
use libtd.Td365.Connecting.{Td365State}

module _ (B : BoostLib) (H : HttpLib B) {D : Type 0} (J : JsonLib D) where
  unfoldable pub subscribe : Oracle J.Json → ℤ → Stateful (Td365State B H J) (Unit {0})
  unfolding on_ws Subscriptions.subscribe
  subscribe write_fails quote_id = on_ws (Subscriptions.subscribe write_fails quote_id)

  unfoldable pub unsubscribe : Oracle J.Json → ℤ → Stateful (Td365State B H J) (Unit {0})
  unfolding on_ws Subscriptions.unsubscribe
  unsubscribe write_fails quote_id = on_ws (Subscriptions.unsubscribe write_fails quote_id)

  unfoldable pub get_market_super_group : Stateful (Td365State B H J) (List MarketGroup)
  unfolding on_rest Calls.get_market_super_group
  get_market_super_group = on_rest (Calls.get_market_super_group B H J)

  unfoldable pub get_market_group : ℤ → Stateful (Td365State B H J) (List MarketGroup)
  unfolding on_rest Calls.get_market_group
  get_market_group id = on_rest (Calls.get_market_group B H J id)

  unfoldable pub get_market_quote : ℤ → Stateful (Td365State B H J) (List (Market D))
  unfolding on_rest Calls.get_market_quote
  get_market_quote id = on_rest (Calls.get_market_quote B H J id)

  unfoldable pub get_market_details : ℤ → Stateful (Td365State B H J) (MarketDetailsResponse D)
  unfolding on_rest Calls.get_market_details
  get_market_details id = on_rest (Calls.get_market_details B H J id)

  module _ (F : FloatLib D) where
    unfoldable pub trade : TradeRequest D → Stateful (Td365State B H J) TradeResponse
    unfolding on_rest Trading.place_trade
    trade request = on_rest (Trading.place_trade B H J F request)

    unfoldable pub backfill : ℤ → ℕ → Stateful (Td365State B H J) (List (Candle D))
    unfolding on_rest Trading.backfill
    backfill market_id sz = on_rest (Trading.backfill B H J F market_id sz)

    module _ (write_fails : Oracle J.Json) (order : List (String × Grouping)) where
      unfoldable pub wait :
          Option ℕ → ℕ → List Round → Td365State B H J → Outcome D × Td365State B H J
      unfolding Wait.wait Calls.update_client_session_id
      wait = Wait.wait (Calls.update_client_session_id B H) J F write_fails order
