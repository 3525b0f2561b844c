-- ===== src/Strategy/Keeping.antt =====
-- What the calls of the program keep of the ws_client within and of the market.
use libtd.Base.{
  ◌+◌, ℕ, Bool, true, false, Bool-cases, inl, inr, String, Option, none, List, [], ◌∷◌, ◌==◌,
  Result, ok, err,
}
use libtd.Base.Int.{ℤ}
use libtd.Base.Stateful.{Stateful, give, throwing, reading, modify, Keeps, bind-Keeps, then-Keeps}
use libtd.Json.{JsonLib}
use libtd.Types.Tick.{Tick, Grouping}
use libtd.Types.Market.{Market}
use libtd.Types.Trade.{TradeRequest}
use libtd.Types.Event.{
  Event, tick_event, account_summary_event, account_details_event, trade_established_event,
  error_event, connection_closed_event, timeout_event,
}
use libtd.Parsing.Numbers.{FloatLib}
use libtd.HttpClient.Boost.{BoostLib}
use libtd.HttpClient.Interface.{HttpLib}
use libtd.RestApi.Client.{RestState}
use libtd.RestApi.Calls.{update_client_session_id}
use libtd.RestApi.Calls
use libtd.RestApi.Trading
use libtd.WsClient.State.{Client, Oracle}
use libtd.WsClient.Loop.{Outcome, returned, threw, waiting}
use libtd.Td365.Wait.{Round}
use libtd.Td365.State.{on_rest}
use libtd.Td365.Connecting.{Td365State}
use libtd.Td365.Methods
use libtd.Strategy.Candles.{CandleAgg, Doubles}
use libtd.Strategy.Signals.{Signal}
use libtd.Strategy.Trader.{
  Await, Ending, StrategyState, on_client, buy_request, sell_request, place, buy, sell, buy_tenth,
  act, signal, on_tick, visit, after_visit, after_wait, run, find_market, backfill,
}

module _ (B : BoostLib) (H : HttpLib B) {D : Type 0} (J : JsonLib D) (F : FloatLib D)
    (M : Doubles D) (write_fails : Oracle J.Json) (order : List (String × Grouping)) where
  abbrev pub State : Type 0
  State = StrategyState B H J F M write_fails order

  -- What a call of the program keeps, of the ws_client within and the market.
  module _ (P : Client J.Json → Market D → Type 0) where
    abbrev pub Holds : State → Type 0
    Holds s = P (s.client.ws_client) s.market

    -- A call of the rest_api within.
    on_rest-Keeps :
        {V : Type 0} (call : Stateful (RestState B H) V)
        → Keeps Holds (on_client B H J F M write_fails order (on_rest call))
    unfolding Keeps on_client on_rest
    on_rest-Keeps call s h = h

    throwing-Keeps : {V : Type 0} (r : Result V) → Keeps Holds (throwing r)
    unfolding Keeps
    throwing-Keeps r s h = h

    give-Keeps : {V : Type 0} (v : V) → Keeps Holds (give v)
    unfolding Keeps
    give-Keeps v s h = h

    reading-Keeps : {V : Type 0} (f : State → V) → Keeps Holds (reading f)
    unfolding Keeps
    reading-Keeps f s h = h

    place-Keeps :
        (request : TradeRequest D) → Keeps Holds (place B H J F M write_fails order request)
    unfolding place Methods.trade
    place-Keeps request =
        bind-Keeps Holds _ _ (on_rest-Keeps (Trading.place_trade B H J F request))
          (λ response. give-Keeps tt)

    buy-Keeps : (t : Tick D) → Keeps Holds (buy B H J F M write_fails order t)
    unfolding buy
    buy-Keeps t =
        bind-Keeps Holds _ _ (reading-Keeps _) (λ market. place-Keeps (buy_request M market t))

    sell-Keeps : (t : Tick D) → Keeps Holds (sell B H J F M write_fails order t)
    unfolding sell
    sell-Keeps t =
        bind-Keeps Holds _ _ (reading-Keeps _) (λ market. place-Keeps (sell_request M market t))

    buy_tenth-Keeps : (t : Tick D) (n : ℕ) → Keeps Holds (buy_tenth B H J F M write_fails order t n)
    unfolding buy_tenth
    buy_tenth-Keeps t n = elim (Bool-cases (n == 10)) [
      | inl tenth ↦ rw tenth (buy-Keeps t)
      | inr other ↦ rw other (give-Keeps tt)
    ]

    act-Keeps : (v : Signal) (t : Tick D) → Keeps Holds (act B H J F M write_fails order v t)
    unfolding act
    act-Keeps Signal.none t = give-Keeps tt
    act-Keeps Signal.buy t = buy-Keeps t
    act-Keeps Signal.sell t = sell-Keeps t

    signal-Keeps : (now : ℤ) (t : Tick D) → Keeps Holds (signal B H J F M write_fails order now t)
    unfolding Keeps signal
    signal-Keeps now t s h = h

    count-Keeps : (n : ℕ) → Keeps Holds (modify (λ s. record s { n_ticks = n }))
    unfolding Keeps
    count-Keeps n s h = h

    on_tick-Keeps : (now : ℤ) (t : Tick D) → Keeps Holds (on_tick B H J F M write_fails order now t)
    unfolding on_tick
    on_tick-Keeps now t = bind-Keeps Holds _ _ (reading-Keeps _) (λ n.
        then-Keeps Holds _ _ (buy_tenth-Keeps t n) (
          then-Keeps Holds _ _ (throwing-Keeps _) (
            then-Keeps Holds _ _ (count-Keeps (n + 1))
              (bind-Keeps Holds _ _ (signal-Keeps now t) (λ v. act-Keeps v t)))))

    visit-Keeps : (now : ℤ) (e : Event D) → Keeps Holds (visit B H J F M write_fails order now e)
    unfolding visit
    visit-Keeps now (tick_event t) = then-Keeps Holds _ _ (on_tick-Keeps now t) (give-Keeps false)
    visit-Keeps now (account_summary_event a) = give-Keeps false
    visit-Keeps now (account_details_event a) = give-Keeps false
    visit-Keeps now (trade_established_event t) = give-Keeps false
    visit-Keeps now (error_event e) = give-Keeps false
    visit-Keeps now connection_closed_event = give-Keeps true
    visit-Keeps now timeout_event = give-Keeps false

    pub find_market-Keeps : Keeps Holds (find_market B H J F M write_fails order)
    unfolding find_market Methods.get_market_super_group Methods.get_market_group
        Methods.get_market_quote
    find_market-Keeps =
        bind-Keeps Holds _ _ (on_rest-Keeps (Calls.get_market_super_group B H J)) (λ super_groups.
          bind-Keeps Holds _ _ (throwing-Keeps _) (λ indices.
            bind-Keeps Holds _ _ (on_rest-Keeps (Calls.get_market_group B H J indices.id))
              (λ second_level. bind-Keeps Holds _ _ (throwing-Keeps _) (λ us_item.
                bind-Keeps Holds _ _ (on_rest-Keeps (Calls.get_market_quote B H J us_item.id))
                  (λ us. throwing-Keeps _)))))

    candles-Keeps :
        (agg : CandleAgg D)
        → Keeps Holds (modify (λ s. record s { sig = record (s.sig) { agg = agg } }))
    unfolding Keeps
    candles-Keeps agg s h = h

    pub backfill-Keeps : Keeps Holds (backfill B H J F M write_fails order)
    unfolding backfill Methods.backfill
    backfill-Keeps = bind-Keeps Holds _ _ (reading-Keeps _) (λ market.
        bind-Keeps Holds _ _ (on_rest-Keeps (Trading.backfill B H J F market.market_id 3))
          (λ candles.
            bind-Keeps Holds _ _ (reading-Keeps _)
              (λ sig. bind-Keeps Holds _ _ (throwing-Keeps _) (λ agg. candles-Keeps agg))))

    after_visit-keeps :
        (rest : State → Ending × State) (o : Result Bool × State)
        → ((s : State) → Holds s → Holds ((rest s).1))
        → Holds (o.1)
        → Holds ((after_visit B H J F M write_fails order rest o).1)
    unfolding after_visit
    after_visit-keeps rest (err thrown, s) k h = h
    after_visit-keeps rest (ok true, s) k h = h
    after_visit-keeps rest (ok false, s) k h = k s h

    after_wait-keeps :
        (rest : State → Ending × State) (now : ℤ) (s : State) (o : Outcome D × Td365State B H J)
        → ((s : State) → Holds s → Holds ((rest s).1))
        → P (o.1.ws_client) s.market
        → Holds ((after_wait B H J F M write_fails order rest now s o).1)
    unfolding after_wait Keeps
    after_wait-keeps rest now s (returned e, c) k h =
        after_visit-keeps rest _ k (visit-Keeps now e (record s { client = c }) h)
    after_wait-keeps rest now s (threw e, c) k h = h
    after_wait-keeps rest now s (waiting, c) k h = h

    module _
        (waits : (limit : Option ℕ) (start : ℕ) (rounds : List Round) (c : Td365State B H J)
            (m : Market D)
          → P (c.ws_client) m
          → P ((Methods.wait B H J F write_fails order limit start rounds c).1.ws_client) m) where
      pub run-keeps :
          (awaits : List Await) (s : State)
          → Holds s
          → Holds ((run B H J F M write_fails order awaits s).1)
      unfolding run
      run-keeps [] s h = h
      run-keeps (a ∷ later) s h =
          after_wait-keeps (run B H J F M write_fails order later) a.clock s _ (run-keeps later)
            (waits none a.start a.rounds s.client s.market h)
