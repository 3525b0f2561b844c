-- ===== src/Strategy/Trader.antt =====
-- `strategy`: the program itself, over a td365.
use libtd.Base.{
  ℕ, ◌+◌, ◌==◌, ltb, Bool, true, false, if◌then◌else◌, String, Option, none, some, List, [], ◌∷◌,
  Error, Result, ok, err, or_throw, guard, undefined,
}
use libtd.Base.Int.{ℤ, int32_limit}
use libtd.Base.Stateful.{Stateful, ◌>>=◌, ◌>>◌, give, throwing, reading, modify, joined}
use libtd.Text.{Bytes, codes, equal}
use libtd.Json.{JsonLib}
use libtd.Types.Tick.{Tick, Grouping}
use libtd.Types.Market.{Market}
use libtd.Types.Trade.{Direction, TradeRequest}
use libtd.Types.Event.{
  Event, tick_event, account_summary_event, account_details_event, trade_established_event,
  error_event, connection_closed_event, timeout_event,
}
use libtd.Parsing.Numbers.{FloatLib}
use libtd.HttpClient.Boost.{BoostLib}
use libtd.HttpClient.Interface.{HttpLib}
use libtd.Authenticator.Login.{WebDetail}
use libtd.WsClient.State.{Oracle}
use libtd.WsClient.Connect.{Read}
use libtd.WsClient.Loop.{Outcome, returned, threw, waiting}
use libtd.Td365.Wait.{Round}
use libtd.Td365.Connecting.{Td365State, connect_session}
use libtd.Td365.Methods
use libtd.Strategy.Candles.{Doubles}
use libtd.Strategy.Aggregation as Aggregation
use libtd.Strategy.Signals.{Signal, Signals}
use libtd.Strategy.Signals as Signals

pub record Strategy (D Client : Type 0) : Type 0 where
  pub client : Client
  pub sig : Signals D
  pub market : Market D
  pub n_ticks : ℕ

-- `std::ranges::find_if` by a name; the assertion behind it is `undefined` where it fails.
unfoldable pub find_name : {A : Type 0} → (A → Bytes) → Bytes → List A → Option A
find_name name_of name [] = none
find_name name_of name (x ∷ xs) =
    let rest = find_name name_of name xs in if equal (name_of x) name then some x else rest

-- What a call of `wait` meets, and the system clock behind it.
pub record Await : Type 0 where
  pub start : ℕ
  pub rounds : List Round
  pub clock : ℤ

-- How `run` ends; `running` if the list of waits ends first.
pub data Ending : Type 0 where
  exited running : Ending
  failed : Error → Ending

module _ {D : Type 0} (M : Doubles D) where
  abbrev pub buy_request : Market D → Tick D → TradeRequest D
  buy_request market t = record {
    dir = Direction.buy;
    market_id = market.market_id;
    quote_id = market.quote_id;
    price = t.ask;
    stake = M.one;
    stop = M.sub t.ask M.ten;
    limit = M.add t.ask M.ten;
    key = t.hash;
  }

  abbrev pub sell_request : Market D → Tick D → TradeRequest D
  sell_request market t = record {
    dir = Direction.sell;
    market_id = market.market_id;
    quote_id = market.quote_id;
    price = t.bid;
    stake = M.one;
    stop = M.add t.bid M.ten;
    limit = M.sub t.bid M.ten;
    key = t.hash;
  }

module _ (B : BoostLib) (H : HttpLib B) {D : Type 0} (J : JsonLib D) (F : FloatLib D)
    (M : Doubles D) (write_fails : Oracle J.Json) (order : List (String × Grouping)) where
  abbrev pub StrategyState : Type 0
  StrategyState = Strategy D (Td365State B H J)

  unfoldable pub on_client :
      {Value : Type 0} → Stateful (Td365State B H J) Value → Stateful StrategyState Value
  on_client call s = joined (λ c. record s { client = c }) (call (s.client))

  -- The response is only logged.
  unfoldable pub place : TradeRequest D → Stateful StrategyState (Unit {0})
  unfolding on_client Methods.trade
  place request = do response ← on_client (Methods.trade B H J F request); give tt

  unfoldable pub buy : Tick D → Stateful StrategyState (Unit {0})
  unfolding place
  buy t = do market ← reading (λ s. s.market); place (buy_request M market t)

  unfoldable pub sell : Tick D → Stateful StrategyState (Unit {0})
  unfolding place
  sell t = do market ← reading (λ s. s.market); place (sell_request M market t)

  unfoldable pub buy_tenth : Tick D → ℕ → Stateful StrategyState (Unit {0})
  unfolding buy
  buy_tenth t n = if n == 10 then buy t else give tt

  unfoldable pub act : Signal → Tick D → Stateful StrategyState (Unit {0})
  unfolding buy sell
  act Signal.none t = give tt
  act Signal.buy t = buy t
  act Signal.sell t = sell t

  -- `sig.on_tick`
  unfoldable pub signal : ℤ → Tick D → Stateful StrategyState Signal
  unfolding Signals.on_tick
  signal now t s = let (v, sig) = Signals.on_tick M now t s.sig in (ok v, record s { sig = sig })

  -- The counter is an int, and its overflow is undefined.
  unfoldable pub on_tick : ℤ → Tick D → Stateful StrategyState (Unit {0})
  unfolding buy_tenth signal act
  on_tick now t = do
    n ← reading (λ s. s.n_ticks)
    buy_tenth t n
    throwing (guard (ltb (n + 1) int32_limit) undefined)
    modify (λ s. record s { n_ticks = n + 1 })
    v ← signal now t
    act v t

  -- Whether to exit. The events of the account are only logged.
  unfoldable pub visit : ℤ → Event D → Stateful StrategyState Bool
  unfolding on_tick
  visit now (tick_event t) = do on_tick now t; give false
  visit now (account_summary_event a) = give false
  visit now (account_details_event a) = give false
  visit now (trade_established_event t) = give false
  visit now (error_event e) = give false
  visit now connection_closed_event = give true
  visit now timeout_event = give false

  unfoldable pub after_visit :
      (StrategyState → Ending × StrategyState)
      → Result Bool × StrategyState
      → Ending × StrategyState
  after_visit rest (err thrown, s) = (failed thrown, s)
  after_visit rest (ok true, s) = (exited, s)
  after_visit rest (ok false, s) = rest s

  unfoldable pub after_wait :
      (StrategyState → Ending × StrategyState)
      → ℤ
      → StrategyState
      → Outcome D × Td365State B H J
      → Ending × StrategyState
  unfolding visit after_visit
  after_wait rest now s (returned e, c) = after_visit rest (visit now e (record s { client = c }))
  after_wait rest now s (threw e, c) = (failed e, record s { client = c })
  after_wait rest now s (waiting, c) = (running, record s { client = c })

  unfoldable pub run : List Await → StrategyState → Ending × StrategyState
  unfolding after_wait Methods.wait
  run [] s = (running, s)
  run (a ∷ later) s =
      after_wait (run later) a.clock s
        (Methods.wait B H J F write_fails order none a.start a.rounds s.client)

  unfoldable pub find_market : Stateful StrategyState (Market D)
  unfolding on_client find_name Methods.get_market_super_group Methods.get_market_group
      Methods.get_market_quote
  find_market = do
    super_groups ← on_client (Methods.get_market_super_group B H J)
    indices ← throwing (or_throw (find_name (λ x. x.name) (codes "Indices") super_groups) undefined)
    second_level ← on_client (Methods.get_market_group B H J indices.id)
    us_item ← throwing (or_throw (find_name (λ x. x.name) (codes "US") second_level) undefined)
    us ← on_client (Methods.get_market_quote B H J us_item.id)
    throwing (or_throw (find_name (λ x. x.market_name) (codes "US Tech 100") us) undefined)

  unfoldable pub subscribe : Market D → Stateful StrategyState (Unit {0})
  unfolding on_client Methods.subscribe
  subscribe market = do
    modify (λ s. record s { market = market })
    on_client (Methods.subscribe B H J write_fails market.quote_id)

  unfoldable pub setup_subscription : Stateful StrategyState (Unit {0})
  unfolding find_market subscribe
  setup_subscription = do market ← find_market; subscribe market

  unfoldable pub backfill : Stateful StrategyState (Unit {0})
  unfolding on_client Methods.backfill Aggregation.backfill
  backfill = do
    market ← reading (λ s. s.market)
    candles ← on_client (Methods.backfill B H J F market.market_id 3)
    sig ← reading (λ s. s.sig)
    agg ← throwing (Aggregation.backfill candles sig.agg)
    modify (λ s. record s { sig = record (s.sig) { agg = agg } })

  -- The constructor, once its members are there. Which authenticator `connect` asks is an argument.
  unfoldable pub construct :
      Stateful (H.World) (WebDetail (B.Url))
      → Result (Unit {0})
      → Read
      → Read
      → Stateful StrategyState (Unit {0})
  unfolding on_client connect_session setup_subscription backfill
  construct authenticated opened first second = do
    on_client (connect_session B H J write_fails authenticated opened first second)
    setup_subscription
    backfill

  unfoldable pub started : List Await → Result (Unit {0}) × StrategyState → Ending × StrategyState
  unfolding run
  started awaits (ok u, s) = run awaits s
  started awaits (err thrown, s) = (failed thrown, s)

  -- An exception ends the program.
  unfoldable pub main :
      Stateful (H.World) (WebDetail (B.Url))
      → Result (Unit {0})
      → Read
      → Read
      → List Await
      → StrategyState
      → Ending × StrategyState
  unfolding construct started
  main authenticated opened first second awaits s =
      started awaits (construct authenticated opened first second s)
