-- ===== src/Td365/Session.antt =====
-- Whole sessions of the library: any calls of a td365 in any order, and what holds once it has
-- connected. Every call comes down to calls of the ws_client within.
use libtd.Base.{ℕ, String, Option, some, List, ◌≡◌, refl, Result, ok, err}
use libtd.Base.Int.{ℤ}
use libtd.Base.Stateful.{Stateful, ◌>>=◌, continue}
use libtd.Json.{JsonLib}
use libtd.Types.Tick.{Grouping}
use libtd.Types.Trade.{TradeRequest}
use libtd.Parsing.Numbers.{FloatLib}
use libtd.HttpClient.Boost.{BoostLib}
use libtd.HttpClient.Interface.{HttpLib}
use libtd.RestApi.Client.{RestState}
use libtd.RestApi.Calls.{AuthInfo, update_client_session_id}
use libtd.Authenticator.Login.{WebDetail}
use libtd.WsClient.State.{Client, Oracle}
use libtd.WsClient.Connect.{Read}
use libtd.WsClient.Sync.{IsSynced}
use libtd.WsClient.Sync.Replies.{subscribe-IsSynced, unsubscribe-IsSynced}
use libtd.WsClient.Sync.Session as WsSession
use libtd.Td365.State.{create, on_rest, on_ws}
use libtd.Td365.Wait.{Round}
use libtd.Td365.Waiting.{wait-ws_client, wait-IsSynced}
use libtd.Td365.Connecting.{
  Td365State, connect_ws, connect_session, open_session, connect_session-IsSynced,
}
use libtd.Td365.Methods.{
  subscribe, unsubscribe, get_market_super_group, get_market_group, get_market_quote,
  get_market_details, trade, backfill, wait,
}

module _ (B : BoostLib) (H : HttpLib B) {D : Type 0} (J : JsonLib D) (F : FloatLib D)
    (write_fails : Oracle J.Json) (order : List (String × Grouping)) where
  open J use {Json}

  abbrev State : Type 0
  State = Td365State B H J

  -- A call over HTTP.
  pub data Asks (s : State) : State → Type 0 where
    super_groups : Asks s ((get_market_super_group B H J s).1)
    groups : (id : ℤ) → Asks s ((get_market_group B H J id s).1)
    quotes : (id : ℤ) → Asks s ((get_market_quote B H J id s).1)
    details : (id : ℤ) → Asks s ((get_market_details B H J id s).1)
    trades : (request : TradeRequest D) → Asks s ((trade B H J F request s).1)
    candles : (market_id : ℤ) (sz : ℕ) → Asks s ((backfill B H J F market_id sz s).1)

  -- One call, however it ends. The authenticator of a connect is that of the demonstration account or
  -- that of a user.
  pub data Step (s : State) : State → Type 0 where
    connects :
        (authenticated : Stateful (H.World) (WebDetail (B.Url))) (opened : Result (Unit {0}))
        (first second : Read)
        → Step s ((connect_session B H J write_fails authenticated opened first second s).1)
    subscribes : (q : ℤ) → Step s ((subscribe B H J write_fails q s).1)
    unsubscribes : (q : ℤ) → Step s ((unsubscribe B H J write_fails q s).1)
    waits :
        (limit : Option ℕ) (start : ℕ) (rounds : List Round)
        → Step s ((wait B H J F write_fails order limit start rounds s).1)
    asks : {t : State} → Asks s t → Step s t

  pub data Reach (s : State) : State → Type 0 where
    here : Reach s s
    next : {t u : State} → Reach s t → Step t u → Reach s u

  -- One call behind a connect: a subscribe or unsubscribe that returns, or any wait or call over HTTP.
  pub data Serving (s : State) : State → Type 0 where
    subscribed :
        (q : ℤ)
        → (subscribe B H J write_fails q s).0 ≡ ok tt
        → Serving s ((subscribe B H J write_fails q s).1)
    unsubscribed :
        (q : ℤ)
        → (unsubscribe B H J write_fails q s).0 ≡ ok tt
        → Serving s ((unsubscribe B H J write_fails q s).1)
    waited :
        (limit : Option ℕ) (start : ℕ) (rounds : List Round)
        → Serving s ((wait B H J F write_fails order limit start rounds s).1)
    asked : {t : State} → Asks s t → Serving s t

  pub data Serves (s : State) : State → Type 0 where
    at_once : Serves s s
    later : {t u : State} → Serves s t → Serving t u → Serves s u

  -- The calls of the ws_client.
  abbrev WsReach : Client Json → Client Json → Type 0
  WsReach = WsSession.Reach J F write_fails order

  Asks-ws_client : {s t : State} → Asks s t → t.ws_client ≡ s.ws_client
  unfolding get_market_super_group get_market_group get_market_quote get_market_details trade
      backfill on_rest
  Asks-ws_client super_groups = refl
  Asks-ws_client (groups id) = refl
  Asks-ws_client (quotes id) = refl
  Asks-ws_client (details id) = refl
  Asks-ws_client (trades request) = refl
  Asks-ws_client (candles market_id sz) = refl

  connect_ws-Reach :
      (opened : Result (Unit {0})) (first second : Read) (c : Client Json)
      (outcome : Result (WebDetail (B.Url) × AuthInfo) × State)
      → WsReach c (outcome.1.ws_client)
      → WsReach c
          ((continue (connect_ws B H J write_fails opened first second) outcome).1.ws_client)
  unfolding connect_ws on_ws
  connect_ws-Reach opened first second c (ok session, s) r = WsSession.next r (
      WsSession.connects (B.buffer (session.0.sock_host)) (session.1.login_id) (session.1.token)
        opened first second)
  connect_ws-Reach opened first second c (err thrown, s) r = r

  -- A call of td365 is calls of its ws_client, or none.
  Step-Reach :
      {s t : State} (c : Client Json) → Step s t → WsReach c (s.ws_client) → WsReach c (t.ws_client)
  unfolding subscribe unsubscribe wait connect_session ◌>>=◌ on_ws
  Step-Reach {s} c (connects authenticated opened first second) r =
      connect_ws-Reach opened first second c
        (on_rest (open_session B H J write_fails authenticated) s) r
  Step-Reach c (subscribes q) r = WsSession.next r (WsSession.subscribes q)
  Step-Reach c (unsubscribes q) r = WsSession.next r (WsSession.unsubscribes q)
  Step-Reach {s} c (waits limit start rounds) r =
      wait-ws_client (update_client_session_id B H) J F write_fails order (WsReach c)
        (λ start' script d r'. WsSession.next r' (WsSession.reads (some 100) start' script)) limit
        start rounds s r
  Step-Reach c (asks a) r = rw (Asks-ws_client a) r

  Reach-Reach : {s t : State} → Reach s t → WsReach (s.ws_client) (t.ws_client)
  Reach-Reach here = WsSession.here
  Reach-Reach {s} (next r step) = Step-Reach (s.ws_client) step (Reach-Reach r)

  Serving-IsSynced : {s t : State} → Serving s t → IsSynced (s.ws_client) → IsSynced (t.ws_client)
  unfolding subscribe unsubscribe wait on_ws
  Serving-IsSynced {s} (subscribed q e) h = subscribe-IsSynced write_fails q (s.ws_client) h e
  Serving-IsSynced {s} (unsubscribed q e) h = unsubscribe-IsSynced write_fails q (s.ws_client) h e
  Serving-IsSynced {s} (waited limit start rounds) h =
      wait-IsSynced (update_client_session_id B H) J F write_fails order limit start rounds s h
  Serving-IsSynced (asked a) h = rw (Asks-ws_client a) h

  Serves-IsSynced : {s t : State} → Serves s t → IsSynced (s.ws_client) → IsSynced (t.ws_client)
  Serves-IsSynced at_once h = h
  Serves-IsSynced (later r step) h = Serving-IsSynced step (Serves-IsSynced r h)

  -- After any calls of a new td365, those that throw included, and a connect that returns, with
  -- whichever of the two authenticators, the server of the web socket serves exactly the quotes
  -- that its client notes, each noted once, and goes on to do so behind any waits, calls over
  -- HTTP, and calls of subscribe and unsubscribe that return.
  pub Reach-Serves-IsSynced :
      (rest : RestState B H) (authenticated : Stateful (H.World) (WebDetail (B.Url)))
      (opened : Result (Unit {0})) (first second : Read) (s t : State)
      → Reach (create rest) s
      → (connect_session B H J write_fails authenticated opened first second s).0 ≡ ok tt
      → Serves ((connect_session B H J write_fails authenticated opened first second s).1) t
      → IsSynced (t.ws_client)
  unfolding create
  Reach-Serves-IsSynced rest authenticated opened first second s t r e served =
      Serves-IsSynced served (
        connect_session-IsSynced B H J write_fails authenticated opened first second s
          (WsSession.Reach-IsDistinct J F write_fails order (Reach-Reach r) tt) e)
