-- ===== src/Strategy/Running.antt =====
-- What the server serves while the program runs.
use libtd.Base.{ℕ, String, Option, some, List, [], ◌∷◌, ◌≡◌, arith, Result, ok}
use libtd.Base.Int.{ℤ}
use libtd.Base.Stateful.{Stateful, ◌>>◌, Ensures, bind-Ensures, then-Ensures, Keeps-Ensures}
use libtd.Json.{JsonLib}
use libtd.Types.Tick.{Grouping}
use libtd.Types.Market.{Market}
use libtd.Parsing.Numbers.{FloatLib}
use libtd.HttpClient.Boost.{BoostLib}
use libtd.HttpClient.Interface.{HttpLib}
use libtd.RestApi.Calls.{update_client_session_id}
use libtd.Authenticator.Login.{WebDetail}
use libtd.WsClient.State.{Client, Oracle}
use libtd.WsClient.Connect.{Read}
use libtd.WsClient.Subscriptions.{contains}
use libtd.WsClient.Subscriptions as Subscriptions
use libtd.WsClient.Sync.{IsSynced}
use libtd.WsClient.Sync.Handle.{read_and_process_message-IsSynced}
use libtd.WsClient.Sync.Notes.{read_and_process_message-Notes}
use libtd.WsClient.Sync.Replies.{subscribe-IsSynced}
use libtd.Td365.Wait.{Round}
use libtd.Td365.State.{on_ws}
use libtd.Td365.Waiting.{wait-ws_client}
use libtd.Td365.Connecting.{Td365State, connect_session, connect_session-IsSynced}
use libtd.Td365.Noting.{connect_session-Notes}
use libtd.Td365.Methods
use libtd.Strategy.Candles.{Doubles}
use libtd.Strategy.Keeping.{run-keeps, find_market-Keeps, backfill-Keeps}
use libtd.Strategy.Trader.{
  Await, StrategyState, on_client, run, subscribe, setup_subscription, construct,
}

module _ (B : BoostLib) (H : HttpLib B) {D : Type 0} (J : JsonLib D) (F : FloatLib D)
    (M : Doubles D) (write_fails : Oracle J.Json) (order : List (String × Grouping)) where
  -- The server serves exactly these quotes, which the client notes.
  pub record IsNoting (quotes : List ℤ) (c : Client J.Json) : Type 0 where
    pub synced : IsSynced c
    pub noted : c.subscribed ≡ quotes

  -- The server serves exactly the quote of the market.
  abbrev pub IsServing : StrategyState B H J F M write_fails order → Type 0
  IsServing s = IsNoting (s.market.quote_id ∷ []) (s.client.ws_client)

  wait-IsNoting :
      (quotes : List ℤ) (limit : Option ℕ) (start : ℕ) (rounds : List Round) (c : Td365State B H J)
      → IsNoting quotes (c.ws_client)
      → IsNoting quotes ((Methods.wait B H J F write_fails order limit start rounds c).1.ws_client)
  unfolding Methods.wait
  wait-IsNoting quotes =
      wait-ws_client (update_client_session_id B H) J F write_fails order (IsNoting quotes)
        (λ start script c h. record {
          synced =
              read_and_process_message-IsSynced J F write_fails order (some 100) start script c
                h.synced;
          noted =
              read_and_process_message-Notes J F write_fails order (λ qs. qs ≡ quotes) (some 100)
                start script c h.noted;
        })

  run-IsServing :
      (awaits : List Await) (s : StrategyState B H J F M write_fails order)
      → IsServing s
      → IsServing ((run B H J F M write_fails order awaits s).1)
  run-IsServing =
      run-keeps B H J F M write_fails order (λ c m. IsNoting (m.quote_id ∷ []) c)
        (λ limit start rounds c m h. wait-IsNoting (m.quote_id ∷ []) limit start rounds c h)

  connect-Ensures :
      (authenticated : Stateful (H.World) (WebDetail (B.Url))) (opened : Result (Unit {0}))
      (first second : Read)
      → Ensures {State = StrategyState B H J F M write_fails order}
          (λ s. s.client.ws_client.subscribed ≡ [])
          (λ u s. IsNoting [] (s.client.ws_client))
          (on_client B H J F M write_fails order
            (connect_session B H J write_fails authenticated opened first second))
  unfolding Ensures on_client
  connect-Ensures authenticated opened first second s u h e = record {
    synced =
        connect_session-IsSynced B H J write_fails authenticated opened first second s.client
          (rw h tt) e;
    noted =
        connect_session-Notes B H J F write_fails order (λ qs. qs ≡ []) authenticated opened first
          second s.client h;
  }

  subscribed :
      (q : ℤ) (c : Client J.Json)
      → IsNoting [] c
      → (Subscriptions.subscribe write_fails q c).0 ≡ ok tt
      → IsNoting (q ∷ []) ((Subscriptions.subscribe write_fails q c).1)
  unfolding Subscriptions.subscribe contains
  subscribed q c h e = record {
    synced = subscribe-IsSynced write_fails q c h.synced e;
    noted = ground arith;
  }

  subscribe-Ensures :
      (market : Market D)
      → Ensures {State = StrategyState B H J F M write_fails order}
          (λ s. IsNoting [] (s.client.ws_client))
          (λ u. IsServing)
          (subscribe B H J F M write_fails order market)
  unfolding subscribe on_client on_ws Methods.subscribe Ensures ◌>>◌
  subscribe-Ensures market s u h e = subscribed market.quote_id (s.client.ws_client) h e

  construct-Ensures :
      (authenticated : Stateful (H.World) (WebDetail (B.Url))) (opened : Result (Unit {0}))
      (first second : Read)
      → Ensures
          (λ s. s.client.ws_client.subscribed ≡ [])
          (λ u. IsServing)
          (construct B H J F M write_fails order authenticated opened first second)
  unfolding construct setup_subscription
  construct-Ensures authenticated opened first second =
      then-Ensures _ (λ s. IsNoting [] (s.client.ws_client)) _ _ _
        (connect-Ensures authenticated opened first second)
        (then-Ensures _ IsServing _ _ _
          (bind-Ensures _ (λ m s. IsNoting [] (s.client.ws_client)) _ _ _
            (Keeps-Ensures _ _
              (find_market-Keeps B H J F M write_fails order (λ c m. IsNoting [] c)))
            subscribe-Ensures)
          (Keeps-Ensures _ _
            (backfill-Keeps B H J F M write_fails order (λ c m. IsNoting (m.quote_id ∷ []) c))))

  -- Once the constructor of the demonstration program has returned, for a client that noted no
  -- quotes, the server serves exactly the quote of the market that was found, through every run
  -- of its loop over events, however it ends.
  pub construct-run-IsServing :
      (authenticated : Stateful (H.World) (WebDetail (B.Url))) (opened : Result (Unit {0}))
      (first second : Read) (s : StrategyState B H J F M write_fails order) (awaits : List Await)
      → s.client.ws_client.subscribed ≡ []
      → (construct B H J F M write_fails order authenticated opened first second s).0 ≡ ok tt
      → IsServing (
          (run B H J F M write_fails order awaits
            ((construct B H J F M write_fails order authenticated opened first second s).1)).1)
  unfolding Ensures
  construct-run-IsServing authenticated opened first second s awaits h e =
      run-IsServing awaits _ (construct-Ensures authenticated opened first second s tt h e)
