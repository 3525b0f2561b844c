-- ===== src/Td365/Noting.antt =====
-- The noted quotes, which `connect` and `wait` leave.
use libtd.Base.{String, List, Result, ok, err}
use libtd.Base.Int.{ℤ}
use libtd.Base.Stateful.{Stateful, ◌>>=◌, continue}
use libtd.Json.{JsonLib}
use libtd.Types.Tick.{Grouping}
use libtd.Parsing.Numbers.{FloatLib}
use libtd.HttpClient.Boost.{BoostLib}
use libtd.HttpClient.Interface.{HttpLib}
use libtd.RestApi.Calls.{AuthInfo}
use libtd.Authenticator.Login.{WebDetail}
use libtd.WsClient.State.{Oracle}
use libtd.WsClient.Connect.{Read}
use libtd.WsClient.Sync.Notes.{connect-Notes}
use libtd.Td365.State.{on_rest, on_ws}
use libtd.Td365.Connecting.{Td365State, connect_ws, connect_session, open_session}

module _ (B : BoostLib) (H : HttpLib B) {D : Type 0} (J : JsonLib D) (F : FloatLib D)
    (write_fails : Oracle J.Json) (order : List (String × Grouping)) where
  notes_ws :
      (R : List ℤ → Type 0) (opened : Result (Unit {0})) (first second : Read)
      (outcome : Result (WebDetail (B.Url) × AuthInfo) × Td365State B H J)
      → R (outcome.1.ws_client.subscribed)
      → R (
          (continue
            (connect_ws B H J write_fails opened first second)
            outcome).1.ws_client.subscribed)
  unfolding connect_ws on_ws
  notes_ws R opened first second (ok session, s) h =
      connect-Notes J F write_fails order R (B.buffer (session.0.sock_host)) (session.1.login_id)
        (session.1.token) opened first second (s.ws_client) h
  notes_ws R opened first second (err thrown, s) h = h

  -- A connect, whether it returns or throws, leaves the quotes that are noted.
  pub connect_session-Notes :
      (R : List ℤ → Type 0) (authenticated : Stateful (H.World) (WebDetail (B.Url)))
      (opened : Result (Unit {0})) (first second : Read) (s : Td365State B H J)
      → R (s.ws_client.subscribed)
      → R (
          (connect_session B H J write_fails authenticated opened first second
            s).1.ws_client.subscribed)
  unfolding connect_session on_rest ◌>>=◌
  connect_session-Notes R authenticated opened first second s h =
      notes_ws R opened first second (on_rest (open_session B H J write_fails authenticated) s) h
