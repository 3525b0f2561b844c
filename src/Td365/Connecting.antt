-- ===== src/Td365/Connecting.antt =====
-- `td365::connect`: the authenticator, the REST interface and the web socket one after the other.
use libtd.Base.{◌≡◌, arith, Result, ok, err}
use libtd.Base.Stateful.{Stateful, ◌>>=◌, continue}
use libtd.Text.{Bytes}
use libtd.Json.{JsonLib}
use libtd.HttpClient.Boost.{BoostLib}
use libtd.HttpClient.Interface.{HttpLib}
use libtd.RestApi.Client.{RestState, on_world}
use libtd.RestApi.Calls.{AuthInfo}
use libtd.RestApi.Calls
use libtd.Td365.State.{Td365, on_rest, on_ws}
use libtd.Authenticator.Login.{Desk, WebDetail, authenticate, authenticate_oneclick}
use libtd.WsClient.State.{Oracle}
use libtd.WsClient.Connect.{Read}
use libtd.WsClient.Connect as WsConnect
use libtd.WsClient.Sync.{IsDistinct, IsSynced}
use libtd.WsClient.Sync.Connect as SyncConnect

module _ (B : BoostLib) (H : HttpLib B) {D : Type 0} (J : JsonLib D) where
  abbrev pub Td365State : Type 0
  Td365State = Td365 (RestState B H) (J.Json)

module _ (B : BoostLib) (H : HttpLib B) {D : Type 0} (J : JsonLib D)
    (write_fails : Oracle J.Json) where
  -- What the two overloads do with their detail, up to the web socket.
  unfoldable pub open_session :
      Stateful (H.World) (WebDetail (B.Url))
      → Stateful (RestState B H) (WebDetail (B.Url) × AuthInfo)
  unfolding on_world
  open_session authenticated = do
    auth_detail ← on_world B H authenticated
    auth_info ← Calls.connect B H auth_detail.platform_url
    λ r. (ok (auth_detail, auth_info), r)

  -- What the socket does appears as for `ws_client::connect`.
  unfoldable pub connect_ws :
      Result (Unit {0})
      → Read
      → Read
      → WebDetail (B.Url) × AuthInfo
      → Stateful (Td365State B H J) (Unit {0})
  unfolding on_ws WsConnect.connect
  connect_ws opened first second session = on_ws (
      WsConnect.connect J write_fails (B.buffer (session.0.sock_host)) (session.1.login_id)
        (session.1.token) opened first second)

  unfoldable pub connect_session :
      Stateful (H.World) (WebDetail (B.Url))
      → Result (Unit {0})
      → Read
      → Read
      → Stateful (Td365State B H J) (Unit {0})
  unfolding open_session on_rest connect_ws
  connect_session authenticated opened first second = do
    session ← on_rest (open_session authenticated)
    connect_ws opened first second session

  -- The web socket behind the authenticator and the REST interface.
  continue_ws :
      (opened : Result (Unit {0})) (first second : Read)
      (outcome : Result (WebDetail (B.Url) × AuthInfo) × Td365State B H J)
      → IsDistinct outcome.1.ws_client.subscribed
      → (continue (connect_ws opened first second) outcome).0 ≡ ok tt
      → IsSynced ((continue (connect_ws opened first second) outcome).1.ws_client)
  unfolding connect_ws on_ws
  continue_ws opened first second (ok session, s) d e =
      SyncConnect.connect-IsSynced J write_fails (B.buffer (session.0.sock_host))
        (session.1.login_id) (session.1.token) opened first second (s.ws_client) d e
  continue_ws opened first second (err thrown, s) d e = absurd (ground arith)

  -- A connect of td365 that returns, with whichever of the two authenticators, leaves the server
  -- of the web socket serving exactly the quotes that its client noted before, if it noted none
  -- twice.
  pub connect_session-IsSynced :
      (authenticated : Stateful (H.World) (WebDetail (B.Url))) (opened : Result (Unit {0}))
      (first second : Read) (s : Td365State B H J)
      → IsDistinct s.ws_client.subscribed
      → (connect_session authenticated opened first second s).0 ≡ ok tt
      → IsSynced ((connect_session authenticated opened first second s).1.ws_client)
  unfolding connect_session on_rest ◌>>=◌
  connect_session-IsSynced authenticated opened first second s d e =
      continue_ws opened first second (on_rest (open_session authenticated) s) d e

  module _ (K : Desk (H.World)) where
    unfoldable pub connect_demo :
        Result (Unit {0}) → Read → Read → Stateful (Td365State B H J) (Unit {0})
    unfolding connect_session authenticate_oneclick
    connect_demo = connect_session (authenticate_oneclick B H K J)

    unfoldable pub connect :
        Bytes
        → Bytes
        → Bytes
        → Result (Unit {0})
        → Read
        → Read
        → Stateful (Td365State B H J) (Unit {0})
    unfolding connect_session authenticate
    connect username password account_id =
        connect_session (authenticate B H K J username password account_id)
