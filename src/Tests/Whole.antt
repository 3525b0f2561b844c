-- ===== src/Tests/Whole.antt =====
-- A session of the whole library: a subscribe that comes too early, a connect, a wait, and a call over
-- HTTP.
use libtd.Base.{[], ◌∷◌, some, ◌≡◌, refl, Result, ok}
use libtd.Base.Int.{pos}
use libtd.Base.Stateful.{◌>>=◌, ◌>>◌}
use libtd.Text.{Bytes, codes}
use libtd.Parsing.GroupingNames.{grouping_map}
use libtd.HttpClient.Interface.{HttpLib}
use libtd.RestApi.Client as RestClient
use libtd.Authenticator.Accounts.{demo}
use libtd.Authenticator.Login.{WebDetail}
use libtd.WsClient.Sync.{IsSynced}
use libtd.WsClient.Subscriptions.{contains}
use libtd.Td365.State.{create, on_rest, on_ws}
use libtd.Td365.Connecting.{Td365State, connect_session, open_session, connect_ws}
use libtd.Td365.Methods.{subscribe, get_market_super_group, wait}
use libtd.Td365.Session.{
  Reach, here, next, subscribes, at_once, later, waited, asked, super_groups, Reach-Serves-IsSynced,
}
use libtd.Tests.Library.{json, float}
use libtd.Tests.Sessions.{never, offline, greeted, accepting, connect-returns}
use libtd.Tests.Network.{boost, nowhere, TestWorld}
use libtd.Tests.Logins.{http, nobody, with_cookie, connected_a}
use libtd.Tests.Waits.{a_round}

abbrev let_in : TestWorld → Result (WebDetail Bytes) × TestWorld
let_in w = (
  ok (record {
    platform_url = codes "a";
    account_type = demo;
    site_host = codes "s";
    api_host = codes "i";
    sock_host = codes "u";
  }),
  w,
)

abbrev State : Type 0
State = Td365State boost http json

abbrev signed_off : State
signed_off = record (create (nobody, nowhere)) { ws_client = offline }

signed_off_reached :
    Reach boost http json float never grouping_map (create (nobody, nowhere)) signed_off
unfolding subscribe contains create
signed_off_reached = next here (subscribes (pos 5))

session-returns :
    (connect_session boost http json never let_in (ok tt) greeted accepting signed_off).0 ≡ ok tt
unfolding connect_session open_session on_rest on_ws connect_ws RestClient.on_world ◌>>=◌ ◌>>◌
    create
session-returns = rw connected_a (
    connect-returns (codes "u") (codes "L7") (HttpLib.cookie http with_cookie (codes "o")).value
      offline refl refl)

abbrev signed_on : State
signed_on = (connect_session boost http json never let_in (ok tt) greeted accepting signed_off).1

abbrev after_wait : State
after_wait = (wait boost http json float never grouping_map (some 5) 0 (a_round ∷ []) signed_on).1

Reach-Serves-IsSynced_example :
    IsSynced ((get_market_super_group boost http json after_wait).1.ws_client)
Reach-Serves-IsSynced_example =
    Reach-Serves-IsSynced boost http json float never grouping_map (nobody, nowhere) let_in (ok tt)
      greeted accepting signed_off ((get_market_super_group boost http json after_wait).1)
      signed_off_reached session-returns
      (later (later at_once (waited (some 5) 0 (a_round ∷ []))) (asked super_groups))
