-- ===== src/Tests/Requests.antt =====
-- Requests of the HTTP client on the network of the tests.
use libtd.Base.{true, false, none, some, List, [], ◌∷◌, ◌++◌, map, ◌≡◌, refl, ok, err, system_error}
use libtd.Base.Int.{pos}
use libtd.Base.Stateful.{◌>>=◌, ◌>>◌}
use libtd.Text.{codes, equal}
use libtd.Text.Decimal.{show_ℕ}
use libtd.CookieJar.Headers.{read_header, Cookie, session, to_lower}
use libtd.CookieJar.Lookup.{HasUniqueNames, has}
use libtd.CookieJar.Jar.{update, apply}
use libtd.CookieJar.RequestHeader.{live_cookies}
use libtd.HttpClient.Boost.{Network, Headers, Request, get_verb, post_verb, same_name}
use libtd.HttpClient.Requests.{
  values_of, build, build-values, create_default_headers, application_json_headers,
}
use libtd.HttpClient.Debug.{is_debug_enabled}
use libtd.HttpClient.Client.{
  send, left_jar, request_of, ready, exchange, ensure_connected, to_header, on_stream,
}
use libtd.HttpClient.Keeping.{IsClient, send-IsClient}
use libtd.HttpClient.Exchange.{Asks, send-response, send-system_error}
use libtd.Tests.Network.{boost, network, visitor, nowhere, landed, TestWorld}

accept-cookie : same_name (codes "Cookie") (codes "Accept") ≡ false
unfolding same_name to_lower equal
accept-cookie = refl

accept-length : same_name (codes "Content-Length") (codes "Accept") ≡ false
unfolding same_name to_lower equal
accept-length = refl

accept-encoding : same_name (codes "Transfer-Encoding") (codes "Accept") ≡ false
unfolding same_name to_lower equal
accept-encoding = refl

abbrev a_request : Request Headers
a_request =
    build boost create_default_headers (some application_json_headers) (some (codes "o=T1"))
      post_verb (codes "b") (some (codes "{}"))

build-values_example :
    (values_of (a_request.fields) (codes "Accept")
      ≡ values_of create_default_headers (codes "Accept")
        ++ values_of application_json_headers (codes "Accept"))
    × (values_of (a_request.fields) (codes "Cookie") ≡ codes "o=T1" ∷ [])
    × (values_of (a_request.fields) (codes "Content-Length") ≡ show_ℕ 2 ∷ [])
build-values_example =
    build-values boost create_default_headers (some application_json_headers) (some (codes "o=T1"))
      post_verb (codes "b") (some (codes "{}")) (codes "Accept") accept-cookie accept-length
      accept-encoding

visitor-IsClient :
    IsClient boost network (codes "a") ((codes "Accept", codes "*/*") ∷ []) (visitor, nowhere)
unfolding HasUniqueNames has
visitor-IsClient = record { host_same = refl; headers_same = refl; unique = (refl, tt) }

send-IsClient_example :
    IsClient boost network
      (codes "a")
      ((codes "Accept", codes "*/*") ∷ [])
      ((send boost network get_verb (codes "b") none none (visitor, nowhere)).1)
send-IsClient_example =
    send-IsClient boost network (codes "a") ((codes "Accept", codes "*/*") ∷ []) get_verb
      (codes "b") none none (visitor, nowhere) visitor-IsClient

quiet : is_debug_enabled boost network ≡ ok false
unfolding is_debug_enabled
quiet = refl

abbrev at_b : TestWorld
at_b = record { last = codes "b"; file = none }

abbrev new_jar : List Cookie
new_jar = session (codes "o") (codes "T1") ∷ []

jar-updated :
    update (pos 5) (λ s. none) (map to_header (landed.fields)) (live_cookies (pos 5) (visitor.jar))
    ≡ ok new_jar
unfolding update to_header read_header
jar-updated = refl

send-response_example :
    Asks boost network get_verb
      (codes "b")
      none
      (some application_json_headers)
      (visitor, nowhere)
      (codes "Accept")
      (request_of boost network get_verb
        (codes "b")
        none
        (some application_json_headers)
        (visitor, nowhere))
    × (send boost network get_verb
          (codes "b")
          none
          (some application_json_headers)
          (visitor, nowhere)
        ≡ (ok landed, (record visitor { stream = true; jar = new_jar }, at_b)))
unfolding request_of build
send-response_example =
    send-response boost network get_verb (codes "b") none (some application_json_headers)
      (visitor, nowhere) (codes "Accept") (true, at_b) (true, at_b) landed new_jar accept-cookie
      accept-length accept-encoding refl quiet refl refl jar-updated

abbrev at_x : TestWorld
at_x = record { last = codes "x"; file = none }

broken :
    exchange boost network
      (request_of boost network get_verb (codes "x") none none (visitor, nowhere))
      (ready boost network (visitor, nowhere))
    ≡ (err system_error, (visitor, at_x))
unfolding exchange request_of build ready left_jar apply on_stream ◌>>=◌ ◌>>◌
broken = refl

send-system_error_example :
    (send boost network get_verb (codes "x") none none (visitor, nowhere)
      ≡ (err system_error, (visitor, at_x)))
    × (ensure_connected boost network (visitor, at_x) ≡ (ok tt, (visitor, at_x)))
send-system_error_example =
    send-system_error boost network get_verb (codes "x") none none (visitor, nowhere)
      (visitor, at_x) refl quiet broken refl

-- The same network, where the variable DEBUG has a value that is no 0 and no 1.
abbrev misled : Network boost
misled = record network { debug = some (codes "true") }
